-- ===== src/Storage/Store/Balance.antt =====
-- The global account: it is the sum of what the caches hold, after every method of the store.
use torrent_go.Prelude.{
  ℕ, ◌+◌, ◌≡◌, refl, sym, ap, ◌∙◌, Bool, true, ◌||◌, inl, inr, Option-cases, if_both, Option, some,
  List, [], ◌∷◌, arith, leb,
}
use torrent_go.Prelude.Int.{pos, ◌-ℤ◌, int_laws}
use torrent_go.Prelude.Assoc.{
  lookup, insert, erase, total, weight, total-erase, total-insert, insert-all, erase-all, In,
  In→lookup, Distinct, insert-Distinct, erase-Distinct,
}
use torrent_go.Storage.Disk.{DiskBacking}
use torrent_go.Storage.MemPiece.{release_and_size}
use torrent_go.Storage.Cache.{Cache, new_cache, close, evict_piece, evict_if_needed}
use torrent_go.Storage.Cache.Accounting.{
  held, IsBalanced, Frees, evict_piece-Frees, evict_if_needed-Frees,
}
use torrent_go.Storage.Store.{
  Store, new_storage, give_back, sub_global_filled, evict_at, evict_loop, evict_global_if_needed,
  set_global_capacity, evict_after_complete, open_torrent, delete_cache, close_all, close_storage,
  fits, Candidate,
}

abbrev pub Good : Cache → Type 0
Good c = IsBalanced c × (c.has_store ≡ true)

pub record IsExact (s : Store) : Type 0 where
  pub exact : s.global_filled ≡ pos (total held s.caches)
  pub caches_good : (h : ℕ) (c : Cache) → lookup h s.caches ≡ some c → Good c
  pub distinct : Distinct s.caches

pub new_storage-IsExact : (bytes : ℕ) (dir : Bool) → IsExact (new_storage bytes dir)
unfolding new_storage
new_storage-IsExact bytes dir = record {
  exact = refl;
  caches_good = λ h c e. absurd (cc);
  distinct = tt;
}

pos_sub : (a b c : ℕ) → a + b ≡ c → pos c -ℤ pos b ≡ pos a
pos_sub a b c h = omega int_laws

-- A cache that frees bytes and gives them back keeps the global account exact.
give_back-IsExact :
    (s : Store) (h : ℕ) (c : Cache) (r : Cache × ℕ)
    → lookup h s.caches ≡ some c
    → IsExact s
    → Frees c r
    → IsExact (give_back s h r)
give_back-IsExact s h c r l x f =
    let good = x.caches_good h c l in
    let store : (r.0).has_store ≡ true = f.same_store ∙ good.1 in
    let sum : total held (insert h r.0 s.caches) + held c ≡ total held s.caches + held r.0 =
      rw l at (total-insert held h r.0 s.caches) in
    let less : total held (insert h r.0 s.caches) + r.1 ≡ total held s.caches =
      omega (arith, f.conserved) in
    if_both IsExact (r.0).has_store
      (λ k. record {
        exact = rw x.exact (pos_sub _ r.1 _ less);
        caches_good = insert-all Good h r.0 s.caches (f.balanced, store) x.caches_good;
        distinct = insert-Distinct h r.0 s.caches x.distinct;
      })
      (λ k. absurd (cc))

pub evict_at-IsExact : (s : Store) (x : Candidate) → IsExact s → IsExact (evict_at s x)
unfolding evict_at
evict_at-IsExact s x e = elim (Option-cases (lookup x.hash s.caches)) [
  | inl l ↦ rw l e
  | inr (c, l) ↦ rw l (
      give_back-IsExact s x.hash c (evict_piece c x.index x.piece) l e
        (evict_piece-Frees c x.index x.piece (e.caches_good x.hash c l).0))
]

evict_loop-IsExact : (xs : List Candidate) (s : Store) → IsExact s → IsExact (evict_loop xs s)
unfolding evict_loop
evict_loop-IsExact [] s e = e
evict_loop-IsExact (x ∷ xs) s e =
    if_both IsExact (fits s) (λ h. e)
      (λ h. evict_loop-IsExact xs (evict_at s x) (evict_at-IsExact s x e))

-- A global eviction keeps the account exact: `globalFilled` remains the sum of what the caches hold,
-- and each of these remains balanced.
pub evict_global-IsExact : (s : Store) → IsExact s → IsExact (evict_global_if_needed s)
unfolding evict_global_if_needed
evict_global-IsExact s e =
    if_both IsExact (leb s.global_capacity 0 || fits s) (λ h. e) (λ h. evict_loop-IsExact _ s e)

pub set_global_capacity-IsExact :
    (s : Store) (bytes : ℕ) → IsExact s → IsExact (set_global_capacity s bytes)
unfolding set_global_capacity
set_global_capacity-IsExact s bytes e =
    evict_global-IsExact _
      (record { exact = e.exact; caches_good = e.caches_good; distinct = e.distinct })

pub evict_after_complete-IsExact :
    (s : Store) (h : ℕ) → IsExact s → IsExact (evict_after_complete s h)
unfolding evict_after_complete
evict_after_complete-IsExact s h e = elim (Option-cases (lookup h s.caches)) [
  | inl l ↦ rw l e
  | inr (c, l) ↦ rw l (
      if_both IsExact c.has_store (λ k. evict_global-IsExact s e)
        (λ k.
          give_back-IsExact s h c (evict_if_needed c) l e
            (evict_if_needed-Frees c (e.caches_good h c l).0)))
]

close_size : (c : Cache) → (close c).1 ≡ held c
unfolding close release_and_size
close_size c = refl

-- Removing a torrent, known or not, keeps the account exact: it gives back all that its cache held.
pub delete_cache-IsExact : (s : Store) (h : ℕ) → IsExact s → IsExact (delete_cache s h)
unfolding delete_cache
delete_cache-IsExact s h e = elim (Option-cases (lookup h s.caches)) [
  | inl l ↦ rw l e
  | inr (c, l) ↦
      let sum : total held (erase h s.caches) + (close c).1 ≡ total held s.caches =
        rw (close_size c) (rw l at (total-erase held h s.caches)) in
      rw l (
        if_both IsExact c.has_store
          (λ k. record {
            exact = rw e.exact (pos_sub _ (close c).1 _ sum);
            caches_good = erase-all Good h s.caches e.distinct e.caches_good;
            distinct = erase-Distinct h s.caches e.distinct;
          })
          (λ k. let g = e.caches_good h c l in absurd (cc g.1)))
]

close_all-empty :
    (cs : List (ℕ × Cache)) (s : Store)
    → ((h : ℕ) (c : Cache) → In (h, c) cs → c.has_store ≡ true)
    → s.global_filled ≡ pos (total held cs)
    → ((close_all cs s).global_filled ≡ pos 0) × ((close_all cs s).caches ≡ [])
unfolding close_all
close_all-empty [] s g e = (e, refl)
close_all-empty ((h, c) ∷ cs) s g e =
    if_both (λ t. ((close_all cs t).global_filled ≡ pos 0) × ((close_all cs t).caches ≡ []))
      c.has_store
      (λ k.
        close_all-empty cs (sub_global_filled s (close c).1) (λ j d i. g j d (inr i))
          (rw e (
            pos_sub (total held cs) (close c).1 (held c + total held cs)
              (omega (arith, close_size c)))))
      (λ k. let q : c.has_store ≡ true = g h c (inl refl) in absurd (cc))

-- Closing a store whose account is exact leaves no cache, and a `globalFilled` of 0.
pub close_storage-empty :
    (s : Store)
    → IsExact s
    → ((close_storage s).global_filled ≡ pos 0) × ((close_storage s).caches ≡ [])
unfolding close_storage
close_storage-empty s e =
    close_all-empty s.caches s
      (λ h c i. (e.caches_good h c (In→lookup h c s.caches e.distinct i)).1) e.exact

insert_empty-IsExact :
    (s : Store) (h : ℕ) (c : Cache)
    → weight held (lookup h s.caches) ≡ 0
    → held c ≡ 0
    → Good c
    → IsExact s
    → IsExact (record s { caches = insert h c s.caches })
insert_empty-IsExact s h c z empty g e =
    let sum : total held (insert h c s.caches) ≡ total held s.caches =
      omega (arith, total-insert held h c s.caches) in
    record {
      exact = e.exact ∙ ap pos (sym sum);
      caches_good = insert-all Good h c s.caches g e.caches_good;
      distinct = insert-Distinct h c s.caches e.distinct;
    }

-- Opening a torrent that has no cache yet, or one that holds no bytes, keeps the account exact,
-- whether or not its files could be opened.
pub open_torrent-IsExact :
    (s : Store) (h n l t : ℕ) (opened : Option DiskBacking)
    → weight held (lookup h s.caches) ≡ 0
    → IsExact s
    → IsExact (open_torrent s h n l t opened)
unfolding open_torrent new_cache
open_torrent-IsExact s h n l t opened z e =
    insert_empty-IsExact s h _ z refl
      (record { balance = refl; distinct = tt; empty_closed = λ k. refl }, refl) e
