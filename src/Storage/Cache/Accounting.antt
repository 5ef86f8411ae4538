-- ===== src/Storage/Cache/Accounting.antt =====
-- `filled` against the pieces: it is the sum of what they have accounted, on every path.
use torrent_go.Prelude.{
  ℕ, ◌+◌, ◌≡◌, refl, sym, ap, ◌∙◌, true, false, inl, inr, Option-cases, if_both, none, List, [],
  ◌∷◌, arith,
}
use torrent_go.Prelude.Int.{pos, ◌+ℤ◌, ◌-ℤ◌, leb_ℤ, int_laws}
use torrent_go.Prelude.Assoc.{
  lookup, insert, erase, total, total-erase, total-insert, Distinct, insert-Distinct,
  erase-Distinct,
}
use torrent_go.Storage.MemPiece.{MemPiece, new_mem_piece, release_and_size}
use torrent_go.Storage.Cache.{
  Cache, new_cache, close, get_or_create, found_or_new, drop_piece, still_evictable,
  mark_not_complete, clean_loop, clean_pieces, evict_if_needed, evict_piece,
}

abbrev pub held : Cache → ℕ
held c = total (λ mp. mp.accounted) c.pieces

-- A closed cache is empty.
pub record IsBalanced (c : Cache) : Type 0 where
  pub balance : c.filled ≡ pos (held c)
  pub distinct : Distinct c.pieces
  pub empty_closed : c.closed ≡ true → c.pieces ≡ []

pub new_cache-IsBalanced : (capacity l n : ℕ) → IsBalanced (new_cache capacity l n)
unfolding new_cache
new_cache-IsBalanced capacity l n = record {
  balance = refl;
  distinct = tt;
  empty_closed = λ h. refl;
}

pos_sub : (a b c : ℕ) → a + b ≡ c → pos c -ℤ pos b ≡ pos a
pos_sub a b c h = omega int_laws

pos_add : (a b : ℕ) → pos a +ℤ pos b ≡ pos (a + b)
pos_add a b = omega int_laws

-- What an operation that frees pieces promises: the result is balanced, and the cache holds less by
-- exactly the bytes that it gives back to the global account. Nothing else of the cache changes.
pub record Frees (c : Cache) (r : Cache × ℕ) : Type 0 where
  pub balanced : IsBalanced r.0
  pub conserved : held r.0 + r.1 ≡ held c
  pub same_closed : r.0.closed ≡ c.closed
  pub same_capacity : r.0.capacity ≡ c.capacity
  pub same_geometry : r.0.geometry ≡ c.geometry
  pub same_readers : r.0.readers ≡ c.readers
  pub same_store : r.0.has_store ≡ c.has_store

pub Frees-none : (c : Cache) → IsBalanced c → Frees c (c, 0)
Frees-none c b = record {
  balanced = b;
  conserved = omega arith;
  same_closed = refl;
  same_capacity = refl;
  same_geometry = refl;
  same_readers = refl;
  same_store = refl;
}

Frees-trans :
    (c d : Cache) (n : ℕ) (r : Cache × ℕ) → Frees c (d, n) → Frees d r → Frees c (r.0, n + r.1)
Frees-trans c d n r f g = record {
  balanced = g.balanced;
  conserved = omega arith;
  same_closed = g.same_closed ∙ f.same_closed;
  same_capacity = g.same_capacity ∙ f.same_capacity;
  same_geometry = g.same_geometry ∙ f.same_geometry;
  same_readers = g.same_readers ∙ f.same_readers;
  same_store = g.same_store ∙ f.same_store;
}

pub drop_piece-Frees : (c : Cache) (idx : ℕ) → IsBalanced c → Frees c (drop_piece c idx)
unfolding drop_piece release_and_size
drop_piece-Frees c idx b = elim (Option-cases (lookup idx c.pieces)) [
  | inl e ↦ rw e (Frees-none c b)
  | inr (mp, e) ↦
      let sum : total (λ mp. mp.accounted) (erase idx c.pieces) + mp.accounted ≡ held c =
        rw e at (total-erase (λ mp. mp.accounted) idx c.pieces) in
      rw e (record {
        balanced = record {
          balance = rw b.balance (pos_sub _ _ _ sum);
          distinct = erase-Distinct idx c.pieces b.distinct;
          empty_closed = λ h. rw (b.empty_closed h) refl;
        };
        conserved = sum;
        same_closed = refl;
        same_capacity = refl;
        same_geometry = refl;
        same_readers = refl;
        same_store = refl;
      })
]

clean_loop-Frees : (es : List (ℕ × MemPiece)) (c : Cache) → IsBalanced c → Frees c (clean_loop es c)
unfolding clean_loop
clean_loop-Frees [] c b = Frees-none c b
clean_loop-Frees (e ∷ es) c b =
    let f = drop_piece-Frees c e.0 b in
    if_both (Frees c) (leb_ℤ c.filled (pos c.capacity)) (λ h. Frees-none c b)
      (λ h. Frees-trans c _ _ _ f (clean_loop-Frees es (drop_piece c e.0).0 f.balanced))

-- A local eviction of a balanced cache leaves it balanced, and the bytes it gives back to the global
-- account are exactly those that the cache holds less.
pub evict_if_needed-Frees : (c : Cache) → IsBalanced c → Frees c (evict_if_needed c)
unfolding evict_if_needed clean_pieces
evict_if_needed-Frees c b =
    if_both (Frees c) (leb_ℤ c.filled (pos c.capacity)) (λ h. Frees-none c b)
      (λ h. clean_loop-Frees _ c b)

-- So does the eviction of one piece by the global pass.
pub evict_piece-Frees :
    (c : Cache) (idx : ℕ) (mp : MemPiece) → IsBalanced c → Frees c (evict_piece c idx mp)
unfolding evict_piece
evict_piece-Frees c idx mp b =
    if_both (Frees c) c.closed (λ h. Frees-none c b)
      (λ h.
        if_both (Frees c) (still_evictable (lookup idx c.pieces) c idx mp)
          (λ k. drop_piece-Frees c idx b) (λ k. Frees-none c b))

-- So does a hash failure.
pub mark_not_complete-Frees :
    (c : Cache) (idx : ℕ) → IsBalanced c → Frees c (mark_not_complete c idx)
unfolding mark_not_complete
mark_not_complete-Frees c idx b =
    if_both (Frees c) c.closed (λ h. Frees-none c b) (λ h. drop_piece-Frees c idx b)

-- Closing gives back all that the cache holds.
pub close-Frees_all : (c : Cache) → IsBalanced (close c).0 × ((close c).1 ≡ held c)
unfolding close release_and_size
close-Frees_all c = (record { balance = refl; distinct = tt; empty_closed = λ h. refl }, refl)

-- What an operation that neither adds nor frees bytes promises.
abbrev pub Keeps : Cache → Cache × MemPiece → Type 0
Keeps c r = IsBalanced r.0 × (held r.0 ≡ held c)

create-Keeps :
    (c : Cache) (idx : ℕ) (now size : ℕ)
    → c.closed ≡ false
    → lookup idx c.pieces ≡ none
    → IsBalanced c
    → Keeps c (found_or_new none c now idx size)
unfolding new_mem_piece
create-Keeps c idx now size o e b =
    let mp = new_mem_piece c.next_id now size in
    let add : total (λ mp. mp.accounted) (insert idx mp c.pieces) + 0 ≡ held c + 0 =
      rw e at (total-insert (λ mp. mp.accounted) idx mp c.pieces) in
    let sum : total (λ mp. mp.accounted) (insert idx mp c.pieces) ≡ held c = omega arith in
    (
      record {
        balance = b.balance ∙ ap pos (sym sum);
        distinct = insert-Distinct idx mp c.pieces b.distinct;
        empty_closed = λ k. cc;
      },
      sum,
    )

-- Looking up or making a piece keeps the balance.
pub get_or_create-Keeps :
    (c : Cache) (now idx size : ℕ) → IsBalanced c → Keeps c (get_or_create c now idx size)
unfolding get_or_create
get_or_create-Keeps c now idx size b =
    if_both (Keeps c) c.closed
      (λ h. (
        record { balance = b.balance; distinct = b.distinct; empty_closed = b.empty_closed },
        refl,
      ))
      (λ h. elim (Option-cases (lookup idx c.pieces)) [
        | inl e ↦ rw e (create-Keeps c idx now size h e b)
        | inr (mp, e) ↦ rw e (b, refl)
      ])
