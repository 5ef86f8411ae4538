-- ===== src/Storage/Store/Evict.antt =====
-- The global eviction pass: it ends under budget, or with nothing left to evict anywhere.
use torrent_go.Prelude.{
  ℕ, ◌<◌, ◌≡◌, ap, ◌≢◌, true, false, ◌||◌, ◌⊎◌, inl, inr, Option-cases, Bool-cases, if_both, none,
  some, List, [], ◌∷◌, ◌++◌, arith, leb,
}
use mathlib.Core.Path.{subst}
use torrent_go.Prelude.Assoc.{lookup, lookup→In, In}
use torrent_go.Prelude.Sort.{sort_by, Elem, Elem-sort_by}
use torrent_go.Storage.MemPiece.{MemPiece, is_complete}
use torrent_go.Storage.Cache.{Cache, protected, evictable, collect_evict_candidates}
use torrent_go.Storage.Cache.Accounting.{IsBalanced}
use torrent_go.Storage.Cache.Candidates.{candidates-In}
use torrent_go.Storage.Cache.EvictOne.{evict_piece-spares}
use torrent_go.Storage.Store.{
  Store, Candidate, accessed, of_cache, gather, evict_at, evict_loop, evict_global_if_needed, fits,
}
use torrent_go.Storage.Store.Balance.{IsExact, evict_at-IsExact}
use torrent_go.Storage.Store.EvictLoop.{
  piece_of, piece_at, guarded_by, guarded, evict_at-caches, evict_at-guarded, loop-subset,
  Evictable, loop-exhausts,
}

Elem-of_cache :
    (h k : ℕ) (mp : MemPiece) (es : List (ℕ × MemPiece))
    → In (k, mp) es
    → Elem (record { hash = h; index = k; piece = mp }) (of_cache h es)
unfolding of_cache
Elem-of_cache h k mp [] i = i
Elem-of_cache h k mp (f ∷ es) (inl e) =
    inl (ap (λ x. record { hash = h; index = x.0; piece = x.1 }) e)
Elem-of_cache h k mp (f ∷ es) (inr i) = inr (Elem-of_cache h k mp es i)

Elem-append_left : {A : Type 0} (x : A) (xs ys : List A) → Elem x xs → Elem x (xs ++ ys)
Elem-append_left x [] ys i = absurd i
Elem-append_left x (y ∷ xs) ys (inl e) = inl e
Elem-append_left x (y ∷ xs) ys (inr i) = inr (Elem-append_left x xs ys i)

Elem-append_right : {A : Type 0} (x : A) (xs ys : List A) → Elem x ys → Elem x (xs ++ ys)
Elem-append_right x [] ys i = i
Elem-append_right x (y ∷ xs) ys i = inr (Elem-append_right x xs ys i)

Elem-collect :
    (c : Cache) (h k : ℕ) (mp : MemPiece)
    → IsBalanced c
    → lookup k c.pieces ≡ some mp
    → evictable (protected c) (k, mp) ≡ true
    → Elem (record { hash = h; index = k; piece = mp }) (of_cache h (collect_evict_candidates c))
unfolding collect_evict_candidates
Elem-collect c h k mp b l v =
    if_both (λ es. Elem (record { hash = h; index = k; piece = mp }) (of_cache h es)) c.closed
      (λ q.
        let none_held : lookup k c.pieces ≡ none = ap (lookup k) (b.empty_closed q) in absurd (cc))
      (λ q.
        Elem-of_cache h k mp _
          (candidates-In (protected c) (k, mp) c.pieces (lookup→In k mp c.pieces l) v))

Elem-gather :
    (cs : List (ℕ × Cache)) (c : Cache) (h k : ℕ) (mp : MemPiece)
    → In (h, c) cs
    → IsBalanced c
    → lookup k c.pieces ≡ some mp
    → evictable (protected c) (k, mp) ≡ true
    → Elem (record { hash = h; index = k; piece = mp }) (gather cs)
unfolding gather
Elem-gather [] c h k mp i b l v = absurd i
Elem-gather ((j, d) ∷ cs) c h k mp (inl e) b l v =
    let x : Candidate = record { hash = h; index = k; piece = mp } in
    subst (λ p. Elem x (of_cache p.0 (collect_evict_candidates p.1) ++ gather cs)) e
      (Elem-append_left x _ (gather cs) (Elem-collect c h k mp b l v))
Elem-gather ((j, d) ∷ cs) c h k mp (inr i) b l v =
    Elem-append_right _ (of_cache j (collect_evict_candidates d)) (gather cs)
      (Elem-gather cs c h k mp i b l v)

-- Every piece that could be evicted is a candidate of the pass.
queued :
    (s : Store) (h k : ℕ) (mp : MemPiece)
    → IsExact s
    → piece_at s h k ≡ some mp
    → guarded s h k ≡ false
    → is_complete mp ≡ true
    → Elem (record { hash = h; index = k; piece = mp }) (sort_by accessed (gather s.caches))
queued s h k mp e p u f = elim (Option-cases (lookup h s.caches)) [
  | inl l ↦ absurd (ground arith)
  | inr (c, l) ↦ Elem-sort_by accessed _ (gather s.caches) (
      Elem-gather s.caches c h k mp (lookup→In h c s.caches l) (e.caches_good h c l).0 (rw l at p)
        (let q = rw l at u in ground arith))
]

-- A global eviction ends with the resident bytes of all torrents under the budget, or with no piece
-- left in any cache that is complete and outside every reader's windows. The account is exact before,
-- and the budget is positive.
pub evict_global-exhausts :
    (s : Store)
    → IsExact s
    → 0 < s.global_capacity
    → (fits (evict_global_if_needed s) ≡ true)
      ⊎ ((h k : ℕ) (mp : MemPiece)
          → piece_at (evict_global_if_needed s) h k ≡ some mp
          → (guarded s h k ≡ true) ⊎ (is_complete mp ≡ false))
unfolding evict_global_if_needed
evict_global-exhausts s e pos_cap =
    let xs = sort_by accessed (gather s.caches) in
    if_both
      (λ (r : Store).
        (fits r ≡ true)
        ⊎ ((h k : ℕ) (mp : MemPiece)
            → piece_at r h k ≡ some mp
            → (guarded s h k ≡ true) ⊎ (is_complete mp ≡ false)))
      (leb s.global_capacity 0 || fits s) (λ q. inl (ground arith))
      (λ q. elim (loop-exhausts xs s e) [
        | inl f ↦ inl f
        | inr f ↦ inr (λ h k mp p. left h k mp p f)
      ])
  where
    left :
        (h k : ℕ) (mp : MemPiece)
        → piece_at (evict_loop (sort_by accessed (gather s.caches)) s) h k ≡ some mp
        → ((x : Candidate)
            → Elem x (sort_by accessed (gather s.caches))
            → Evictable s x
            → piece_at (evict_loop (sort_by accessed (gather s.caches)) s) x.hash x.index
              ≢ some x.piece)
        → (guarded s h k ≡ true) ⊎ (is_complete mp ≡ false)
    left h k mp p f = elim (Bool-cases (guarded s h k)) [
      | inl u ↦ inl u
      | inr u ↦ elim (Bool-cases (is_complete mp)) [
        | inr n ↦ inr n
        | inl y ↦
            let old = loop-subset (sort_by accessed (gather s.caches)) s h k mp e p in
            absurd
              (f (record { hash = h; index = k; piece = mp }) (queued s h k mp e old u y) (u, y) p)
      ]
    ]

evict_at-spares :
    (s : Store) (x : Candidate) (h k : ℕ) (mp : MemPiece)
    → IsExact s
    → (guarded s h k ≡ true) ⊎ (is_complete mp ≡ false)
    → piece_at s h k ≡ some mp
    → piece_at (evict_at s x) h k ≡ some mp
evict_at-spares s x h k mp e =
    evict_at-caches s x e
      (λ o n.
        (guarded_by o k ≡ true) ⊎ (is_complete mp ≡ false)
        → piece_of o k ≡ some mp
        → piece_of n k ≡ some mp)
      h (λ o v p. p) (λ c b. evict_piece-spares c x.index k x.piece mp b.distinct)

loop-spares :
    (xs : List Candidate) (s : Store) (h k : ℕ) (mp : MemPiece)
    → IsExact s
    → (guarded s h k ≡ true) ⊎ (is_complete mp ≡ false)
    → piece_at s h k ≡ some mp
    → piece_at (evict_loop xs s) h k ≡ some mp
unfolding evict_loop
loop-spares [] s h k mp e v p = p
loop-spares (x ∷ xs) s h k mp e v p =
    if_both (λ (t : Store). piece_at t h k ≡ some mp) (fits s) (λ q. p)
      (λ q.
        loop-spares xs (evict_at s x) h k mp (evict_at-IsExact s x e)
          (rw (evict_at-guarded s x e h k) v) (evict_at-spares s x h k mp e v p))

-- A global eviction drops no piece that a reader of its torrent protects, and none that is not
-- complete. The account is exact before.
pub evict_global-spares :
    (s : Store) (h k : ℕ) (mp : MemPiece)
    → IsExact s
    → (guarded s h k ≡ true) ⊎ (is_complete mp ≡ false)
    → piece_at s h k ≡ some mp
    → piece_at (evict_global_if_needed s) h k ≡ some mp
unfolding evict_global_if_needed
evict_global-spares s h k mp e v p =
    if_both (λ (t : Store). piece_at t h k ≡ some mp) (leb s.global_capacity 0 || fits s) (λ q. p)
      (λ q. loop-spares (sort_by accessed (gather s.caches)) s h k mp e v p)
