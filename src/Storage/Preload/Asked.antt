-- ===== src/Storage/Preload/Asked.antt =====
-- The pieces that a preload asks for.
use torrent_go.Prelude.{
  ℕ, zero, suc, ◌+◌, ◌-◌, ◌/◌, ◌≤◌, ◌<◌, ◌≡◌, ◌⊎◌, inl, inr, ap, ltb, ◌==◌, if_both, Bool-cases,
  min, some, List, [], ◌∷◌, ◌++◌, arith,
}
use torrent_go.Prelude.Sort.{Elem}
use torrent_go.Prelude.Assoc.{lookup}
use torrent_go.Storage.ReadClass
use torrent_go.Storage.Reader.Seek.{div_mono}
use torrent_go.Storage.Cache.{Cache}
use torrent_go.Storage.Preload.{
  pieces_from, start_pieces, last_pieces, set_now, DoneWait, FileSpan, preload_pieces, preload,
}

Elem-pieces_from : (n i j : ℕ) → i ≤ j → j < i + n → Elem j (pieces_from n i)
unfolding pieces_from
Elem-pieces_from zero i j lo hi = absurd (omega arith)
Elem-pieces_from (suc n) i j lo hi = elim (Bool-cases (i == j)) [
  | inl q ↦ inl (ground arith)
  | inr q ↦ inr (Elem-pieces_from n (suc i) j (ground arith) (omega arith))
]

Elem-left : (x : ℕ) (xs ys : List ℕ) → Elem x xs → Elem x (xs ++ ys)
Elem-left x [] ys e = absurd e
Elem-left x (z ∷ xs) ys (inl e) = inl e
Elem-left x (z ∷ xs) ys (inr e) = inr (Elem-left x xs ys e)

Elem-right : (x : ℕ) (xs ys : List ℕ) → Elem x ys → Elem x (xs ++ ys)
Elem-right x [] ys e = e
Elem-right x (z ∷ xs) ys e = inr (Elem-right x xs ys e)

lookup-set_now : (x : ℕ) (xs : List ℕ) → Elem x xs → lookup x (set_now xs) ≡ some ReadClass.now
unfolding set_now
lookup-set_now x [] e = absurd e
lookup-set_now x (y ∷ xs) (inl e) = ground arith
lookup-set_now x (y ∷ xs) (inr e) = ground (arith, lookup-set_now x xs e)

-- A byte of what is preloaded: near the start of the file, or its last one.
abbrev pub IsPreloaded : FileSpan → ℕ → ℕ → Type 0
IsPreloaded f size k =
    ((f.offset ≤ k) × (k < min (f.offset + size) (f.offset + f.len))) ⊎ (k ≡ f.offset + f.len - 1)

-- A preload asks at the highest priority for each piece that holds one of the first `size` bytes of the
-- file, and for the piece of its last byte, where players look for the index of a container. The torrent has the
-- piece.
pub preload_asks :
    (waits : List DoneWait) (c : Cache) (f : FileSpan) (size k : ℕ)
    → 0 < c.geometry.piece_len
    → k / c.geometry.piece_len < c.geometry.piece_count
    → IsPreloaded f size k
    → lookup (k / c.geometry.piece_len) (preload waits c f size).1 ≡ some ReadClass.now
unfolding preload preload_pieces start_pieces last_pieces
preload_asks waits c f size k l h (inl (lo, hi)) =
    let g = c.geometry in
    let end_ = min (f.offset + size) (f.offset + f.len) - 1 in
    let a = div_mono f.offset k g.piece_len l lo in
    let b = div_mono k end_ g.piece_len l (omega (arith, hi)) in
    lookup-set_now _ _
      (Elem-left (k / g.piece_len) _ _ (Elem-pieces_from _ _ _ a (omega (arith, a, b, h))))
preload_asks waits c f size k l h (inr e) =
    let g = c.geometry in
    let same = ap (λ n. n / g.piece_len) e in
    lookup-set_now _ _ (
      Elem-right (k / g.piece_len) _ _ (
        if_both (Elem (k / g.piece_len)) (ltb ((f.offset + f.len - 1) / g.piece_len) g.piece_count)
          (λ t. inl same) (λ t. absurd (ground arith))))
