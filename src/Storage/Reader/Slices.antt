-- ===== src/Storage/Reader/Slices.antt =====
-- The piece and the offset in it of a byte of the torrent.
use native.Mathlib.Nat.{div-add-mod', mod-lt}
use native.Mathlib.Nat.{mul-le-mul_right, lt_of_mul-lt-mul_right, suc-mul}
use torrent_go.Prelude.{
  ℕ, zero, suc, ◌+◌, ◌-◌, ◌*◌, ◌/◌, ◌%◌, ◌≤◌, ◌<◌, ◌≡◌, refl, sym, ap, ◌∙◌, ◌==◌, if◌then◌else◌,
  if_both, min, List, [], ◌∷◌, ◌++◌, length, take, drop, length-take, length-drop, arith,
}
use torrent_go.Storage.Window.{Geometry}
use torrent_go.Storage.Reader.{Span, span}

drop_nil : (n : ℕ) → drop {A = ℕ} n [] ≡ []
drop_nil zero = refl
drop_nil (suc n) = refl

pub drop-drop : (n m : ℕ) (xs : List ℕ) → drop n (drop m xs) ≡ drop (m + n) xs
drop-drop n zero xs = let e : n ≡ 0 + n = omega arith in ap (λ k. drop k xs) e
drop-drop zero (suc m) [] = sym (drop_nil (suc m + 0))
drop-drop (suc n) (suc m) [] = sym (drop_nil (suc m + suc n))
drop-drop n (suc m) (x ∷ xs) =
    let e : suc (m + n) ≡ suc m + n = omega arith in drop-drop n m xs ∙ ap (λ k. drop k (x ∷ xs)) e

-- A slice inside the first `n` elements.
pub slice-take :
    (k off n : ℕ) (xs : List ℕ) → off + k ≤ n → take k (drop off (take n xs)) ≡ take k (drop off xs)
slice-take zero off n xs h = refl
slice-take (suc k) off zero xs h = absurd (omega arith)
slice-take (suc k) zero (suc n) [] h = refl
slice-take (suc k) zero (suc n) (x ∷ xs) h = ap (λ t. x ∷ t) (slice-take k zero n xs (omega arith))
slice-take (suc k) (suc off) (suc n) [] h = refl
slice-take (suc k) (suc off) (suc n) (x ∷ xs) h = slice-take (suc k) off n xs (omega arith)

-- Two slices that follow each other.
pub take-append :
    (n m : ℕ) (xs : List ℕ) → n ≤ length xs → take n xs ++ take m (drop n xs) ≡ take (n + m) xs
take-append zero m xs h = let e : m ≡ 0 + m = omega arith in ap (λ k. take k xs) e
take-append (suc n) m [] h = absurd (omega arith)
take-append (suc n) m (x ∷ xs) h =
    let e : suc (n + m) ≡ suc n + m = omega arith in
    ap (λ t. x ∷ t) (take-append n m xs (omega arith)) ∙ ap (λ k. take k (x ∷ xs)) e

module _ (g : Geometry) (file : List ℕ) where
  -- The bytes of a piece.
  abbrev pub piece_bytes : ℕ → List ℕ
  piece_bytes i = take g.piece_len (drop (i * g.piece_len) file)

  -- The pieces cover the torrent, and each of them holds a byte of it.
  pub record IsLaidOut : Type 0 where
    pub positive : 0 < g.piece_len
    pub covered : length file ≤ g.piece_count * g.piece_len
    pub needed : g.piece_count * g.piece_len < length file + g.piece_len

  length-piece_bytes :
      (i : ℕ) → length (piece_bytes i) ≡ min g.piece_len (length file - i * g.piece_len)
  length-piece_bytes i =
      length-take g.piece_len (drop (i * g.piece_len) file)
      ∙ ap (min g.piece_len) (length-drop _ file)

  module _ (l : IsLaidOut) (at want : ℕ) (inside : at < length file) where
    abbrev here : Span
    here = span g (length file) at want

    parts :
        (at / g.piece_len * g.piece_len + at % g.piece_len ≡ at) × (at % g.piece_len < g.piece_len)
    parts = (div-add-mod' at g.piece_len, mod-lt at l.positive)

    in_torrent : at / g.piece_len < g.piece_count
    in_torrent = lt_of_mul-lt-mul_right g.piece_len (omega (arith, parts.0, l.covered, inside))

    pub span-in_torrent : here.idx < g.piece_count
    unfolding span
    span-in_torrent = in_torrent

    -- The size that the source computes, in both of its branches.
    sized :
        (if suc (at / g.piece_len) == g.piece_count
          then length file - at / g.piece_len * g.piece_len
          else g.piece_len)
        ≡ min g.piece_len (length file - at / g.piece_len * g.piece_len)
    sized =
        let i = at / g.piece_len in
        let next : suc i * g.piece_len ≡ i * g.piece_len + g.piece_len = suc-mul i g.piece_len in
        if_both (λ (n : ℕ). n ≡ min g.piece_len (length file - i * g.piece_len))
          (suc i == g.piece_count)
          (λ h.
            let e : g.piece_count ≡ suc i = ground arith in
            let m : g.piece_count * g.piece_len ≡ suc i * g.piece_len =
              ap (λ k. k * g.piece_len) e in
            omega (arith, next, m, l.covered))
          (λ h.
            let far : suc (suc i) ≤ g.piece_count = let k = in_torrent in ground arith in
            let m = mul-le-mul_right g.piece_len far in
            let more : suc (suc i) * g.piece_len ≡ suc i * g.piece_len + g.piece_len =
              suc-mul (suc i) g.piece_len in
            omega (arith, next, more, m, l.needed))

    pub span-size : here.size ≡ length (piece_bytes here.idx)
    unfolding span
    span-size = sized ∙ sym (length-piece_bytes (at / g.piece_len))

    pub span-inside : here.off + here.len ≤ length (piece_bytes here.idx)
    unfolding span
    span-inside =
        let k = parts in omega (arith, span-size, k.0, k.1, length-piece_bytes (at / g.piece_len))

    pub span-some : 0 < want → 0 < here.len
    unfolding span
    span-some p = let k = parts in omega (arith, sized, k.0, k.1)

    pub span-slice :
        take here.len (drop here.off (piece_bytes here.idx)) ≡ take here.len (drop at file)
    unfolding span
    span-slice =
        let i = at / g.piece_len in
        slice-take here.len here.off g.piece_len (drop (i * g.piece_len) file)
          (omega (arith, span-inside, length-piece_bytes i))
        ∙ ap (take here.len)
            (drop-drop here.off (i * g.piece_len) file ∙ ap (λ k. drop k file) parts.0)
