-- ===== src/Handlers/Hls/Labels/Indices.antt =====
-- The indices that `parseIndexList` returns are positive and all different.
use torrent_go.Handlers.Hls.Labels.{is_seen, take_index, indices_of, parse_index_list}
use torrent_go.Prelude.{◌≡◌, false, Bool-cases, inl, inr, Option, none, some, List, [], ◌∷◌, arith}
use torrent_go.Prelude.Bytes.{Bytes, split, trim_space}
use torrent_go.Prelude.Decimal.{atoi}
use torrent_go.Prelude.Int.{ℤ, pos, negsuc, ltb_ℤ, ◌≤ℤ◌}

-- Each number is at least 1, and comes neither earlier in the list nor in `seen`.
abbrev pub AreNew : List ℤ → List ℤ → Type 0
AreNew seen [] = Unit
AreNew seen (n ∷ ns) = (pos 1 ≤ℤ n) × (is_seen n seen ≡ false) × AreNew (n ∷ seen) ns

at_least_one : (n : ℤ) → ltb_ℤ n (pos 1) ≡ false → pos 1 ≤ℤ n
at_least_one (pos n) h = ground arith
at_least_one (negsuc n) h = ground arith

taken-AreNew :
    (rest : List ℤ → List ℤ) (o : Option ℤ) (seen : List ℤ)
    → ((s : List ℤ) → AreNew s (rest s))
    → AreNew seen (take_index rest o seen)
taken-AreNew rest none seen h = h seen
taken-AreNew rest (some n) seen h = elim (Bool-cases (ltb_ℤ n (pos 1))) [
  | inl low ↦ rw low (h seen)
  | inr ok ↦ elim (Bool-cases (is_seen n seen)) [
    | inl again ↦ rw (ok, again) (h seen)
    | inr new ↦ rw (ok, new) (at_least_one n ok, new, h (n ∷ seen))
  ]
]

indices-AreNew : (parts : List Bytes) (seen : List ℤ) → AreNew seen (indices_of parts seen)
unfolding indices_of
indices-AreNew [] seen = tt
indices-AreNew (part ∷ parts) seen =
    taken-AreNew (λ s. indices_of parts s) (atoi (trim_space part)) seen (indices-AreNew parts)

-- Every index that is asked for is at least 1, and no index comes twice, whatever the text is.
pub parse_index_list-AreNew : (s : Bytes) → AreNew [] (parse_index_list s)
unfolding parse_index_list
parse_index_list-AreNew [] = tt
parse_index_list-AreNew (c ∷ s) = indices-AreNew (split b',' (c ∷ s)) []
