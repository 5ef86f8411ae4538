-- ===== src/Handlers/Hls/Names/Free.antt =====
-- `uniqueTrackName` always finds a name, and one that no track has yet.
use torrent_go.Handlers.Hls.Names.{is_used, numbered, first_free, unique_track_name}
use torrent_go.Prelude.{
  ℕ, zero, suc, ◌≤◌, ◌<◌, ◌≡◌, ◌≢◌, refl, sym, ap, ◌∙◌, true, false, if◌then◌else◌, Bool-cases,
  Option-cases, inl, inr, none, some, List, [], ◌∷◌, ◌++◌, length, arith,
}
use torrent_go.Prelude.Bytes.{
  Bytes, codes, same_text, same_text-eq, same_text-ne, trim_prefix, trim_suffix, trim_prefix-append,
  trim_suffix-append,
}
use torrent_go.Prelude.Decimal.{itoa_ℕ, itoa_ℕ-injective}

-- The number is read back from a numbered name.
numbered_part : Bytes → Bytes → Bytes
numbered_part name s = trim_suffix (trim_prefix (trim_prefix s name) (codes " (")) (codes ")")

part-numbered : (name : Bytes) (i : ℕ) → numbered_part name (numbered name i) ≡ itoa_ℕ i
unfolding numbered_part numbered
part-numbered name i = rw (trim_prefix-append name (codes " (" ++ (itoa_ℕ i ++ codes ")"))) (
    rw (trim_prefix-append (codes " (") (itoa_ℕ i ++ codes ")"))
      (trim_suffix-append (itoa_ℕ i) (codes ")")))

numbered-ne : (name : Bytes) (i j : ℕ) → i < j → numbered name i ≢ numbered name j
numbered-ne name i j h e =
    let same : itoa_ℕ i ≡ itoa_ℕ j =
      sym (part-numbered name i) ∙ (ap (numbered_part name) e ∙ part-numbered name j) in
    omega (arith, itoa_ℕ-injective i j same)

-- The names in use but one.
others : Bytes → List Bytes → List Bytes
others x [] = []
others x (y ∷ used) = let rest = others x used in if same_text x y then rest else y ∷ rest

length-others-le : (x : Bytes) (used : List Bytes) → length (others x used) ≤ length used
unfolding others
length-others-le x [] = omega arith
length-others-le x (y ∷ used) = ground (arith, length-others-le x used)

length-others :
    (x : Bytes) (used : List Bytes) → is_used x used ≡ true → length (others x used) < length used
unfolding others is_used
length-others x [] h = cc
length-others x (y ∷ used) h = ground (arith, length-others x used, length-others-le x used)

used-others : (x y : Bytes) (used : List Bytes) → x ≢ y → is_used y (others x used) ≡ is_used y used
unfolding others is_used
used-others x y [] n = refl
used-others x y (z ∷ used) n = ground (
  arith,
  used-others x y used n,
  same_text-eq x z,
  same_text-ne y z,
  same_text-eq y z,
  Bool-cases (same_text y z),
)

-- Without one name in use, the loop behind that name goes the same way.
free-others :
    (rounds : ℕ) (name : Bytes) (i j : ℕ) (used : List Bytes)
    → i < j
    → first_free rounds name j (others (numbered name i) used) ≡ first_free rounds name j used
unfolding first_free
free-others zero name i j used h = refl
free-others (suc rounds) name i j used h =
    rw (used-others (numbered name i) (numbered name j) used (numbered-ne name i j h))
      (rw (free-others rounds name i (suc j) used (omega arith)))

-- The loop runs out only if each number it tries is in use.
free_none :
    (rounds : ℕ) (name : Bytes) (i : ℕ) (used : List Bytes)
    → first_free rounds name i used ≡ none
    → rounds ≤ length used
unfolding first_free
free_none zero name i used h = omega arith
free_none (suc rounds) name i used h = elim (Bool-cases (is_used (numbered name i) used)) [
  | inl taken ↦
      let fails : first_free rounds name (suc i) used ≡ none = rw taken at h in
      omega (
        arith,
        length-others (numbered name i) used taken,
        free_none rounds name (suc i) (others (numbered name i) used)
            (free-others rounds name i (suc i) used (omega arith) ∙ fails),
      )
  | inr free ↦ absurd (ground arith)
]

free_unused :
    (rounds : ℕ) (name : Bytes) (i : ℕ) (used : List Bytes) (c : Bytes)
    → first_free rounds name i used ≡ some c
    → is_used c used ≡ false
unfolding first_free
free_unused zero name i used c h = cc
free_unused (suc rounds) name i used c h = ground (arith, free_unused rounds name (suc i) used c)

-- Whatever names are in use, the loop ends with a name, and that name is not in use.
pub unique_name_free :
    (name : Bytes) (used : List Bytes)
    → (c : Bytes) × (unique_track_name name used ≡ some c) × (is_used c used ≡ false)
unfolding unique_track_name
unique_name_free name used = elim (Bool-cases (is_used name used)) [
  | inl taken ↦ elim (Option-cases (first_free (suc (length used)) name 2 used)) [
    | inl ends ↦ absurd (omega (arith, free_none (suc (length used)) name 2 used ends))
    | inr (c, e) ↦ (c, rw taken e, free_unused (suc (length used)) name 2 used c e)
  ]
  | inr free ↦ (name, rw free, free)
]
