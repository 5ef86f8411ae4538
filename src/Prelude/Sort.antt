-- ===== src/Prelude/Sort.antt =====
-- `sort.Slice` by a number: an insertion sort, which keeps the order of equal keys.
use torrent_go.Prelude.Tests.{leb, if◌then◌else◌}
use Prim.Native.Nat.{ℕ}
use mathlib.Core.Path.{◌≡◌}
use mathlib.Core.Logic.{◌⊎◌, inl, inr}
use mathlib.Core.List.{List, [], ◌∷◌}
use native.Mathlib.Omega.{arith}

module _ {A : Type 0} (key : A → ℕ) where
  unfoldable pub insert_by : A → List A → List A
  insert_by x [] = x ∷ []
  insert_by x (y ∷ ys) = if leb (key x) (key y) then x ∷ y ∷ ys else y ∷ insert_by x ys

  unfoldable pub sort_by : List A → List A
  sort_by [] = []
  sort_by (x ∷ xs) = insert_by x (sort_by xs)

abbrev pub Elem : {A : Type 0} → A → List A → Type 0
Elem x [] = ⊥
Elem x (y ∷ ys) = (x ≡ y) ⊎ Elem x ys

module _ {A : Type 0} (key : A → ℕ) where
  Elem-insert_by : (x y : A) (ys : List A) → Elem x (y ∷ ys) → Elem x (insert_by key y ys)
  unfolding insert_by
  Elem-insert_by x y [] i = i
  Elem-insert_by x y (z ∷ ys) i = ground (arith, Elem-insert_by x y ys)

  pub Elem-sort_by : (x : A) (ys : List A) → Elem x ys → Elem x (sort_by key ys)
  unfolding sort_by
  Elem-sort_by x [] i = i
  Elem-sort_by x (y ∷ ys) (inl e) = Elem-insert_by x y (sort_by key ys) (inl e)
  Elem-sort_by x (y ∷ ys) (inr i) = Elem-insert_by x y (sort_by key ys) (inr (Elem-sort_by x ys i))
