-- ===== src/Prelude/TextMap.antt =====
-- Go maps with text keys, as association lists. `insert` replaces, so keys stay distinct.
use Prim.Native.String.{String}
use text.Mathlib.Text.{◌==◌}
use text.Mathlib.TextEquality.{eq_iff}
use torrent_go.Prelude.Tests.{if◌then◌else◌}
use Prim.Native.Nat.{ℕ, ◌+◌}
use mathlib.Core.Path.{◌≡◌, refl}
use mathlib.Core.Bool.{false}
use mathlib.Core.List.{List, [], ◌∷◌}
use mathlib.Core.Option.{Option, none, some}
use native.Mathlib.Omega.{arith}

module _ {ℓ} {X : Type ℓ} where
  abbrev pub lookup : String → List (String × X) → Option X
  lookup key [] = none
  lookup key ((name, x) ∷ rest) = if name == key then some x else lookup key rest

  abbrev pub insert : String → X → List (String × X) → List (String × X)
  insert key x [] = (key, x) ∷ []
  insert key x ((name, y) ∷ rest) =
      if name == key then (key, x) ∷ rest else (name, y) ∷ insert key x rest

  abbrev pub erase : String → List (String × X) → List (String × X)
  erase key [] = []
  erase key ((name, y) ∷ rest) = if name == key then rest else (name, y) ∷ erase key rest

  -- The sum of a measure over the entries.
  abbrev pub total : (X → ℕ) → List (String × X) → ℕ
  total f [] = 0
  total f ((name, x) ∷ rest) = f x + total f rest

  abbrev pub weight : (X → ℕ) → Option X → ℕ
  weight f none = 0
  weight f (some x) = f x

  abbrev pub size : List (String × X) → ℕ
  size rest = total (λ x. 1) rest

  -- A key occurs nowhere in the map.
  abbrev pub Absent : String → List (String × X) → Type 0
  Absent key [] = Unit {0}
  Absent key ((name, x) ∷ rest) = ((name == key) ≡ false) × Absent key rest

  abbrev pub Distinct : List (String × X) → Type 0
  Distinct [] = Unit {0}
  Distinct ((name, x) ∷ rest) = Absent name rest × Distinct rest

  pub lookup-insert :
      (key name : String) (x : X) (rest : List (String × X))
      → lookup name (insert key x rest) ≡ (if key == name then some x else lookup name rest)
  lookup-insert key name x [] = refl
  lookup-insert key name x ((other, y) ∷ rest) =
      ground
        (arith, eq_iff key name, eq_iff other key, eq_iff other name, lookup-insert key name x rest)

  pub total-insert :
      (f : X → ℕ) (key : String) (x : X) (rest : List (String × X))
      → total f (insert key x rest) + weight f (lookup key rest) ≡ total f rest + f x
  total-insert f key x [] = omega arith
  total-insert f key x ((other, y) ∷ rest) = ground (arith, total-insert f key x rest)

  pub total-erase :
      (f : X → ℕ) (key : String) (rest : List (String × X))
      → total f (erase key rest) + weight f (lookup key rest) ≡ total f rest
  total-erase f key [] = omega arith
  total-erase f key ((other, y) ∷ rest) = ground (arith, total-erase f key rest)

  pub lookup-Absent :
      (key : String) (rest : List (String × X)) → Absent key rest → lookup key rest ≡ none
  lookup-Absent key [] h = refl
  lookup-Absent key ((other, y) ∷ rest) h = ground (arith, lookup-Absent key rest h.1)

  pub Absent-lookup :
      (key : String) (rest : List (String × X)) → lookup key rest ≡ none → Absent key rest
  Absent-lookup key [] h = tt
  Absent-lookup key ((other, y) ∷ rest) h = ground (arith, Absent-lookup key rest)

  pub lookup-erase :
      (key name : String) (rest : List (String × X))
      → Distinct rest
      → lookup name (erase key rest) ≡ (if key == name then none else lookup name rest)
  lookup-erase key name [] d = ground arith
  lookup-erase key name ((other, y) ∷ rest) d = ground (
    arith,
    eq_iff key name,
    eq_iff other key,
    eq_iff other name,
    lookup-erase key name rest d.1,
    lookup-Absent other rest d.0,
  )

  pub erase-Absent :
      (key name : String) (rest : List (String × X))
      → Absent name rest
      → Absent name (erase key rest)
  erase-Absent key name [] h = h
  erase-Absent key name ((other, y) ∷ rest) h = ground (arith, erase-Absent key name rest h.1)

  pub erase-Distinct :
      (key : String) (rest : List (String × X)) → Distinct rest → Distinct (erase key rest)
  erase-Distinct key [] h = h
  erase-Distinct key ((other, y) ∷ rest) h =
      ground (arith, erase-Distinct key rest h.1, erase-Absent key other rest h.0)

  pub erase-Absent_self :
      (key : String) (rest : List (String × X)) → Distinct rest → Absent key (erase key rest)
  erase-Absent_self key [] h = tt
  erase-Absent_self key ((other, y) ∷ rest) h =
      ground (arith, eq_iff other key, erase-Absent_self key rest h.1, h.0)

  pub insert-Absent :
      (key name : String) (x : X) (rest : List (String × X))
      → (key == name) ≡ false
      → Absent name rest
      → Absent name (insert key x rest)
  insert-Absent key name x [] n h = (n, tt)
  insert-Absent key name x ((other, y) ∷ rest) n h =
      ground (arith, insert-Absent key name x rest n h.1)

  pub insert-Distinct :
      (key : String) (x : X) (rest : List (String × X))
      → Distinct rest
      → Distinct (insert key x rest)
  insert-Distinct key x [] h = (tt, tt)
  insert-Distinct key x ((other, y) ∷ rest) h = ground (
    arith,
    eq_iff other key,
    eq_iff key other,
    insert-Distinct key x rest h.1,
    insert-Absent key other x rest,
    h.0,
  )

  pub erase_none :
      (key : String) (rest : List (String × X)) → lookup key rest ≡ none → erase key rest ≡ rest
  erase_none key [] h = refl
  erase_none key ((other, y) ∷ rest) h = ground (arith, erase_none key rest)
