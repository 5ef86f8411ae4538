-- ===== src/Prelude/Assoc.antt =====
-- Go maps with integer keys, as association lists. `insert` replaces, so keys stay distinct.
use torrent_go.Prelude.Tests.{◌==◌, if◌then◌else◌}
use Prim.Native.Nat.{ℕ, ◌+◌}
use mathlib.Core.Path.{◌≡◌, refl, sym, ap, subst}
use native.Mathlib.Decide.{ℕ_discrete}
use mathlib.Core.Logic.{◌≢◌, ◌⊎◌, inl, inr}
use mathlib.Core.List.{List, [], ◌∷◌}
use mathlib.Core.Option.{Option, none, some}
use native.Mathlib.Omega.{arith}

module _ {ℓ} {V : Type ℓ} where
  abbrev pub lookup : ℕ → List (ℕ × V) → Option V
  lookup k [] = none
  lookup k ((j, v) ∷ m) = if j == k then some v else lookup k m

  abbrev pub insert : ℕ → V → List (ℕ × V) → List (ℕ × V)
  insert k v [] = (k, v) ∷ []
  insert k v ((j, w) ∷ m) = if j == k then (k, v) ∷ m else (j, w) ∷ insert k v m

  abbrev pub erase : ℕ → List (ℕ × V) → List (ℕ × V)
  erase k [] = []
  erase k ((j, w) ∷ m) = if j == k then m else (j, w) ∷ erase k m

  -- The sum of a measure over the values.
  abbrev pub total : (V → ℕ) → List (ℕ × V) → ℕ
  total f [] = 0
  total f ((j, v) ∷ m) = f v + total f m

  abbrev pub weight : (V → ℕ) → Option V → ℕ
  weight f none = 0
  weight f (some v) = f v

  -- A key occurs nowhere in the map.
  abbrev pub Absent : ℕ → List (ℕ × V) → Type 0
  Absent k [] = Unit {0}
  Absent k ((j, v) ∷ m) = (j ≢ k) × Absent k m

  abbrev pub Distinct : List (ℕ × V) → Type 0
  Distinct [] = Unit {0}
  Distinct ((j, v) ∷ m) = Absent j m × Distinct m

  pub lookup-insert :
      (k j : ℕ) (v : V) (m : List (ℕ × V))
      → lookup j (insert k v m) ≡ (if k == j then some v else lookup j m)
  lookup-insert k j v [] = refl
  lookup-insert k j v ((i, w) ∷ m) = ground (arith, lookup-insert k j v m)

  pub total-insert :
      (f : V → ℕ) (k : ℕ) (v : V) (m : List (ℕ × V))
      → total f (insert k v m) + weight f (lookup k m) ≡ total f m + f v
  total-insert f k v [] = omega arith
  total-insert f k v ((i, w) ∷ m) = ground (arith, total-insert f k v m)

  pub total-erase :
      (f : V → ℕ) (k : ℕ) (m : List (ℕ × V))
      → total f (erase k m) + weight f (lookup k m) ≡ total f m
  total-erase f k [] = omega arith
  total-erase f k ((i, w) ∷ m) = ground (arith, total-erase f k m)

  pub lookup-Absent : (k : ℕ) (m : List (ℕ × V)) → Absent k m → lookup k m ≡ none
  lookup-Absent k [] h = refl
  lookup-Absent k ((i, w) ∷ m) h = ground (arith, lookup-Absent k m h.1)

  pub lookup-erase :
      (k j : ℕ) (m : List (ℕ × V))
      → Distinct m
      → lookup j (erase k m) ≡ (if k == j then none else lookup j m)
  lookup-erase k j [] d = ground arith
  lookup-erase k j ((i, w) ∷ m) d = ground (arith, lookup-erase k j m d.1, lookup-Absent i m d.0)

  pub erase-Absent : (k j : ℕ) (m : List (ℕ × V)) → Absent j m → Absent j (erase k m)
  erase-Absent k j [] h = h
  erase-Absent k j ((i, w) ∷ m) h = ground (arith, erase-Absent k j m h.1)

  pub erase-Distinct : (k : ℕ) (m : List (ℕ × V)) → Distinct m → Distinct (erase k m)
  erase-Distinct k [] h = h
  erase-Distinct k ((i, w) ∷ m) h = ground (arith, erase-Distinct k m h.1, erase-Absent k i m h.0)

  pub insert-Absent :
      (k j : ℕ) (v : V) (m : List (ℕ × V)) → k ≢ j → Absent j m → Absent j (insert k v m)
  insert-Absent k j v [] n h = ground arith
  insert-Absent k j v ((i, w) ∷ m) n h = ground (arith, insert-Absent k j v m n h.1)

  pub insert-Distinct : (k : ℕ) (v : V) (m : List (ℕ × V)) → Distinct m → Distinct (insert k v m)
  insert-Distinct k v [] h = ground arith
  insert-Distinct k v ((i, w) ∷ m) h =
      ground (arith, insert-Distinct k v m h.1, λ (n : k ≢ i). insert-Absent k i v m n h.0)

module _ {V : Type 0} where
  -- An entry of the map.
  abbrev pub In : ℕ × V → List (ℕ × V) → Type 0
  In e [] = ⊥
  In e (f ∷ m) = (e ≡ f) ⊎ In e m

  pub lookup→In : (k : ℕ) (v : V) (m : List (ℕ × V)) → lookup k m ≡ some v → In (k, v) m
  lookup→In k v [] h = absurd (cc)
  lookup→In k v ((j, w) ∷ m) h = elim (ℕ_discrete j k) [
    | yes e ↦ inl (ground arith)
    | no n ↦ inr (lookup→In k v m (ground arith))
  ]

  pub Absent-In : (k : ℕ) (v : V) (m : List (ℕ × V)) → Absent k m → ¬ In (k, v) m
  Absent-In k v [] h i = i
  Absent-In k v ((j, w) ∷ m) h (inl e) = h.0 (ap (λ p. p.0) (sym e))
  Absent-In k v ((j, w) ∷ m) h (inr i) = Absent-In k v m h.1 i

  pub In→lookup :
      (k : ℕ) (v : V) (m : List (ℕ × V)) → Distinct m → In (k, v) m → lookup k m ≡ some v
  In→lookup k v [] d i = absurd i
  In→lookup k v ((j, w) ∷ m) d (inl e) = ground arith
  In→lookup k v ((j, w) ∷ m) d (inr i) = elim (ℕ_discrete j k) [
    | yes e ↦ absurd (Absent-In k v m (subst (λ x. Absent x m) e d.0) i)
    | no n ↦ ground (arith, In→lookup k v m d.1 i)
  ]

  pub Absent-of_not-In : (k : ℕ) (m : List (ℕ × V)) → ((v : V) → ¬ In (k, v) m) → Absent k m
  Absent-of_not-In k [] h = tt
  Absent-of_not-In k ((j, w) ∷ m) h =
      (λ e. h w (inl (ap (λ i. (i, w)) (sym e))), Absent-of_not-In k m (λ v i. h v (inr i)))

  -- What holds of every value holds after an insertion of such a value, and after an erasure.
  pub insert-all :
      (P : V → Type 0) (k : ℕ) (v : V) (m : List (ℕ × V))
      → P v
      → ((j : ℕ) (w : V) → lookup j m ≡ some w → P w)
      → (j : ℕ) (w : V) → lookup j (insert k v m) ≡ some w
      → P w
  insert-all P k v m p all j w h = elim (ℕ_discrete k j) [
    | yes e ↦ let q : v ≡ w = ground (arith, lookup-insert k j v m) in subst P q p
    | no n ↦ all j w (ground (arith, lookup-insert k j v m))
  ]

  pub erase-all :
      (P : V → Type 0) (k : ℕ) (m : List (ℕ × V))
      → Distinct m
      → ((j : ℕ) (w : V) → lookup j m ≡ some w → P w)
      → (j : ℕ) (w : V) → lookup j (erase k m) ≡ some w
      → P w
  erase-all P k m d all j w h = all j w (ground (arith, lookup-erase k j m d))
