-- ===== src/Handlers/SegGrid/Abut.antt =====
-- Segments abut: each ends where the next one starts.
use mathlib.Core.Path.{subst}
use torrent_go.Prelude.{
  ℕ, zero, suc, ◌-◌, ◌≤◌, ◌<◌, leb, ◌≡◌, refl, sym, ap, ◌∙◌, if◌then◌else◌, none, some, List, [],
  ◌∷◌, length, get_elem?, get_or, arith,
}
use torrent_go.Prelude.Int.{ℤ, pos, ◌+ℤ◌, ◌-ℤ◌, ◌≤ℤ◌, int_laws}
use torrent_go.Handlers.SegGrid.{
  SegList, count, extinf, extinf_at, not_negative, src_start, last_of,
}
use torrent_go.Handlers.SegGrid.Grid.{Gaps, IsGrid}

get_or-some : (xs : List ℤ) (i : ℕ) {a : ℤ} → get_elem? xs i ≡ some a → get_or xs i (pos 0) ≡ a
get_or-some [] i e = cc
get_or-some (x ∷ xs) zero e = cc
get_or-some (x ∷ xs) (suc i) e = get_or-some xs i e

get_elem?-inside : (xs : List ℤ) (i : ℕ) → i < length xs → (a : ℤ) × (get_elem? xs i ≡ some a)
get_elem?-inside [] i h = absurd (omega arith)
get_elem?-inside (x ∷ xs) zero h = (x, refl)
get_elem?-inside (x ∷ xs) (suc i) h = get_elem?-inside xs i (omega arith)

get_elem?-past : (xs : List ℤ) (i : ℕ) → length xs ≤ i → get_elem? xs i ≡ none
get_elem?-past [] i h = refl
get_elem?-past (x ∷ xs) zero h = absurd (omega arith)
get_elem?-past (x ∷ xs) (suc i) h = get_elem?-past xs i (omega arith)

Gaps-step :
    (gap : ℕ) (x : ℤ) (xs : List ℤ) (i : ℕ) {a b : ℤ}
    → Gaps gap x xs
    → get_elem? (x ∷ xs) i ≡ some a
    → get_elem? (x ∷ xs) (suc i) ≡ some b
    → (a +ℤ pos gap) ≤ℤ b
Gaps-step gap x [] zero g e f = cc
Gaps-step gap x [] (suc i) g e f = cc
Gaps-step gap x (y ∷ ys) zero {a} {b} g e f =
    let p : x ≡ a = cc in
    let q : y ≡ b = cc in
    subst (λ z. (z +ℤ pos gap) ≤ℤ b) p (subst (λ z. (x +ℤ pos gap) ≤ℤ z) q g.0)
Gaps-step gap x (y ∷ ys) (suc i) g e f = Gaps-step gap y ys i g.1 e f

last_of-get : (x : ℤ) (xs : List ℤ) → get_elem? (x ∷ xs) (length xs) ≡ some (last_of x xs)
last_of-get x [] = refl
last_of-get x (y ∷ ys) = last_of-get y ys

not_negative_same : (d : ℤ) → pos 0 ≤ℤ d → not_negative d ≡ d
not_negative_same d h = ground arith

zero_add : (b : ℤ) → b ≡ pos 0 +ℤ b
zero_add b = omega int_laws

get_elem?-inside_of : (xs : List ℤ) (i : ℕ) {a : ℤ} → get_elem? xs i ≡ some a → i < length xs
get_elem?-inside_of [] i e = cc
get_elem?-inside_of (x ∷ xs) zero e = omega arith
get_elem?-inside_of (x ∷ xs) (suc i) e = let k = get_elem?-inside_of xs i e in omega arith

last_index : (n i : ℕ) → suc i < n → (if leb n (suc i) then n - 1 else suc i) ≡ suc i
last_index n i h = ground arith

src_start-at :
    (gap : ℕ) (s : SegList) (i : ℕ) {a : ℤ}
    → IsGrid gap s
    → get_elem? s.content_starts i ≡ some a
    → src_start s (pos i) ≡ a +ℤ s.base
unfolding src_start
src_start-at gap s zero {a} g e =
    let p : get_elem? (pos 0 ∷ g.others) 0 ≡ some a =
      ap (λ xs. get_elem? xs 0) (sym g.from_zero) ∙ e in
    let z : pos 0 ≡ a = cc in zero_add s.base ∙ ap (λ b. b +ℤ s.base) z
src_start-at gap s (suc i) g e =
    ap (λ b. b +ℤ s.base)
      (ap (λ k. get_or s.content_starts k (pos 0))
          (last_index (count s) i (get_elem?-inside_of s.content_starts (suc i) e))
        ∙ get_or-some s.content_starts (suc i) e)

difference : (gap : ℕ) (a b : ℤ) → (a +ℤ pos gap) ≤ℤ b → not_negative (b -ℤ a) ≡ b -ℤ a
difference gap a b h = not_negative_same (b -ℤ a) (omega (int_laws, h))

add_back : (a b c : ℤ) → (a +ℤ c) +ℤ (b -ℤ a) ≡ b +ℤ c
add_back a b c = omega int_laws

at_least : (gap : ℕ) (a b : ℤ) → (a +ℤ pos gap) ≤ℤ b → pos gap ≤ℤ (b -ℤ a)
at_least gap a b h = omega (int_laws, h)

meet : (x a b c d : ℤ) → x ≡ a +ℤ c → d ≡ b -ℤ a → x +ℤ d ≡ b +ℤ c
meet x a b c d p q = ap (λ z. z +ℤ d) p ∙ ap (λ z. (a +ℤ c) +ℤ z) q ∙ add_back a b c

grid_step :
    (gap : ℕ) (s : SegList) (i : ℕ) {a b : ℤ}
    → IsGrid gap s
    → get_elem? s.content_starts i ≡ some a
    → get_elem? s.content_starts (suc i) ≡ some b
    → (a +ℤ pos gap) ≤ℤ b
grid_step gap s i g e f =
    Gaps-step gap (pos 0) g.others i g.gaps (ap (λ xs. get_elem? xs i) (sym g.from_zero) ∙ e)
      (ap (λ xs. get_elem? xs (suc i)) (sym g.from_zero) ∙ f)

-- Two segments that follow each other abut: the first ends where the second starts, to the millisecond,
-- and is at least the gap of the grid long.
pub segments_abut :
    (gap : ℕ) (s : SegList) (i : ℕ)
    → IsGrid gap s
    → suc i < count s
    → (src_start s (pos i) +ℤ extinf s (pos i) ≡ src_start s (pos (suc i)))
      × (pos gap ≤ℤ extinf s (pos i))
unfolding extinf
segments_abut gap s i g h =
    let (a, e) = get_elem?-inside s.content_starts i (omega arith) in
    let (b, f) = get_elem?-inside s.content_starts (suc i) h in
    let far = grid_step gap s i g e f in
    let long : extinf_at (get_elem? s.content_starts i) s i ≡ b -ℤ a =
      rw (e, f) (difference gap a b far) in
    (
      meet (src_start s (pos i)) a b s.base _ (src_start-at gap s i g e) long
          ∙ sym (src_start-at gap s (suc i) g f),
      subst (λ z. pos gap ≤ℤ z) (sym long) (at_least gap a b far),
    )

-- The last segment ends with the content.
pub last_segment_ends :
    (gap : ℕ) (s : SegList)
    → IsGrid gap s
    → src_start s (pos (count s - 1)) +ℤ extinf s (pos (count s - 1)) ≡ s.content_end +ℤ s.base
unfolding extinf
last_segment_ends gap s g =
    let n : count s ≡ suc (length g.others) = ap length g.from_zero in
    let last = last_of (pos 0) g.others in
    let e : get_elem? s.content_starts (count s - 1) ≡ some last =
      ap (λ xs. get_elem? xs (length xs - 1)) g.from_zero
      ∙ (let m : suc (length g.others) - 1 ≡ length g.others = omega arith in
          rw m (last_of-get (pos 0) g.others)) in
    let f = get_elem?-past s.content_starts (suc (count s - 1)) (omega (arith, n)) in
    let long : extinf_at (get_elem? s.content_starts (count s - 1)) s (count s - 1)
        ≡ s.content_end -ℤ last =
      rw (e, f) (difference 1 last s.content_end g.ends) in
    meet _ last s.content_end s.base _ (src_start-at gap s (count s - 1) g e) long
