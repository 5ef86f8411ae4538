-- ===== src/Handlers/SegGrid/Grid.antt =====
-- The lists that are built: boundaries a segment apart, from 0 to before the end.
use mathlib.Core.Path.{subst}
use torrent_go.Prelude.{
  ℕ, zero, suc, ◌+◌, ◌*◌, ◌/◌, ◌≤◌, ◌≡◌, refl, sym, Bool, true, false, if_both, Bool-cases, inl,
  inr, List, [], ◌∷◌, arith,
}
use torrent_go.Prelude.Sort.{Elem}
use torrent_go.Prelude.Int.{ℤ, pos, pos_part, ◌+ℤ◌, ◌-ℤ◌, ◌≤ℤ◌, leb_ℤ, ltb_ℤ, int_laws}
use torrent_go.Handlers.SegGrid.{
  SegList, segment_ms, cuts, last_of, compute_seg_list, steps, or_zero, uniform_seg_list,
  tolerance_ms,
}

-- Each boundary is at least `gap` after the one before it.
abbrev pub Gaps : ℕ → ℤ → List ℤ → Type 0
Gaps gap x [] = Unit {0}
Gaps gap x (y ∷ ys) = ((x +ℤ pos gap) ≤ℤ y) × Gaps gap y ys

pub record IsGrid (gap : ℕ) (s : SegList) : Type 0 where
  pub others : List ℤ
  pub from_zero : s.content_starts ≡ pos 0 ∷ others
  pub gaps : Gaps gap (pos 0) others
  pub ends : (last_of (pos 0) others +ℤ pos 1) ≤ℤ s.content_end

leb_ℤ-le : (a b : ℤ) → leb_ℤ a b ≡ true → a ≤ℤ b
leb_ℤ-le a b h = ground arith

leb_ℤ-gt : (a b : ℤ) → leb_ℤ a b ≡ false → (b +ℤ pos 1) ≤ℤ a
leb_ℤ-gt a b h = let k = gt_parts a b h in omega (int_laws, k)
  where
    gt_parts : (a b : ℤ) → leb_ℤ a b ≡ false → ¬ (a ≤ℤ b)
    gt_parts a b h = ground arith

cut_gap :
    (base seg_start kf : ℤ)
    → leb_ℤ (pos segment_ms -ℤ pos tolerance_ms) (kf -ℤ seg_start) ≡ true
    → ((seg_start -ℤ base) +ℤ pos 5999) ≤ℤ (kf -ℤ base)
cut_gap base seg_start kf h =
    let k = leb_ℤ-le (pos segment_ms -ℤ pos tolerance_ms) (kf -ℤ seg_start) h in omega (int_laws, k)

cuts-Gaps :
    (base seg_start : ℤ) (kfs : List ℤ) → Gaps 5999 (seg_start -ℤ base) (cuts base seg_start kfs)
unfolding cuts
cuts-Gaps base seg_start [] = tt
cuts-Gaps base seg_start (kf ∷ kfs) =
    elim (Bool-cases (leb_ℤ (pos segment_ms -ℤ pos tolerance_ms) (kf -ℤ seg_start))) [
      | inl h ↦ rw h (cut_gap base seg_start kf h, cuts-Gaps base kf kfs)
      | inr h ↦ rw h (cuts-Gaps base seg_start kfs)
    ]

self_sub : (a : ℤ) → a -ℤ a ≡ pos 0
self_sub a = omega int_laws

after_last : (a : ℤ) → (a +ℤ pos 1) ≤ℤ (a +ℤ pos segment_ms)
after_last a = omega int_laws

-- The boundaries of a copied file start at 0, lie at least 5.999 s apart, and end before the content
-- does, whatever the keyframes and the duration are.
pub compute_seg_list-IsGrid :
    (kf : ℤ) (kfs : List ℤ) (dur : ℤ) → IsGrid 5999 (compute_seg_list kf kfs dur)
unfolding compute_seg_list
compute_seg_list-IsGrid kf kfs dur = record {
  others = cuts kf kf kfs;
  from_zero = refl;
  gaps = subst (λ x. Gaps 5999 x (cuts kf kf kfs)) (self_sub kf) (cuts-Gaps kf kf kfs);
  ends =
      let last = last_of (pos 0) (cuts kf kf kfs) in
      if_both (λ (e : ℤ). (last +ℤ pos 1) ≤ℤ e) (leb_ℤ (dur -ℤ kf) last) (λ h. after_last last)
        (λ h. leb_ℤ-gt (dur -ℤ kf) last h);
}

-- A copied file is cut on its keyframes only.
abbrev pub OnKeyframes : ℤ → List ℤ → List ℤ → Type 0
OnKeyframes base kfs [] = Unit {0}
OnKeyframes base kfs (t ∷ ts) =
    ((kf : ℤ) × Elem kf kfs × (t ≡ kf -ℤ base)) × OnKeyframes base kfs ts

OnKeyframes-cons :
    (base kf : ℤ) (kfs ts : List ℤ) → OnKeyframes base kfs ts → OnKeyframes base (kf ∷ kfs) ts
OnKeyframes-cons base kf kfs [] h = tt
OnKeyframes-cons base kf kfs (t ∷ ts) ((k, i, e), h) =
    ((k, inr i, e), OnKeyframes-cons base kf kfs ts h)

cuts-OnKeyframes :
    (base seg_start : ℤ) (kfs : List ℤ) → OnKeyframes base kfs (cuts base seg_start kfs)
unfolding cuts
cuts-OnKeyframes base seg_start [] = tt
cuts-OnKeyframes base seg_start (kf ∷ kfs) =
    elim (Bool-cases (leb_ℤ (pos segment_ms -ℤ pos tolerance_ms) (kf -ℤ seg_start))) [
      | inl h ↦ rw h (
        (kf, inl refl, refl),
        OnKeyframes-cons base kf kfs (cuts base kf kfs) (cuts-OnKeyframes base kf kfs),
      )
      | inr h ↦ rw h (
          OnKeyframes-cons base kf kfs (cuts base seg_start kfs)
            (cuts-OnKeyframes base seg_start kfs))
    ]

-- Every boundary of a copied file is at one of its keyframes.
pub compute_seg_list-OnKeyframes :
    (kf : ℤ) (kfs : List ℤ) (dur : ℤ)
    → OnKeyframes kf (kf ∷ kfs) (compute_seg_list kf kfs dur).content_starts
unfolding compute_seg_list
compute_seg_list-OnKeyframes kf kfs dur = (
  (kf, inl refl, sym (self_sub kf)),
  OnKeyframes-cons kf kf kfs (cuts kf kf kfs) (cuts-OnKeyframes kf kf kfs),
)

-- The test of the loop of `uniformSegList`.
abbrev goes_on : ℤ → ℤ → Bool
goes_on t content_end = ltb_ℤ t (content_end -ℤ pos tolerance_ms)

goes_on-true : (t e : ℤ) → goes_on t e ≡ true → (t +ℤ pos 1) ≤ℤ e
goes_on-true t e h = let k = lt_parts t (e -ℤ pos tolerance_ms) h in omega (int_laws, k)
  where
    lt_parts : (a b : ℤ) → ltb_ℤ a b ≡ true → a ≤ℤ b
    lt_parts a b h = ground arith

goes_on-false : (t e : ℤ) → goes_on t e ≡ false → e ≤ℤ (t +ℤ pos 1)
goes_on-false t e h = let k = ge_parts t (e -ℤ pos tolerance_ms) h in omega (int_laws, k)
  where
    ge_parts : (a b : ℤ) → ltb_ℤ a b ≡ false → b ≤ℤ a
    ge_parts a b h = ground arith

abbrev next : ℤ → ℤ
next t = t +ℤ pos segment_ms

le_self : (a : ℤ) → a ≤ℤ a
le_self a = omega arith

steps-Gaps : (n : ℕ) (t e : ℤ) → Gaps segment_ms t (steps n (next t) e)
unfolding steps
steps-Gaps zero t e = tt
steps-Gaps (suc n) t e =
    if_both (Gaps segment_ms t) (goes_on (next t) e)
      (λ h. (le_self (next t), steps-Gaps n (next t) e)) (λ h. tt)

steps-ends : (n : ℕ) (t e : ℤ) → (t +ℤ pos 1) ≤ℤ e → (last_of t (steps n (next t) e) +ℤ pos 1) ≤ℤ e
unfolding steps
steps-ends zero t e h = h
steps-ends (suc n) t e h =
    if_both (λ ts. (last_of t ts +ℤ pos 1) ≤ℤ e) (goes_on (next t) e)
      (λ g. steps-ends n (next t) e (goes_on-true (next t) e g)) (λ g. h)

-- Enough rounds reach the end, up to one segment and the tolerance.
steps-reach :
    (n : ℕ) (t e : ℤ)
    → e ≤ℤ (t +ℤ pos (segment_ms * n + 6001))
    → e ≤ℤ (last_of t (steps n (next t) e) +ℤ pos 6001)
unfolding steps
steps-reach zero t e h = omega (int_laws, h)
steps-reach (suc n) t e h =
    if_both (λ ts. e ≤ℤ (last_of t ts +ℤ pos 6001)) (goes_on (next t) e)
      (λ g. steps-reach n (next t) e (omega (int_laws, h)))
      (λ g. let k = goes_on-false (next t) e g in omega (int_laws, k))

-- A grid whose segments are at most a segment long, the last one included.
pub record IsUniform (s : SegList) : Type 0 where
  pub grid : IsGrid segment_ms s
  pub reached : s.content_end ≤ℤ (last_of (pos 0) s.content_starts +ℤ pos 6001)

abbrev built : ℤ → ℤ → SegList
built content_end base = record {
  content_starts = or_zero (steps (suc (pos_part content_end / segment_ms)) (pos 0) content_end);
  content_end = content_end;
  base = base;
  transcode = true;
}

enough : (e : ℤ) → e ≤ℤ (pos 0 +ℤ pos (segment_ms * (pos_part e / segment_ms) + 6001))
enough e = omega (int_laws, quotient (pos_part e))
  where
    quotient : (n : ℕ) → n ≤ segment_ms * (n / segment_ms) + 6001
    quotient n = omega arith

built-IsUniform : (e base : ℤ) → pos 1 ≤ℤ e → IsUniform (built e base)
unfolding steps
built-IsUniform e base h =
    let n = pos_part e / segment_ms in
    if_both
      (λ ts.
        IsUniform
          (record { content_starts = or_zero ts; content_end = e; base = base; transcode = true }))
      (goes_on (pos 0) e)
      (λ g. record {
        grid = record {
          others = steps n (next (pos 0)) e;
          from_zero = refl;
          gaps = steps-Gaps n (pos 0) e;
          ends = steps-ends n (pos 0) e (goes_on-true (pos 0) e g);
        };
        reached = steps-reach n (pos 0) e (enough e);
      })
      (λ g. record {
        grid = record { others = []; from_zero = refl; gaps = tt; ends = one_le e h };
        reached = let k = goes_on-false (pos 0) e g in omega (int_laws, k);
      })
  where
    one_le : (e : ℤ) → pos 1 ≤ℤ e → (pos 0 +ℤ pos 1) ≤ℤ e
    one_le e h = omega (int_laws, h)

-- The boundaries of a transcoded file start at 0 and lie a segment apart, they end before the content
-- does, and no more than one segment before: the loop makes as many as are needed. The duration is
-- positive.
pub uniform_seg_list-IsUniform :
    (dur base : ℤ) → pos 1 ≤ℤ dur → IsUniform (uniform_seg_list dur base)
unfolding uniform_seg_list
uniform_seg_list-IsUniform dur base h =
    if_both (λ (e : ℤ). IsUniform (built e base)) (leb_ℤ (dur -ℤ base) (pos 0))
      (λ g. built-IsUniform dur base h)
      (λ g.
        built-IsUniform (dur -ℤ base) base
          (let k = leb_ℤ-gt (dur -ℤ base) (pos 0) g in omega (int_laws, k)))
