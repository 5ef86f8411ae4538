-- ===== src/Prelude/Decimal.antt =====
-- `strconv.Itoa`, which `%d` prints like, and `strconv.Atoi`, on texts as lists of code points.
use Prim.Native.Nat.{ℕ, zero, suc, ◌+◌, ◌-◌, ◌*◌, ◌/◌, ◌%◌, ◌^◌, ◌≤◌, ◌<◌}
use mathlib.Core.Bool.{◌&&◌}
use mathlib.Core.List.{[], ◌∷◌}
use mathlib.Core.Logic.{◌⊎◌, inr, inl}
use mathlib.Core.Option.{Option, none, some}
use mathlib.Core.Path.{◌≡◌, refl, sym, ap, ◌∙◌}
use native.Mathlib.Omega.{arith}
use torrent_go.Prelude.Bytes.{Bytes, codes, Lacks}
use torrent_go.Prelude.Int.{ℤ, pos, negsuc}
use torrent_go.Prelude.Tests.{◌==◌, leb, ltb, if◌then◌else◌, Bool-cases}

-- One digit in front of `out` in each round; the rounds left are the first argument.
unfoldable pub digits : ℕ → ℕ → Bytes → Bytes
digits zero n out = out
digits (suc rounds) n out =
    let more = digits rounds (n / 10) ((b'0' + n % 10) ∷ out) in
    if ltb n 10 then (b'0' + n) ∷ out else more

-- A number has at most as many digits as its successor counts.
unfoldable pub itoa_ℕ : ℕ → Bytes
unfolding digits
itoa_ℕ n = digits (suc n) n []

unfoldable pub itoa : ℤ → Bytes
unfolding itoa_ℕ
itoa (pos n) = itoa_ℕ n
itoa (negsuc n) = b'-' ∷ itoa_ℕ (suc n)

abbrev pub max_int64 : ℕ
max_int64 = 2 ^ 63 - 1

-- The number that digits spell behind `n`.
unfoldable pub scan : ℕ → Bytes → Option ℕ
scan n [] = some n
scan n (c ∷ s) =
    let rest = scan (n * 10 + (c - b'0')) s in if leb b'0' c && leb c b'9' then rest else none

-- At least one digit.
unfoldable pub scan_some : Bytes → Option ℕ
unfolding scan
scan_some [] = none
scan_some (c ∷ s) = scan 0 (c ∷ s)

-- `none` is an error: no number, or one that an int64 cannot hold.
abbrev pub positive : Option ℕ → Option ℤ
positive none = none
positive (some n) = if leb n max_int64 then some (pos n) else none

abbrev pub negative : Option ℕ → Option ℤ
negative none = none
negative (some zero) = some (pos zero)
negative (some (suc n)) = if leb n max_int64 then some (negsuc n) else none

unfoldable pub atoi : Bytes → Option ℤ
unfolding scan_some
atoi [] = none
atoi (c ∷ s) =
    if c == b'-'
    then negative (scan_some s)
    else if c == b'+'
    then positive (scan_some s)
    else positive (scan_some (c ∷ s))

scan-digits : (rounds n : ℕ) (out : Bytes) → n < rounds → scan 0 (digits rounds n out) ≡ scan n out
unfolding scan digits
scan-digits zero n out h = elim h [ ]
scan-digits (suc rounds) n out h =
    ground (arith, scan-digits rounds (n / 10) ((b'0' + n % 10) ∷ out))

digits-Lacks :
    (b rounds n : ℕ) (out : Bytes)
    → (b < b'0') ⊎ (b'9' < b)
    → Lacks b out
    → Lacks b (digits rounds n out)
unfolding digits
digits-Lacks b zero n out h l = l
digits-Lacks b (suc rounds) n out h l =
    ground (arith, digits-Lacks b rounds (n / 10) ((b'0' + n % 10) ∷ out) h)

pub itoa_ℕ-Lacks : (b n : ℕ) → (b < b'0') ⊎ (b'9' < b) → Lacks b (itoa_ℕ n)
unfolding itoa_ℕ
itoa_ℕ-Lacks b n h = digits-Lacks b (suc n) n [] h tt

abbrev IsNumber : Bytes → Type 0
IsNumber s = (c : ℕ) × (t : Bytes) × (s ≡ c ∷ t) × (b'0' ≤ c) × (c ≤ b'9')

digits-IsNumber : (rounds n : ℕ) (out : Bytes) → n < rounds → IsNumber (digits rounds n out)
unfolding digits
digits-IsNumber zero n out h = elim h [ ]
digits-IsNumber (suc rounds) n out h = elim (Bool-cases (ltb n 10)) [
  | inl one ↦ (b'0' + n, out, rw one, omega arith, ground arith)
  | inr more ↦ rw more (digits-IsNumber rounds (n / 10) ((b'0' + n % 10) ∷ out) (ground arith))
]

atoi-number : (s : Bytes) → IsNumber s → atoi s ≡ positive (scan 0 s)
unfolding atoi scan_some
atoi-number s (c, t, e, lo, hi) = rw e (ground arith)

-- Every number that is printed is read back.
pub atoi-itoa : (n : ℕ) → n ≤ max_int64 → atoi (itoa_ℕ n) ≡ some (pos n)
unfolding itoa_ℕ scan
atoi-itoa n h =
    rw (atoi-number _ (digits-IsNumber (suc n) n [] (omega arith)))
      (rw (scan-digits (suc n) n [] (omega arith)) (ground arith))

atoi_cases :
    (atoi (codes "-12") ≡ some (negsuc 11))
    × (atoi (codes "+7") ≡ some (pos 7))
    × (atoi (codes "") ≡ none)
    × (atoi (codes "1x") ≡ none)
    × (atoi (codes "9223372036854775808") ≡ none)
unfolding atoi
atoi_cases = (refl, refl, refl, refl, refl)

itoa_cases : (itoa (pos 0) ≡ codes "0") × (itoa (negsuc 119) ≡ codes "-120")
unfolding itoa
itoa_cases = (refl, refl)

scan-itoa_ℕ : (n : ℕ) → scan 0 (itoa_ℕ n) ≡ some n
unfolding itoa_ℕ scan
scan-itoa_ℕ n = scan-digits (suc n) n [] (omega arith)

number_or_zero : Option ℕ → ℕ
number_or_zero none = 0
number_or_zero (some n) = n

pub itoa_ℕ-injective : (m n : ℕ) → itoa_ℕ m ≡ itoa_ℕ n → m ≡ n
unfolding number_or_zero
itoa_ℕ-injective m n e =
    let same : some m ≡ some n = sym (scan-itoa_ℕ m) ∙ (ap (scan 0) e ∙ scan-itoa_ℕ n) in
    ap number_or_zero same
