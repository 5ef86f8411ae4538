-- ===== src/Prelude/Bytes.antt =====
-- Texts as lists of code points, with the functions of Go's `strings` that the program calls.
use Prim.Native.Char.{code}
use Prim.Native.Nat.{ℕ, ◌<◌}
use Prim.Native.String.{String}
use mathlib.Core.Bool.{Bool, true, false, ◌&&◌, ◌||◌}
use mathlib.Core.List.{List, [], ◌∷◌, ◌++◌}
use mathlib.Core.Logic.{◌≢◌}
use mathlib.Core.Path.{◌≡◌, refl, ap}
use native.Mathlib.Omega.{arith}
use torrent_go.Prelude.Lists.{length, length-append}
use torrent_go.Prelude.Tests.{◌==◌, leb, if◌then◌else◌, Bool-cases}

abbrev pub Bytes : Type 0
Bytes = List ℕ

-- The code points of a literal.
abbrev pub codes : String → Bytes
codes String.[] = []
codes (String.◌∷◌ c s) = code c ∷ codes s

-- `==` on texts.
unfoldable pub same_text : Bytes → Bytes → Bool
same_text [] [] = true
same_text [] (d ∷ t) = false
same_text (c ∷ s) [] = false
same_text (c ∷ s) (d ∷ t) = (c == d) && same_text s t

-- `strings.HasPrefix`
unfoldable pub has_prefix : Bytes → Bytes → Bool
has_prefix s [] = true
has_prefix [] (p ∷ ps) = false
has_prefix (c ∷ s) (p ∷ ps) = (c == p) && has_prefix s ps

-- What is left behind a prefix that is there.
unfoldable pub behind : Bytes → Bytes → Bytes
behind s [] = s
behind [] (p ∷ ps) = []
behind (c ∷ s) (p ∷ ps) = behind s ps

-- `strings.TrimPrefix`
unfoldable pub trim_prefix : Bytes → Bytes → Bytes
trim_prefix s p = if has_prefix s p then behind s p else s

-- `strings.HasSuffix`
unfoldable pub has_suffix : Bytes → Bytes → Bool
has_suffix [] t = same_text [] t
has_suffix (c ∷ s) t = same_text (c ∷ s) t || has_suffix s t

-- `strings.TrimSuffix`
unfoldable pub trim_suffix : Bytes → Bytes → Bytes
trim_suffix [] t = []
trim_suffix (c ∷ s) t = let rest = trim_suffix s t in if same_text (c ∷ s) t then [] else c ∷ rest

abbrev pub put_first : ℕ → List Bytes → List Bytes
put_first c [] = (c ∷ []) ∷ []
put_first c (p ∷ ps) = (c ∷ p) ∷ ps

-- `strings.Split` at one character.
unfoldable pub split : ℕ → Bytes → List Bytes
split sep [] = [] ∷ []
split sep (c ∷ s) = let rest = split sep s in if c == sep then [] ∷ rest else put_first c rest

-- `unicode.IsSpace`
unfoldable pub is_space : ℕ → Bool
is_space c =
    (leb 9 c && leb c 13)
    || c == 32
    || c == 133
    || c == 160
    || c == 5760
    || (leb 8192 c && leb c 8202)
    || c == 8232
    || c == 8233
    || c == 8239
    || c == 8287
    || c == 12288

-- Characters at the left, and at the right, dropped while a test holds.
unfoldable pub trim_left : (ℕ → Bool) → Bytes → Bytes
trim_left drop? [] = []
trim_left drop? (c ∷ s) = let rest = trim_left drop? s in if drop? c then rest else c ∷ s

abbrev pub cons_kept : (ℕ → Bool) → ℕ → Bytes → Bytes
cons_kept drop? c [] = if drop? c then [] else c ∷ []
cons_kept drop? c (d ∷ s) = c ∷ d ∷ s

unfoldable pub trim_right : (ℕ → Bool) → Bytes → Bytes
trim_right drop? [] = []
trim_right drop? (c ∷ s) = cons_kept drop? c (trim_right drop? s)

-- `strings.TrimSpace`
unfoldable pub trim_space : Bytes → Bytes
unfolding trim_left trim_right is_space
trim_space s = trim_right is_space (trim_left is_space s)

-- `strings.ReplaceAll` of one character by another.
unfoldable pub replace_all : ℕ → ℕ → Bytes → Bytes
replace_all old new [] = []
replace_all old new (c ∷ s) = (if c == old then new else c) ∷ replace_all old new s

-- A text without a certain character.
abbrev pub Lacks : ℕ → Bytes → Type 0
Lacks b [] = Unit
Lacks b (c ∷ s) = (c ≢ b) × Lacks b s

pub Lacks-append : (b : ℕ) (s t : Bytes) → Lacks b s → Lacks b t → Lacks b (s ++ t)
Lacks-append b [] t hs ht = ht
Lacks-append b (c ∷ s) t hs ht = (hs.0, Lacks-append b s t hs.1 ht)

pub same_text_refl : (s : Bytes) → same_text s s ≡ true
unfolding same_text
same_text_refl [] = refl
same_text_refl (c ∷ s) = ground (arith, same_text_refl s)

pub same_text-eq : (s t : Bytes) → same_text s t ≡ true → s ≡ t
unfolding same_text
same_text-eq [] [] h = refl
same_text-eq [] (d ∷ t) h = ground arith
same_text-eq (c ∷ s) [] h = ground arith
same_text-eq (c ∷ s) (d ∷ t) h = ground (arith, same_text-eq s t)

pub same_text-ne : (s t : Bytes) → s ≢ t → same_text s t ≡ false
same_text-ne s t n = ground (arith, same_text-eq s t, Bool-cases (same_text s t))

pub has_prefix-append : (p s : Bytes) → has_prefix (p ++ s) p ≡ true
unfolding has_prefix
has_prefix-append [] s = refl
has_prefix-append (c ∷ p) s = ground (arith, has_prefix-append p s)

behind-append : (p s : Bytes) → behind (p ++ s) p ≡ s
unfolding behind
behind-append [] s = refl
behind-append (c ∷ p) s = behind-append p s

pub trim_prefix-append : (p s : Bytes) → trim_prefix (p ++ s) p ≡ s
unfolding trim_prefix
trim_prefix-append p s = rw (has_prefix-append p s) (behind-append p s)

suffix_self : (t : Bytes) → has_suffix t t ≡ true
unfolding has_suffix
suffix_self [] = same_text_refl []
suffix_self (c ∷ t) = rw (same_text_refl (c ∷ t))

pub has_suffix-append : (s t : Bytes) → has_suffix (s ++ t) t ≡ true
unfolding has_suffix
has_suffix-append [] t = suffix_self t
has_suffix-append (c ∷ s) t = ground (arith, has_suffix-append s t)

trim_suffix_self : (t : Bytes) → trim_suffix t t ≡ []
unfolding trim_suffix
trim_suffix_self [] = refl
trim_suffix_self (c ∷ t) = rw (same_text_refl (c ∷ t))

same_text_longer : (s t : Bytes) → length t < length s → same_text s t ≡ false
same_text_longer s t h = same_text-ne s t (λ e. omega (arith, ap length e))

pub trim_suffix-append : (s t : Bytes) → trim_suffix (s ++ t) t ≡ s
unfolding trim_suffix
trim_suffix-append [] t = trim_suffix_self t
trim_suffix-append (c ∷ s) t =
    rw (same_text_longer (c ∷ (s ++ t)) t (omega (arith, length-append s t)))
      (ap (◌∷◌ c) (trim_suffix-append s t))

-- A text without the separator is one part, and a part before a separator is split off.
pub split-Lacks : (sep : ℕ) (s : Bytes) → Lacks sep s → split sep s ≡ s ∷ []
unfolding split
split-Lacks sep [] h = refl
split-Lacks sep (c ∷ s) h = ground (arith, split-Lacks sep s h.1)

pub split-append :
    (sep : ℕ) (s rest : Bytes) → Lacks sep s → split sep (s ++ (sep ∷ rest)) ≡ s ∷ split sep rest
unfolding split
split-append sep [] rest h = ground arith
split-append sep (c ∷ s) rest h = ground (arith, split-append sep s rest h.1)
