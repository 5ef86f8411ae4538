-- ===== src/Storage/Disk/Bitmap.antt =====
-- The bitmap file: what `saveBitmapLocked` packs, `loadBitmap` unpacks.
use Prim.Native.Nat.{bit_and, bit_or}
use torrent_go.Prelude.{
  ℕ, zero, suc, ◌+◌, ◌-◌, ◌/◌, ◌%◌, ◌^◌, ◌≤◌, ◌<◌, ◌≡◌, refl, sym, ap, ◌∙◌, inl, inr, Bool, true,
  false, not, ◌&&◌, ◌||◌, ltb, leb, ◌==◌, Bool-cases, if◌then◌else◌, List, [], ◌∷◌, length, get_or,
  set, arith, dec_lt, ℕ_discrete, replicate, length-set, length-replicate,
}
use torrent_go.Storage.Disk.{set_bit, test_bit, pack_from, unpack_from}

-- A test of every number below a bound.
every : ℕ → (ℕ → Bool) → Bool
every zero p = true
every (suc n) p = p n && every n p

every_at : (n : ℕ) (p : ℕ → Bool) (x : ℕ) → every n p ≡ true → x < n → p x ≡ true
unfolding every
every_at zero p x h lt = absurd (omega arith)
every_at (suc n) p x h lt = ground (arith, every_at n p x)

abbrev bit : ℕ → ℕ → Bool
bit b s = not (bit_and b (2 ^ s) == 0)

abbrev iff : Bool → Bool → Bool
iff true b = b
iff false b = not b

abbrev bit_fact : ℕ → ℕ → ℕ → Bool
bit_fact b r s = ltb (bit_or b (2 ^ r)) 256 && iff (bit (bit_or b (2 ^ r)) s) (s == r || bit b s)

bit_table : every 256 (λ b. every 8 (λ r. every 8 (λ s. bit_fact b r s))) ≡ true
unfolding every
bit_table = refl

bit_facts : (b r s : ℕ) → b < 256 → r < 8 → s < 8 → bit_fact b r s ≡ true
bit_facts b r s hb hr hs =
    every_at 8 (λ s. bit_fact b r s) s
      (every_at 8 (λ r. every 8 (λ s. bit_fact b r s)) r
        (every_at 256 (λ b. every 8 (λ r. every 8 (λ s. bit_fact b r s))) b bit_table hb) hr)
      hs

bit-or_lt : (b r : ℕ) → b < 256 → r < 8 → bit_or b (2 ^ r) < 256
bit-or_lt b r hb hr = ground (arith, bit_facts b r 0 hb hr (omega arith))

iff_eq : (a b : Bool) → iff a b ≡ true → a ≡ b
iff_eq a b h = ground arith

bit-or_bit : (b r s : ℕ) → b < 256 → r < 8 → s < 8 → bit (bit_or b (2 ^ r)) s ≡ (s == r || bit b s)
bit-or_bit b r s hb hr hs = iff_eq _ _ (ground (arith, bit_facts b r s hb hr hs))

get_or-set :
    {A : Type 0} (xs : List A) (i j : ℕ) (v d : A)
    → i < length xs
    → get_or (set xs i v) j d ≡ (if j == i then v else get_or xs j d)
get_or-set [] i j v d h = absurd (omega arith)
get_or-set (x ∷ xs) zero zero v d h = refl
get_or-set (x ∷ xs) zero (suc j) v d h = ground arith
get_or-set (x ∷ xs) (suc i) zero v d h = ground arith
get_or-set (x ∷ xs) (suc i) (suc j) v d h = get_or-set xs i j v d (omega arith) ∙ ground arith

get_or-set_at :
    {A : Type 0} (xs : List A) (i j : ℕ) (v d : A)
    → j < length xs
    → get_or (set xs i v) j d ≡ (if j == i then v else get_or xs j d)
get_or-set_at [] i j v d h = absurd (omega arith)
get_or-set_at (x ∷ xs) zero zero v d h = refl
get_or-set_at (x ∷ xs) zero (suc j) v d h = ground arith
get_or-set_at (x ∷ xs) (suc i) zero v d h = ground arith
get_or-set_at (x ∷ xs) (suc i) (suc j) v d h = get_or-set_at xs i j v d (omega arith) ∙ ground arith

abbrev Bytes : List ℕ → Type 0
Bytes packed = (k : ℕ) → get_or packed k 0 < 256

set_bit-Bytes :
    (i : ℕ) (packed : List ℕ) → i / 8 < length packed → Bytes packed → Bytes (set_bit i packed)
set_bit-Bytes i packed h b k =
    rw (get_or-set packed (i / 8) k (bit_or (get_or packed (i / 8) 0) (2 ^ (i % 8))) 0 h)
      (ground (arith, b k, bit-or_lt (get_or packed (i / 8) 0) (i % 8) (b (i / 8)) (omega arith)))

test_bit-set_bit :
    (i j : ℕ) (packed : List ℕ)
    → i / 8 < length packed
    → Bytes packed
    → test_bit j (set_bit i packed) ≡ (j == i || test_bit j packed)
test_bit-set_bit i j packed h b = elim (ℕ_discrete (j / 8) (i / 8)) [
  | yes e ↦
      let byte = get_or packed (i / 8) 0 in
      let same : (j % 8 == i % 8) ≡ (j == i) = ground arith in
      let old : get_or packed (j / 8) 0 ≡ byte = ap (λ k. get_or packed k 0) e in
      let new : get_or (set packed (i / 8) (bit_or byte (2 ^ (i % 8)))) (j / 8) 0
          ≡ bit_or byte (2 ^ (i % 8)) =
        get_or-set packed (i / 8) (j / 8) (bit_or byte (2 ^ (i % 8))) 0 h ∙ ground arith in
      ap (λ x. bit x (j % 8)) new
      ∙ bit-or_bit byte (i % 8) (j % 8) (b (i / 8)) (omega arith) (omega arith)
      ∙ rw (same, old) refl
  | no n ↦
      let byte = bit_or (get_or packed (i / 8) 0) (2 ^ (i % 8)) in
      let apart : (j == i) ≡ false = ground arith in
      let old : get_or (set packed (i / 8) byte) (j / 8) 0 ≡ get_or packed (j / 8) 0 =
        get_or-set packed (i / 8) (j / 8) byte 0 h ∙ ground arith in
      rw (apart, old) refl
]

-- Reading a list that starts at index `i`.
get_or-cons :
    (h : Bool) (hs : List Bool) (i j : ℕ)
    → (leb i j && get_or (h ∷ hs) (j - i) false)
      ≡ ((j == i && h) || (leb (i + 1) j && get_or hs (j - (i + 1)) false))
get_or-cons h hs i j = elim (dec_lt j i) [
  | yes p ↦ ground arith
  | no p ↦ elim (ℕ_discrete j i) [
    | yes e ↦ let z : j - i ≡ 0 = omega arith in rw z (ground arith)
    | no n ↦ let z : j - i ≡ suc (j - (i + 1)) = omega arith in rw z (ground arith)
  ]
]

-- The packed bits from `i` on are those of the list; the others are left alone.
pack_from-bits :
    (i : ℕ) (hs : List Bool) (packed : List ℕ) (j : ℕ)
    → (i + length hs + 7) / 8 ≤ length packed
    → Bytes packed
    → test_bit j (pack_from i hs packed)
      ≡ ((leb i j && get_or hs (j - i) false) || test_bit j packed)
unfolding pack_from
pack_from-bits i [] packed j h b = ground arith
pack_from-bits i (false ∷ hs) packed j h b =
    pack_from-bits (i + 1) hs packed j (omega arith) b
    ∙ rw (get_or-cons false hs i j) (ground arith)
pack_from-bits i (true ∷ hs) packed j h b =
    pack_from-bits (i + 1) hs (set_bit i packed) j
      (omega (arith, length-set packed (i / 8) (bit_or (get_or packed (i / 8) 0) (2 ^ (i % 8)))))
      (set_bit-Bytes i packed (omega arith) b)
    ∙ rw (get_or-cons true hs i j, test_bit-set_bit i j packed (omega arith) b) (ground arith)

length-pack_from :
    (i : ℕ) (hs : List Bool) (packed : List ℕ) → length (pack_from i hs packed) ≡ length packed
unfolding pack_from
length-pack_from i [] packed = refl
length-pack_from i (false ∷ hs) packed = length-pack_from (i + 1) hs packed
length-pack_from i (true ∷ hs) packed =
    length-pack_from (i + 1) hs (set_bit i packed) ∙ length-set packed _ _

-- What is read back, from `i` on: the bits that are set, besides what the list had.
unpack_from-get_or :
    (n i : ℕ) (packed : List ℕ) (have : List Bool) (j : ℕ)
    → (i + n + 7) / 8 ≤ length packed
    → j < length have
    → get_or (unpack_from n i packed have) j false
      ≡ ((leb i j && (ltb j (i + n) && test_bit j packed)) || get_or have j false)
unfolding unpack_from
unpack_from-get_or zero i packed have j h lt = ground arith
unpack_from-get_or (suc n) i packed have j h lt =
    let inside : ltb (i / 8) (length packed) ≡ true = ground arith in
    rw inside (elim (Bool-cases (test_bit i packed)) [
      | inl e ↦
          let ih =
            unpack_from-get_or n (i + 1) packed (set have i true) j (omega arith)
              (omega (arith, length-set have i true)) in
          rw e (
            ih
            ∙ rw (get_or-set_at have i j true false lt) (elim (ℕ_discrete j i) [
              | yes same ↦
                  let hit : test_bit j packed ≡ true = ap (λ k. test_bit k packed) same ∙ e in
                  rw hit (ground arith)
              | no apart ↦ ground arith
            ]))
      | inr e ↦
          let ih = unpack_from-get_or n (i + 1) packed have j (omega arith) lt in
          rw e (
            ih ∙ elim (ℕ_discrete j i) [
              | yes same ↦
                  let hit : test_bit j packed ≡ false = ap (λ k. test_bit k packed) same ∙ e in
                  rw hit (ground arith)
              | no apart ↦ ground arith
            ])
    ])

length-unpack_from :
    (n i : ℕ) (packed : List ℕ) (have : List Bool)
    → length (unpack_from n i packed have) ≡ length have
unfolding unpack_from
length-unpack_from zero i packed have = refl
length-unpack_from (suc n) i packed have = ground (
  arith,
  length-unpack_from n (i + 1) packed have,
  length-unpack_from n (i + 1) packed (set have i true),
  length-set have i true,
)

zeros : {A : Type 0} (n k : ℕ) (z : A) → get_or (replicate n z) k z ≡ z
zeros zero k z = refl
zeros (suc n) zero z = refl
zeros (suc n) (suc k) z = zeros n k z

zero_table : every 8 (λ s. not (bit 0 s)) ≡ true
unfolding every
zero_table = refl

not-true : (b : Bool) → not b ≡ true → b ≡ false
not-true b h = ground arith

zeros_bit : (n j : ℕ) → test_bit j (replicate n 0) ≡ false
zeros_bit n j =
    let l : List ℕ = replicate n 0 in
    let z : get_or l (j / 8) 0 ≡ 0 = zeros n (j / 8) 0 in
    ap (λ b. bit b (j % 8)) z
    ∙ not-true _ (every_at 8 (λ s. not (bit 0 s)) (j % 8) zero_table (omega arith))

-- Lists of one length with the same bits are equal.
bits_ext :
    (xs ys : List Bool)
    → length xs ≡ length ys
    → ((j : ℕ) → j < length xs → get_or xs j false ≡ get_or ys j false)
    → xs ≡ ys
bits_ext [] [] e h = refl
bits_ext [] (y ∷ ys) e h = absurd (omega arith)
bits_ext (x ∷ xs) [] e h = absurd (omega arith)
bits_ext (x ∷ xs) (y ∷ ys) e h =
    let first : x ≡ y = h 0 (omega arith) in
    let rest : xs ≡ ys = bits_ext xs ys (omega arith) (λ j p. h (suc j) (omega arith)) in
    cc (first, rest)

-- The round trip through the bitmap file.
pub unpack-pack :
    (n : ℕ) (have : List Bool)
    → length have ≡ n
    → unpack_from n 0 (pack_from 0 have (replicate ((n + 7) / 8) 0)) (replicate n false) ≡ have
unpack-pack n have e =
    let blank = replicate n false in
    let cleared : List ℕ = replicate ((n + 7) / 8) 0 in
    let cleared_size : length cleared ≡ (n + 7) / 8 = length-replicate ((n + 7) / 8) 0 in
    let packed = pack_from 0 have cleared in
    let size : length packed ≡ (n + 7) / 8 = length-pack_from 0 have cleared ∙ cleared_size in
    let blank_size : length blank ≡ n = length-replicate n false in
    let clear_bytes : Bytes cleared =
      λ k. let e : get_or cleared k 0 ≡ 0 = zeros ((n + 7) / 8) k 0 in omega arith in
    bits_ext (unpack_from n 0 packed blank) have
      (length-unpack_from n 0 packed blank ∙ blank_size ∙ sym e)
      (λ j p.
        let lt : j < length blank = omega (arith, length-unpack_from n 0 packed blank) in
        let in_range : ltb j (0 + n) ≡ true = ground arith in
        let z : j - 0 ≡ j = omega arith in
        let none_set : test_bit j cleared ≡ false = zeros_bit ((n + 7) / 8) j in
        let none_had : get_or blank j false ≡ false = zeros n j false in
        unpack_from-get_or n 0 packed blank j (omega arith) lt
        ∙ ground (arith, pack_from-bits 0 have cleared j (omega arith) clear_bytes))
