-- ===== src/Media/Boxes.antt =====
-- media/segment.go `firstBoxOffset`: the search for a top-level box of an MP4 buffer.
--
-- Bytes are numbers below 256. An int64 that wraps is negative: `2 ^ 63` and above. The loop then slices
-- out of range, which panics.
pub mod Ends
use torrent_go.Prelude.{
  ℕ, zero, suc, ◌+◌, ◌*◌, ◌^◌, Bool, true, false, ◌&&◌, ◌||◌, ltb, leb, ◌==◌, if◌then◌else◌, List,
  [], ◌∷◌, length, take, drop,
}

-- `binary.BigEndian`, on from the bytes before.
abbrev pub big_endian_from : ℕ → List ℕ → ℕ
big_endian_from n [] = n
big_endian_from n (b ∷ bs) = big_endian_from (n * 256 + b) bs

unfoldable pub big_endian : List ℕ → ℕ
big_endian bs = big_endian_from 0 bs

abbrev pub slice : List ℕ → ℕ → ℕ → List ℕ
slice b off n = take n (drop off b)

abbrev pub same_bytes : List ℕ → List ℕ → Bool
same_bytes [] [] = true
same_bytes [] (y ∷ ys) = false
same_bytes (x ∷ xs) [] = false
same_bytes (x ∷ xs) (y ∷ ys) = x == y && same_bytes xs ys

abbrev pub int64_end : ℕ
int64_end = 2 ^ 63

-- `missing` for -1, `unfinished` if the rounds that are given end before the loop.
pub data Search : Type 0 where
  found : ℕ → Search
  missing panics unfinished : Search

-- The end of a round: a box of `size` bytes is skipped.
abbrev pub skip : (ℕ → Search) → ℕ → ℕ → Search
skip next off size =
    let rest = next (off + size) in
    if leb int64_end size || ltb size 8
    then missing
    else (if leb int64_end (off + size) then panics else rest)

abbrev pub in_range : (ℕ → Search) → List ℕ → List ℕ → ℕ → Search
in_range next b want off =
    let size = big_endian (slice b off 4) in
    let long = skip next off (big_endian (slice b (off + 8) 8)) in
    if same_bytes (slice b (off + 4) 4) want
    then found off
    else (if size == 0
        then missing
        else (if size == 1
            then (if ltb (length b) (off + 16) then missing else long)
            else skip next off size))

-- The loop from `off` on.
unfoldable pub search_from : ℕ → List ℕ → List ℕ → ℕ → Search
search_from zero b want off = unfinished
search_from (suc rounds) b want off =
    let round = in_range (λ o. search_from rounds b want o) b want off in
    if leb int64_end (off + 8)
    then panics
    else (if ltb (length b) (off + 8) then missing else round)

-- One round for each byte, and one more.
unfoldable pub first_box_offset : List ℕ → List ℕ → Search
first_box_offset b want = search_from (suc (length b)) b want 0
