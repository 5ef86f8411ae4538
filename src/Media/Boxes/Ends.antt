-- ===== src/Media/Boxes/Ends.antt =====
-- How the search for a box ends.
use torrent_go.Prelude.{
  ℕ, zero, suc, ◌+◌, ◌^◌, ◌≤◌, ◌<◌, ◌≡◌, ◌≢◌, refl, false, ◌||◌, ltb, leb, ◌==◌, if_both, List,
  length, arith,
}
use torrent_go.Media.Boxes.{
  big_endian, slice, same_bytes, int64_end, Search, panics, unfinished, skip, search_from,
  first_box_offset,
}

abbrev Ended : Search → Type 0
Ended s = s ≢ unfinished

skip-Ended :
    (next : ℕ → Search) (off size : ℕ)
    → (8 ≤ size → Ended (next (off + size)))
    → Ended (skip next off size)
skip-Ended next off size h =
    if_both Ended (leb int64_end size || ltb size 8) (λ a e. absurd (cc e))
      (λ a.
        if_both Ended (leb int64_end (off + size)) (λ c e. absurd (cc e)) (λ c. h (ground arith)))

search_from-Ended :
    (n : ℕ) (b want : List ℕ) (off : ℕ)
    → 0 < n
    → length b < n + off
    → Ended (search_from n b want off)
unfolding search_from
search_from-Ended zero b want off p h = absurd (omega arith)
search_from-Ended (suc n) b want off p h =
    let next = λ (o : ℕ). search_from n b want o in
    if_both Ended (leb int64_end (off + 8)) (λ a e. absurd (cc e))
      (λ a.
        if_both Ended (ltb (length b) (off + 8)) (λ c e. absurd (cc e))
          (λ c.
            let room : off + 8 ≤ length b = ground arith in
            let after = λ (size : ℕ) (s : 8 ≤ size).
              search_from-Ended n b want (off + size) (omega arith) (omega arith) in
            if_both Ended (same_bytes (slice b (off + 4) 4) want) (λ d e. absurd (cc e))
              (λ d.
                if_both Ended (big_endian (slice b off 4) == 0) (λ k e. absurd (cc e))
                  (λ k.
                    if_both Ended (big_endian (slice b off 4) == 1)
                      (λ l.
                        if_both Ended (ltb (length b) (off + 16)) (λ m e. absurd (cc e))
                          (λ m. skip-Ended next off (big_endian (slice b (off + 8) 8)) (after _)))
                      (λ l. skip-Ended next off (big_endian (slice b off 4)) (after _))))))

-- The search ends for every buffer, after at most one round more than the buffer has bytes.
pub first_box_offset_ends : (b want : List ℕ) → first_box_offset b want ≢ unfinished
unfolding first_box_offset
first_box_offset_ends b want =
    search_from-Ended (suc (length b)) b want 0 (omega arith) (omega arith)

past_end_panics :
    (n : ℕ) (b want : List ℕ) (off : ℕ)
    → 0 < n
    → int64_end ≤ off + 8
    → search_from n b want off ≡ panics
unfolding search_from
past_end_panics zero b want off p h = absurd (omega arith)
past_end_panics (suc n) b want off p h =
    if_both (λ (s : Search). s ≡ panics) (leb int64_end (off + 8)) (λ a. refl)
      (λ a. absurd (ground arith))

-- A first box with a 64-bit size so close to the end of int64 that eight more bytes pass it makes the
-- search panic, where the source means to return -1: the bound of the loop wraps. The box is of another type.
pub huge_box_panics :
    (b want : List ℕ)
    → 16 ≤ length b
    → same_bytes (slice b 4 4) want ≡ false
    → big_endian (slice b 0 4) ≡ 1
    → 2 ^ 63 ≤ big_endian (slice b 8 8) + 8
    → big_endian (slice b 8 8) < 2 ^ 63
    → first_box_offset b want ≡ panics
unfolding first_box_offset search_from
huge_box_panics b want l t one lo hi =
    let P : Search → Type 0 = λ s. s ≡ panics in
    let size = big_endian (slice b 8 8) in
    let zero_sum : 0 + size ≡ size = omega arith in
    if_both P (ltb (length b) 8) (λ a. absurd (ground arith))
      (λ a.
        if_both P (same_bytes (slice b 4 4) want) (λ c. absurd (cc))
          (λ c.
            if_both P (big_endian (slice b 0 4) == 0) (λ d. absurd (ground arith))
              (λ d.
                if_both P (big_endian (slice b 0 4) == 1)
                  (λ e.
                    if_both P (ltb (length b) 16) (λ k. absurd (ground arith))
                      (λ k.
                        if_both P (leb int64_end size || ltb size 8) (λ q. absurd (ground arith))
                          (λ q.
                            if_both P (leb int64_end (0 + size)) (λ r. refl)
                              (λ r.
                                past_end_panics (length b) b want (0 + size) (omega arith)
                                  (omega (arith, zero_sum))))))
                  (λ e. absurd (ground arith)))))
