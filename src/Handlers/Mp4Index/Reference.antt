-- ===== src/Handlers/Mp4Index/Reference.antt =====
-- The sample tables, expanded sample by sample, give the times that the loops compute.
use torrent_go.Handlers.Mp4Index.{
  SttsEntry, CttsEntry, Track, keyframes, max_sample, fill_run, decode_times, fill_offset, is_zero,
  offsets_from, offsets, signed64, wrap64, not_negative, pts_at, key_times, tables, of_samples,
  of_video, Box, visit_all, no_scan, mp4_keyframes, panicked,
}
use torrent_go.Prelude.{
  ℕ, zero, suc, ◌+◌, ◌-◌, ◌%◌, ◌^◌, ◌≤◌, ◌<◌, ◌≡◌, refl, ap, ◌∙◌, false, ltb, ◌==◌, if◌then◌else◌,
  Option, none, some, List, [], ◌∷◌, ◌++◌, length, get_or, replicate, map, if_both, if_false, arith,
}
use torrent_go.Prelude.Int.{ℤ, pos, negsuc, ◌+ℤ◌, ◌≤ℤ◌}

-- A signed offset, unless it is 0, goes before an unsigned one.
abbrev entry_shift : ℕ → ℤ → ℤ
entry_shift v0 (pos zero) = pos v0
entry_shift v0 (pos (suc n)) = pos (suc n)
entry_shift v0 (negsuc n) = negsuc n

-- The delta of each sample, and its offset.
abbrev pub deltas : List SttsEntry → List ℕ
deltas [] = []
deltas (e ∷ es) = replicate e.sample_count e.sample_delta ++ deltas es

abbrev pub shifts : List CttsEntry → List ℤ
shifts [] = []
shifts (e ∷ es) = replicate e.sample_count (entry_shift e.offset_v0 e.offset_v1) ++ shifts es

-- The sum of the first numbers of a list.
abbrev pub sum_first : ℕ → List ℕ → ℕ
sum_first zero ds = 0
sum_first (suc n) [] = 0
sum_first (suc n) (d ∷ ds) = d + sum_first n ds

-- The time of a sample: the deltas of all samples before it, from `t` on.
run_time :
    (c : ℕ) (room t delta i : ℕ) (ds : List ℕ) (rest : ℕ → ℕ → List ℕ)
    → ((r u j : ℕ)
        → j < r
        → j < length ds
        → u < 2 ^ 64
        → get_or (rest r u) j 0 ≡ (u + sum_first j ds) % 2 ^ 64)
    → i < room
    → i < length (replicate c delta ++ ds)
    → t < 2 ^ 64
    → get_or (fill_run c room t delta rest) i 0
      ≡ (t + sum_first i (replicate c delta ++ ds)) % 2 ^ 64
unfolding fill_run
run_time zero room t delta i ds rest h k l b = h room t i k l b
run_time (suc c) zero t delta i ds rest h k l b = absurd (omega arith)
run_time (suc c) (suc room) t delta zero ds rest h k l b = omega arith
run_time (suc c) (suc room) t delta (suc i) ds rest h k l b = omega (
  arith,
  run_time c room ((t + delta) % 2 ^ 64) delta i ds rest h (omega arith) (omega arith)
      (omega arith),
)

pub decode_time :
    (es : List SttsEntry) (room t i : ℕ)
    → i < room
    → i < length (deltas es)
    → t < 2 ^ 64
    → get_or (decode_times es room t) i 0 ≡ (t + sum_first i (deltas es)) % 2 ^ 64
unfolding decode_times
decode_time [] room t i k l b = absurd (omega arith)
decode_time (e ∷ es) room t i k l b =
    run_time e.sample_count room t e.sample_delta i (deltas es) (λ r u. decode_times es r u)
      (λ r u j k' l' b'. decode_time es r u j k' l' b') k l b

get_or-replicate : {A : Type 0} (n i : ℕ) (a : A) → get_or (replicate n a) i a ≡ a
get_or-replicate zero i a = refl
get_or-replicate (suc n) zero a = refl
get_or-replicate (suc n) (suc i) a = get_or-replicate n i a

run_offset :
    (c : ℕ) (room i : ℕ) (off : ℤ) (ss : List ℤ) (rest : ℕ → List ℤ)
    → ((r j : ℕ) → j < r → get_or (rest r) j (pos 0) ≡ get_or ss j (pos 0))
    → i < room
    → get_or (fill_offset c room off rest) i (pos 0) ≡ get_or (replicate c off ++ ss) i (pos 0)
unfolding fill_offset
run_offset zero room i off ss rest h k = h room i k
run_offset (suc c) zero i off ss rest h k = absurd (omega arith)
run_offset (suc c) (suc room) zero off ss rest h k = refl
run_offset (suc c) (suc room) (suc i) off ss rest h k =
    run_offset c room i off ss rest h (omega arith)

version_shift : (v0 : ℕ) (v1 : ℤ) → (if is_zero v1 then pos v0 else v1) ≡ entry_shift v0 v1
version_shift v0 (pos zero) = refl
version_shift v0 (pos (suc n)) = ground arith
version_shift v0 (negsuc n) = refl

offset_at :
    (es : List CttsEntry) (room i : ℕ)
    → i < room
    → get_or (offsets_from es room) i (pos 0) ≡ get_or (shifts es) i (pos 0)
unfolding offsets_from
offset_at [] room i k = get_or-replicate room i (pos 0)
offset_at (e ∷ es) room i k = rw (version_shift e.offset_v0 e.offset_v1) (
    run_offset e.sample_count room i (entry_shift e.offset_v0 e.offset_v1) (shifts es)
      (λ r. offsets_from es r) (λ r j k'. offset_at es r j k') k)

-- The offset of a sample, which is 0 where the table has none.
abbrev pub shift_of : Option (List CttsEntry) → ℕ → ℤ
shift_of none i = pos 0
shift_of (some es) i = get_or (shifts es) i (pos 0)

offsets-shift_of :
    (o : Option (List CttsEntry)) (room i : ℕ)
    → i < room
    → get_or (offsets o room) i (pos 0) ≡ shift_of o i
offsets-shift_of none room i k = get_or-replicate room i (pos 0)
offsets-shift_of (some es) room i k = offset_at es room i k

le-max_sample : (n : ℕ) (ms : List ℕ) → n ≤ max_sample n ms
unfolding max_sample
le-max_sample n [] = omega arith
le-max_sample n (m ∷ ms) =
    if_both (λ (k : ℕ). n ≤ max_sample k ms) (ltb n m) (λ c. ground (arith, le-max_sample m ms))
      (λ c. le-max_sample n ms)

-- The number of a sample that the table of deltas has.
abbrev pub AllTimed : List SttsEntry → List ℕ → Type 0
AllTimed es [] = Unit
AllTimed es (sn ∷ sns) = (1 ≤ sn) × (sn ≤ length (deltas es)) × AllTimed es sns

abbrev AllBelow : ℕ → List ℕ → Type 0
AllBelow max [] = Unit
AllBelow max (sn ∷ sns) = (sn ≤ max) × AllBelow max sns

max_sample-AllBelow : (n : ℕ) (ms : List ℕ) → AllBelow (max_sample n ms) ms
unfolding max_sample
max_sample-AllBelow n [] = tt
max_sample-AllBelow n (m ∷ ms) =
    if_both (λ (k : ℕ). (m ≤ max_sample k ms) × AllBelow (max_sample k ms) ms) (ltb n m)
      (λ c. (le-max_sample m ms, max_sample-AllBelow m ms))
      (λ c. (ground (arith, le-max_sample n ms), max_sample-AllBelow n ms))

-- Times and offsets that an int64 holds with room to spare.
pub record AreSmall (es : List SttsEntry) (o : Option (List CttsEntry)) : Type 0 where
  pub small_times : (i : ℕ) → sum_first i (deltas es) < 2 ^ 62
  pub small_shifts : (i : ℕ) → (negsuc (2 ^ 32) ≤ℤ shift_of o i) × (shift_of o i ≤ℤ pos (2 ^ 32))

exact_sum :
    (n : ℕ) (off : ℤ)
    → n < 2 ^ 62
    → negsuc (2 ^ 32) ≤ℤ off
    → off ≤ℤ pos (2 ^ 32)
    → wrap64 (signed64 (n % 2 ^ 64) +ℤ off) ≡ pos n +ℤ off
unfolding ◌+ℤ◌
exact_sum n (pos m) h lo hi = ground arith
exact_sum n (negsuc m) h lo hi = ground arith

-- The presentation time of the sample with the number `sn`, in ticks.
abbrev pub time_of : List SttsEntry → Option (List CttsEntry) → ℕ → ℤ
time_of es o sn = not_negative (pos (sum_first (sn - 1) (deltas es)) +ℤ shift_of o (sn - 1))

pts_at-time_of :
    (es : List SttsEntry) (o : Option (List CttsEntry)) (max sn : ℕ)
    → AreSmall es o
    → 1 ≤ sn
    → sn ≤ length (deltas es)
    → sn ≤ max
    → pts_at (decode_times es max 0) (offsets o max) (sn - 1) ≡ time_of es o sn
unfolding pts_at
pts_at-time_of es o max sn s a b c =
    let at_sample : get_or (decode_times es max 0) (sn - 1) 0
        ≡ sum_first (sn - 1) (deltas es) % 2 ^ 64 =
      decode_time es max 0 (sn - 1) (omega arith) (omega arith) (omega arith)
      ∙ ap (λ (k : ℕ). k % 2 ^ 64) (omega arith) in
    rw at_sample (
      rw (offsets-shift_of o max (sn - 1) (omega arith)) (
        ap not_negative (
          let (lo, hi) = s.small_shifts (sn - 1) in
          exact_sum (sum_first (sn - 1) (deltas es)) (shift_of o (sn - 1)) (s.small_times (sn - 1))
            lo hi)))

key_times-map :
    (sns : List ℕ) (es : List SttsEntry) (o : Option (List CttsEntry)) (max : ℕ)
    → AreSmall es o
    → AllTimed es sns
    → AllBelow max sns
    → key_times sns max (decode_times es max 0) (offsets o max) ≡ map (time_of es o) sns
unfolding key_times
key_times-map [] es o max s a b = refl
key_times-map (sn ∷ sns) es o max s (one, timed, a) (fits, b) =
    rw (pts_at-time_of es o max sn s one timed fits)
      (ground (arith, key_times-map sns es o max s a b))

-- When the calls of the parser leave a video track with a timescale, key samples and a table of
-- deltas that has all these samples, and times and offsets leave room in an int64, the key frames
-- are the key samples in their order, each at the sum of the deltas of all samples before it plus
-- its offset, or at 0 where that is negative.
pub mp4_keyframes-exact :
    (boxes : List Box) (t : Track) (sn : ℕ) (sns : List ℕ) (es : List SttsEntry)
    → (visit_all no_scan boxes).video ≡ some t
    → 0 < t.timescale
    → t.stss ≡ some (sn ∷ sns)
    → t.stts ≡ some es
    → AreSmall es t.ctts
    → AllTimed es (sn ∷ sns)
    → mp4_keyframes boxes false ≡ keyframes (map (time_of es t.ctts) (sn ∷ sns)) t.timescale
unfolding mp4_keyframes
mp4_keyframes-exact boxes t sn sns es v ts stss stts small timed =
    let scaled : (t.timescale == 0) ≡ false = ground arith in
    let times : key_times (sn ∷ sns) (max_sample 0 (sn ∷ sns))
          (decode_times es (max_sample 0 (sn ∷ sns)) 0) (offsets t.ctts (max_sample 0 (sn ∷ sns)))
        ≡ map (time_of es t.ctts) (sn ∷ sns) =
      key_times-map (sn ∷ sns) es t.ctts (max_sample 0 (sn ∷ sns)) small timed
        (max_sample-AllBelow 0 (sn ∷ sns)) in
    ap (λ (o : Option Track). of_video o (visit_all no_scan boxes).saw_moof) v
    ∙ if_false (t.timescale == 0) _ _ scaled
    ∙ ap (λ (o : Option (List ℕ)). of_samples o (visit_all no_scan boxes).saw_moof t) stss
    ∙ ap (λ (o : Option (List SttsEntry)). tables (sn ∷ sns) o t) stts
    ∙ ap (λ (l : List ℤ). keyframes l t.timescale) times

-- A video track with a timescale and key samples, but without a table of deltas, makes the function
-- panic.
pub no_stts_panics :
    (boxes : List Box) (t : Track) (sn : ℕ) (sns : List ℕ)
    → (visit_all no_scan boxes).video ≡ some t
    → 0 < t.timescale
    → t.stss ≡ some (sn ∷ sns)
    → t.stts ≡ none
    → mp4_keyframes boxes false ≡ panicked
unfolding mp4_keyframes
no_stts_panics boxes t sn sns v ts stss stts =
    let scaled : (t.timescale == 0) ≡ false = ground arith in
    ap (λ (o : Option Track). of_video o (visit_all no_scan boxes).saw_moof) v
    ∙ if_false (t.timescale == 0) _ _ scaled
    ∙ ap (λ (o : Option (List ℕ)). of_samples o (visit_all no_scan boxes).saw_moof t) stss
    ∙ ap (λ (o : Option (List SttsEntry)). tables (sn ∷ sns) o t) stts
