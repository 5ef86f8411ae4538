-- ===== src/Handlers/Mp4Index.antt =====
-- handlers/mp4index.go `mp4Keyframes`: the times of the key samples of an MP4 file.
--
-- The boxes come from a parser that is not part of the program: an argument lists the calls that it
-- makes, in its order. A time is a number of ticks; the source divides it by the timescale.
pub mod Reference
use Prim.Native.String.{String}
use text.Mathlib.Text.{◌==◌ as ◌same◌}
use torrent_go.Prelude.{
  ℕ, zero, suc, ◌+◌, ◌-◌, ◌%◌, ◌^◌, Bool, true, false, ◌||◌, ltb, ◌==◌, if◌then◌else◌, Option, none,
  some, List, [], ◌∷◌, length, get_or, replicate,
}
use torrent_go.Prelude.Int.{ℤ, pos, negsuc, ◌+ℤ◌, ltb_ℤ}

-- A run of samples with one delta, and one with one offset: `SampleOffsetV0` and `SampleOffsetV1`.
pub record SttsEntry : Type 0 where
  pub sample_count : ℕ
  pub sample_delta : ℕ

pub record CttsEntry : Type 0 where
  pub sample_count : ℕ
  pub offset_v0 : ℕ
  pub offset_v1 : ℤ

pub record Track : Type 0 where
  pub handler : String
  pub timescale : ℕ
  pub stss : Option (List ℕ)
  pub stts : Option (List SttsEntry)
  pub ctts : Option (List CttsEntry)

abbrev pub new_track : Track
new_track = record { handler = ""; timescale = 0; stss = none; stts = none; ctts = none }

-- A call of the parser. A track box begins, and ends after its children.
pub data Box : Type 0 where
  moof trak trak_end other_box : Box
  hdlr : String → Box
  mdhd : ℕ → Box
  stss_box : List ℕ → Box
  stts_box : List SttsEntry → Box
  ctts_box : List CttsEntry → Box

pub record Scan : Type 0 where
  pub cur : Option Track
  pub video : Option Track
  pub saw_moof : Bool

abbrev pub no_scan : Scan
no_scan = record { cur = none; video = none; saw_moof = false }

abbrev on_track : Scan → (Track → Track) → Option Track → Scan
on_track s f none = s
on_track s f (some t) = record s { cur = some (f t) }

abbrev end_track : Scan → Option Track → Scan
end_track s none = record s { cur = none }
end_track s (some t) = record s {
  cur = none;
  video = if t.handler same "vide" then some t else s.video;
}

unfoldable pub visit : Scan → Box → Scan
visit s moof = record s { saw_moof = true }
visit s trak = record s { cur = some new_track }
visit s trak_end = end_track s s.cur
visit s other_box = s
visit s (hdlr h) = on_track s (λ t. record t { handler = h }) s.cur
visit s (mdhd n) = on_track s (λ t. record t { timescale = n }) s.cur
visit s (stss_box ns) = on_track s (λ t. record t { stss = some ns }) s.cur
visit s (stts_box es) = on_track s (λ t. record t { stts = some es }) s.cur
visit s (ctts_box es) = on_track s (λ t. record t { ctts = some es }) s.cur

unfoldable pub visit_all : Scan → List Box → Scan
visit_all s [] = s
visit_all s (b ∷ bs) = visit_all (visit s b) bs

unfoldable pub max_sample : ℕ → List ℕ → ℕ
max_sample n [] = n
max_sample n (m ∷ ms) = max_sample (if ltb n m then m else n) ms

-- The samples of one run, with the room left in the array and what follows the run.
unfoldable pub fill_run : ℕ → ℕ → ℕ → ℕ → (ℕ → ℕ → List ℕ) → List ℕ
fill_run zero room t delta rest = rest room t
fill_run (suc c) zero t delta rest = []
fill_run (suc c) (suc room) t delta rest = t ∷ fill_run c room ((t + delta) % 2 ^ 64) delta rest

-- `dts`: the loops over the runs; samples that no run has stay 0.
unfoldable pub decode_times : List SttsEntry → ℕ → ℕ → List ℕ
decode_times [] room t = replicate room 0
decode_times (e ∷ es) room t =
    fill_run e.sample_count room t e.sample_delta (λ r u. decode_times es r u)

unfoldable pub fill_offset : ℕ → ℕ → ℤ → (ℕ → List ℤ) → List ℤ
fill_offset zero room off rest = rest room
fill_offset (suc c) zero off rest = []
fill_offset (suc c) (suc room) off rest = off ∷ fill_offset c room off rest

abbrev pub is_zero : ℤ → Bool
is_zero (pos n) = n == 0
is_zero (negsuc n) = false

abbrev pub offset_of : CttsEntry → ℤ
offset_of e = if is_zero e.offset_v1 then pos e.offset_v0 else e.offset_v1

unfoldable pub offsets_from : List CttsEntry → ℕ → List ℤ
offsets_from [] room = replicate room (pos 0)
offsets_from (e ∷ es) room = fill_offset e.sample_count room (offset_of e) (λ r. offsets_from es r)

-- `cts`
abbrev pub offsets : Option (List CttsEntry) → ℕ → List ℤ
offsets none room = replicate room (pos 0)
offsets (some es) room = offsets_from es room

-- An int64 from its bits, and from a sum that may not fit.
abbrev pub signed64 : ℕ → ℤ
signed64 n = if ltb n (2 ^ 63) then pos n else negsuc (2 ^ 64 - 1 - n)

abbrev pub wrap64 : ℤ → ℤ
wrap64 (pos n) = signed64 (n % 2 ^ 64)
wrap64 (negsuc n) = signed64 (2 ^ 64 - 1 - n % 2 ^ 64)

abbrev pub not_negative : ℤ → ℤ
not_negative p = if ltb_ℤ p (pos 0) then pos 0 else p

-- The time of the sample with the index `i`.
unfoldable pub pts_at : List ℕ → List ℤ → ℕ → ℤ
pts_at dts cts i = not_negative (wrap64 (signed64 (get_or dts i 0) +ℤ get_or cts i (pos 0)))

-- The loop over the key samples, whose numbers begin at 1.
unfoldable pub key_times : List ℕ → ℕ → List ℕ → List ℤ → List ℤ
key_times [] max dts cts = []
key_times (sn ∷ sns) max dts cts =
    let rest = key_times sns max dts cts in
    if sn == 0 || ltb max sn then rest else pts_at dts cts (sn - 1) ∷ rest

-- `panicked`: a track with key samples and no `stts` box is a nil pointer.
pub data Keyframes : Type 0 where
  keyframes : List ℤ → ℕ → Keyframes
  no_keyframes : Keyframes
  failed : Keyframes
  panicked : Keyframes

abbrev pub tables : List ℕ → Option (List SttsEntry) → Track → Keyframes
tables sns none t = panicked
tables sns (some es) t =
    let max = max_sample 0 sns in
    keyframes (key_times sns max (decode_times es max 0) (offsets t.ctts max)) t.timescale

abbrev without_samples : Bool → Keyframes
without_samples saw_moof = if saw_moof then no_keyframes else failed

abbrev pub of_samples : Option (List ℕ) → Bool → Track → Keyframes
of_samples none saw_moof t = without_samples saw_moof
of_samples (some []) saw_moof t = without_samples saw_moof
of_samples (some (sn ∷ sns)) saw_moof t = tables (sn ∷ sns) t.stts t

abbrev pub of_video : Option Track → Bool → Keyframes
of_video none saw_moof = failed
of_video (some t) saw_moof = if t.timescale == 0 then failed else of_samples t.stss saw_moof t

-- The calls of the parser, and whether it ends with an error.
unfoldable pub mp4_keyframes : List Box → Bool → Keyframes
unfolding visit_all visit max_sample decode_times offsets_from key_times pts_at
mp4_keyframes boxes is_broken =
    let s = visit_all no_scan boxes in if is_broken then failed else of_video s.video s.saw_moof
