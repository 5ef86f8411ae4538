-- ===== src/Handlers/SegGrid.antt =====
-- handlers/hlsindex.go: the segments of a file, as boundaries in time.
--
-- Times are exact whole milliseconds, where the source has floating-point seconds; rounding is left
-- out. `computeSegList` is called with at least one keyframe, so it takes the first and the others.
pub mod Grid
pub mod Abut
use Prim.Native.String.{String}
use text.Mathlib.Text.{◌==◌}
use torrent_go.Prelude.{
  ℕ, zero, suc, ◌+◌, ◌-◌, ◌/◌, Bool, true, false, not, ◌||◌, leb, if◌then◌else◌, Option, none, some,
  List, [], ◌∷◌, length, get_elem?, get_or,
}
use torrent_go.Prelude.Int.{ℤ, pos, negsuc, pos_part, ◌+ℤ◌, ◌-ℤ◌, leb_ℤ, ltb_ℤ}

pub record SegList : Type 0 where
  pub content_starts : List ℤ
  pub content_end : ℤ
  pub base : ℤ
  pub transcode : Bool

-- `hlsSegmentSeconds`, and the tolerance of 0.001 s.
abbrev pub segment_ms : ℕ
segment_ms = 6000

abbrev pub tolerance_ms : ℕ
tolerance_ms = 1

abbrev pub count : SegList → ℕ
count s = length s.content_starts

abbrev end_or : Option ℤ → ℤ → ℤ
end_or none e = e
end_or (some next) e = next

abbrev pub not_negative : ℤ → ℤ
not_negative d = if ltb_ℤ d (pos 0) then pos 0 else d

abbrev pub extinf_at : Option ℤ → SegList → ℕ → ℤ
extinf_at none s i = pos 0
extinf_at (some start) s i =
    not_negative (end_or (get_elem? s.content_starts (suc i)) s.content_end -ℤ start)

unfoldable pub extinf : SegList → ℤ → ℤ
extinf s (negsuc i) = pos 0
extinf s (pos i) = extinf_at (get_elem? s.content_starts i) s i

unfoldable pub src_start : SegList → ℤ → ℤ
src_start s (negsuc i) = s.base
src_start s (pos zero) = s.base
src_start s (pos (suc i)) =
    let last = if leb (count s) (suc i) then count s - 1 else suc i in
    get_or s.content_starts last (pos 0) +ℤ s.base

-- The loop of `computeSegList`: the content starts it appends.
unfoldable pub cuts : ℤ → ℤ → List ℤ → List ℤ
cuts base seg_start [] = []
cuts base seg_start (kf ∷ kfs) =
    let cut = leb_ℤ (pos segment_ms -ℤ pos tolerance_ms) (kf -ℤ seg_start) in
    let rest = cuts base (if cut then kf else seg_start) kfs in
    if cut then (kf -ℤ base) ∷ rest else rest

abbrev pub last_of : ℤ → List ℤ → ℤ
last_of x [] = x
last_of x (y ∷ ys) = last_of y ys

unfoldable pub compute_seg_list : ℤ → List ℤ → ℤ → SegList
compute_seg_list kf kfs dur =
    let starts = cuts kf kf kfs in
    let last = last_of (pos 0) starts in
    let content_end = dur -ℤ kf in
    record {
      content_starts = pos 0 ∷ starts;
      content_end = if leb_ℤ content_end last then last +ℤ pos segment_ms else content_end;
      base = kf;
      transcode = false;
    }

-- The loop of `uniformSegList`, with the rounds that are left.
unfoldable pub steps : ℕ → ℤ → ℤ → List ℤ
steps zero t content_end = []
steps (suc rounds) t content_end =
    let rest = steps rounds (t +ℤ pos segment_ms) content_end in
    if ltb_ℤ t (content_end -ℤ pos tolerance_ms) then t ∷ rest else []

abbrev pub or_zero : List ℤ → List ℤ
or_zero [] = pos 0 ∷ []
or_zero (t ∷ ts) = t ∷ ts

unfoldable pub uniform_seg_list : ℤ → ℤ → SegList
uniform_seg_list dur base =
    let content_end = if leb_ℤ (dur -ℤ base) (pos 0) then dur else dur -ℤ base in
    record {
      content_starts =
          or_zero (steps (suc (pos_part content_end / segment_ms)) (pos 0) content_end);
      content_end = content_end;
      base = base;
      transcode = true;
    }

-- What the reading of a container's keyframe index comes to.
pub data IndexRead : Type 0 where
  unreadable : IndexRead
  keyframes : Bool → List ℤ → IndexRead

-- One round of `tryIndexSegList`: what opening the file, reading the index, the clock and the context
-- answer. `extension` is the file's, in lower case.
pub record Round : Type 0 where
  pub opened : Bool
  pub extension : String
  pub read : IndexRead
  pub past_deadline : Bool
  pub cancelled : Bool

abbrev indexable : String → Bool
indexable ext =
    ext == ".mp4" || (ext == ".mov" || (ext == ".m4v" || (ext == ".mkv" || ext == ".webm")))

-- `none` if the loop goes on.
abbrev settle : IndexRead → Round → ℤ → Option (Option SegList)
settle (keyframes true (kf ∷ kfs)) r dur = some (some (compute_seg_list kf kfs dur))
settle (keyframes true []) r dur = some none
settle (keyframes false kfs) r dur = some none
settle unreadable r dur = if r.past_deadline || r.cancelled then some none else none

abbrev pub round : Round → ℤ → Option (Option SegList)
round r dur = if not r.opened || not (indexable r.extension) then some none else settle r.read r dur

abbrev pub continue : Option (Option SegList) → Option SegList → Option SegList
continue none rest = rest
continue (some result) rest = result

-- The rounds are those that the deadline and the context leave, so the last of them ends the loop.
unfoldable pub try_index : List Round → ℤ → Option SegList
try_index [] dur = none
try_index (r ∷ rs) dur = continue (round r dur) (try_index rs dur)

-- The layout that `getStreamLayout` returns: the codec of the video, and its first time.
pub record Layout : Type 0 where
  pub video_codec : String
  pub video_start : ℤ

abbrev pub copy_or_uniform : Option SegList → ℤ → ℤ → SegList
copy_or_uniform (some s) dur base = s
copy_or_uniform none dur base = uniform_seg_list dur base

abbrev pub with_layout : Option Layout → List Round → ℤ → SegList
with_layout none rounds dur = uniform_seg_list dur (pos 0)
with_layout (some l) rounds dur =
    if l.video_codec == "h264"
    then copy_or_uniform (try_index rounds dur) dur l.video_start
    else uniform_seg_list dur l.video_start

-- `duration` is what `getOrProbeDuration` returns, `none` where it fails.
abbrev pub with_duration : Option ℤ → Option Layout → List Round → Option SegList
with_duration none layout rounds = none
with_duration (some dur) layout rounds =
    if leb_ℤ dur (pos 0) then none else some (with_layout layout rounds dur)

unfoldable pub build_seg_list : Option ℤ → Option Layout → List Round → Option SegList
build_seg_list duration layout rounds = with_duration duration layout rounds
