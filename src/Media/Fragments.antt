-- ===== src/Media/Fragments.antt =====
-- media/segment.go `fragWriter`: each packet waits for the next one of its stream, which gives it its
-- duration.
--
-- `accepts` says which packets the muxer takes. A clone that fails for lack of memory is left out.
-- Timestamps stay far below 2^63, so a difference does not overflow.
pub mod Steps
pub mod Stamped
use torrent_go.Prelude.{
  ℕ, Bool, true, false, if◌then◌else◌, Option, none, some, List, [], ◌∷◌, ◌++◌,
}
use torrent_go.Prelude.Assoc.{lookup, insert, erase}
use torrent_go.Prelude.Int.{ℤ, pos, ◌-ℤ◌, leb_ℤ, ltb_ℤ}

-- A packet of an output stream.
pub record Sample : Type 0 where
  pub stream : ℕ
  pub dts : ℤ
  pub duration : ℤ
  pub content : List ℕ

-- `written` is what the muxer has got.
pub record FragWriter : Type 0 where
  pub held : List (ℕ × Sample)
  pub last_dur : List (ℕ × ℤ)
  pub written : List Sample

abbrev pub new_frag_writer : FragWriter
new_frag_writer = record { held = []; last_dur = []; written = [] }

-- The difference to the next packet, where it is positive.
abbrev pub gap : Sample → Sample → ℤ
gap prev pkt = pkt.dts -ℤ prev.dts

abbrev pub with_gap : Sample → Sample → Sample
with_gap prev pkt =
    if ltb_ℤ (pos 0) (gap prev pkt) then record prev { duration = gap prev pkt } else prev

abbrev pub note_gap : Sample → Sample → List (ℕ × ℤ) → List (ℕ × ℤ)
note_gap prev pkt last =
    if ltb_ℤ (pos 0) (gap prev pkt) then insert pkt.stream (gap prev pkt) last else last

abbrev pub hold : FragWriter → Sample → FragWriter
hold fw pkt = record fw { held = insert pkt.stream pkt fw.held }

abbrev pub flush : (Sample → Bool) → FragWriter → Option Sample → Sample → FragWriter × Bool
flush accepts fw none pkt = (hold fw pkt, true)
flush accepts fw (some prev) pkt =
    let last = note_gap prev pkt fw.last_dur in
    if accepts (with_gap prev pkt)
    then (
      hold (record fw { last_dur = last; written = fw.written ++ (with_gap prev pkt ∷ []) }) pkt,
      true,
    )
    else (record fw { held = erase pkt.stream fw.held; last_dur = last }, false)

unfoldable pub write : (Sample → Bool) → FragWriter → Sample → FragWriter × Bool
write accepts fw pkt = flush accepts fw (lookup pkt.stream fw.held) pkt

-- The loop of a segment ends at the first error.
abbrev pub unless_failed : FragWriter × Bool → (FragWriter → FragWriter × Bool) → FragWriter × Bool
unless_failed (fw, true) next = next fw
unless_failed (fw, false) next = (fw, false)

unfoldable pub write_all : (Sample → Bool) → FragWriter → List Sample → FragWriter × Bool
write_all accepts fw [] = (fw, true)
write_all accepts fw (p ∷ ps) = unless_failed (write accepts fw p) (λ r. write_all accepts r ps)

abbrev pub or_zero : Option ℤ → ℤ
or_zero none = pos 0
or_zero (some d) = d

-- The last difference, else the packet's own duration, else 1.
abbrev pub final_dur : ℤ → Sample → ℤ
final_dur dur prev =
    if leb_ℤ dur (pos 0)
    then (if leb_ℤ prev.duration (pos 0) then pos 1 else prev.duration)
    else dur

abbrev pub finish_held : (Sample → Bool) → FragWriter → ℕ → Option Sample → FragWriter × Bool
finish_held accepts fw si none = (fw, true)
finish_held accepts fw si (some prev) =
    let last = record prev { duration = final_dur (or_zero (lookup si fw.last_dur)) prev } in
    let rest = record fw { held = erase si fw.held } in
    if accepts last
    then (record rest { written = fw.written ++ (last ∷ []) }, true)
    else (rest, false)

-- The order in which the map is walked is an argument.
unfoldable pub finish : (Sample → Bool) → FragWriter → List ℕ → FragWriter × Bool
finish accepts fw [] = (fw, true)
finish accepts fw (si ∷ order) =
    unless_failed (finish_held accepts fw si (lookup si fw.held)) (λ r. finish accepts r order)

unfoldable pub free : FragWriter → FragWriter
free fw = record fw { held = [] }
