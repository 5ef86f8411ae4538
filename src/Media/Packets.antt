-- ===== src/Media/Packets.antt =====
-- media/segment.go `sanitizeCopyDTS`: the timestamps of packets that are copied.
--
-- A timestamp is `none` for `noPTS`. Timestamps stay far below 2^63, so `l + 1` does not overflow.
pub mod Order
use torrent_go.Prelude.{ℕ, Bool, true, false, if◌then◌else◌, Option, none, some, List, [], ◌∷◌}
use torrent_go.Prelude.Int.{ℤ, pos, ◌+ℤ◌, leb_ℤ, ltb_ℤ}
use torrent_go.Prelude.Assoc.{lookup, insert}

pub record Packet : Type 0 where
  pub dts : Option ℤ
  pub pts : Option ℤ

-- The last timestamp of each output stream.
abbrev pub LastDts : Type 0
LastDts = List (ℕ × ℤ)

abbrev pub or_pts : Option ℤ → Option ℤ → Option ℤ
or_pts none pts = pts
or_pts (some dts) pts = some dts

-- One past the last timestamp, where the new one does not exceed it.
abbrev pub past : Option ℤ → ℤ → ℤ
past none dts = dts
past (some l) dts = if leb_ℤ dts l then l +ℤ pos 1 else dts

-- A presentation time is not before the decoding time.
abbrev pub pts_from : Option ℤ → ℤ → ℤ
pts_from none dts = dts
pts_from (some p) dts = if ltb_ℤ p dts then dts else p

abbrev pub stamp : Packet → ℕ → LastDts → ℤ → Packet × LastDts
stamp p out_idx last dts =
    (record { dts = some dts; pts = some (pts_from p.pts dts) }, insert out_idx dts last)

-- Without any timestamp the packet is left to the muxer.
abbrev pub sanitize_from : Option ℤ → Packet → ℕ → LastDts → Packet × LastDts
sanitize_from none p out_idx last = (p, last)
sanitize_from (some dts) p out_idx last = stamp p out_idx last (past (lookup out_idx last) dts)

unfoldable pub sanitize_copy_dts : Packet → ℕ → LastDts → Packet × LastDts
sanitize_copy_dts p out_idx last = sanitize_from (or_pts p.dts p.pts) p out_idx last

-- The packets that are copied, with their output streams, in the order of the loop of the segment.
unfoldable pub sanitize_all : List (ℕ × Packet) → LastDts → List (ℕ × Packet)
sanitize_all [] last = []
sanitize_all ((i, p) ∷ ps) last =
    let s = sanitize_copy_dts p i last in (i, s.0) ∷ sanitize_all ps s.1
