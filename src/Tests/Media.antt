-- ===== src/Tests/Media.antt =====
-- Timestamps of copied packets, and boxes of a buffer.
use torrent_go.Prelude.{ℕ, refl, ◌≡◌, arith, none, some, List, [], ◌∷◌}
use torrent_go.Prelude.Int.{pos, ◌+ℤ◌}
use torrent_go.Media.Packets.{Packet, sanitize_all, sanitize_copy_dts}
use torrent_go.Media.Boxes.{first_box_offset, search_from, big_endian, found, panics}
use torrent_go.Media.Boxes.Ends.{huge_box_panics}

-- Two streams: the first packet has no decoding time, and the third falls back.
abbrev packets : List (ℕ × Packet)
packets =
    (0, record { dts = none; pts = some (pos 40) })
    ∷ (1, record { dts = some (pos 5); pts = some (pos 5) })
    ∷ (0, record { dts = some (pos 39); pts = none })
    ∷ []

repaired :
    sanitize_all packets []
    ≡ (0, record { dts = some (pos 40); pts = some (pos 40) })
      ∷ (1, record { dts = some (pos 5); pts = some (pos 5) })
      ∷ (0, record { dts = some (pos 41); pts = some (pos 41) })
      ∷ []
unfolding sanitize_all sanitize_copy_dts ◌+ℤ◌
repaired = refl

-- A buffer that starts with a box `free` of the largest size, and the type `moof`.
abbrev huge : List ℕ
huge = 0 ∷ 0 ∷ 0 ∷ 1 ∷ 102 ∷ 114 ∷ 101 ∷ 101 ∷ 127 ∷ 255 ∷ 255 ∷ 255 ∷ 255 ∷ 255 ∷ 255 ∷ 255 ∷ []

abbrev moof : List ℕ
moof = 109 ∷ 111 ∷ 111 ∷ 102 ∷ []

-- A box `free` of nine bytes, and then a box `moof`.
found_second :
    first_box_offset
      (0 ∷ 0 ∷ 0 ∷ 9 ∷ 102 ∷ 114 ∷ 101 ∷ 101 ∷ 7 ∷ 0 ∷ 0 ∷ 0 ∷ 8 ∷ 109 ∷ 111 ∷ 111 ∷ 102 ∷ [])
      moof
    ≡ found 9
unfolding first_box_offset search_from big_endian
found_second = refl

huge_box_panics_example : first_box_offset huge moof ≡ panics
huge_box_panics_example =
    huge_box_panics huge moof (omega arith) refl (unfold big_endian in refl)
      (unfold big_endian in omega arith) (unfold big_endian in omega arith)
