-- ===== src/Media/Output.antt =====
-- media/output.go `memWriter`: the muxer's output, which is written and patched in memory.
pub mod Patched
use torrent_go.Prelude.{
  ℕ, zero, suc, ◌+◌, ◌-◌, Bool, true, false, ltb, if◌then◌else◌, Option, none, some, List, [], ◌∷◌,
  ◌++◌, length, set, replicate,
}
use torrent_go.Prelude.Int.{ℤ, pos, negsuc, ◌+ℤ◌}

pub record MemWriter : Type 0 where
  pub buf : List ℕ
  pub pos : ℕ

abbrev pub empty_writer : MemWriter
empty_writer = record { buf = []; pos = 0 }

-- `copy(m.buf[at:], p)`
unfoldable pub copy_at : List ℕ → ℕ → List ℕ → List ℕ
copy_at buf at [] = buf
copy_at buf at (b ∷ bs) = copy_at (set buf at b) (suc at) bs

-- The buffer grows with zeros to the end of the write.
abbrev pub grown : List ℕ → ℕ → List ℕ
grown buf stop = if ltb (length buf) stop then buf ++ replicate (stop - length buf) 0 else buf

unfoldable pub write : MemWriter → List ℕ → MemWriter
unfolding copy_at
write m p =
    let stop = m.pos + length p in record { buf = copy_at (grown m.buf stop) m.pos p; pos = stop }

pub data OutputErr : Type 0 where
  bad_whence negative_position : OutputErr

abbrev seek_new : MemWriter → ℤ → MemWriter × Option OutputErr
seek_new m (pos n) = (record m { pos = n }, none)
seek_new m (negsuc n) = (m, some negative_position)

unfoldable pub seek : MemWriter → ℤ → ℕ → MemWriter × Option OutputErr
seek m offset zero = seek_new m offset
seek m offset (suc zero) = seek_new m (pos m.pos +ℤ offset)
seek m offset (suc (suc zero)) = seek_new m (pos (length m.buf) +ℤ offset)
seek m offset (suc (suc (suc n))) = (m, some bad_whence)
