-- ===== src/Storage/MemPiece.antt =====
-- storage/mempiece.go: the buffer of one piece. A method on `*MemPiece` returns the new record, and
-- `now` stands for `time.Now()`. The piece's mutex makes each method one step.
--
-- `bytes` is the field `data` (`none` for nil). `done` says that `doneCh` is closed. Notify channels
-- are numbered in the order in which they are made: `notify` is the number of the armed channel, and
-- those below it are closed. `id` tells the pieces apart, as their addresses do.
pub mod Lists
pub mod Wakeup
pub mod Chunk
pub mod Content
use torrent_go.Prelude.{
  ℕ, zero, suc, ◌+◌, ◌-◌, ◌/◌, ◌≡◌, Bool, true, false, not, ◌&&◌, ◌||◌, ltb, leb, if◌then◌else◌,
  Option, none, some, List, [], length, get_or, set, take, drop, replicate, ◌++◌, min,
}

pub data IoErr : Type 0 where
  eof short_write piece_evicted : IoErr

pub record MemPiece : Type 0 where
  pub id : ℕ
  pub size : ℕ
  pub bytes : Option (List ℕ)
  pub written_blocks : List Bool
  pub complete : Bool
  pub accessed : ℕ
  pub accounted : ℕ
  pub done : Bool
  pub notify : ℕ

abbrev pub block_size : ℕ
block_size = 16384

unfoldable pub new_mem_piece : ℕ → ℕ → ℕ → MemPiece
new_mem_piece id now size = record {
  id = id;
  size = size;
  bytes = none;
  written_blocks = replicate ((size + 16383) / block_size) false;
  complete = false;
  accessed = now;
  accounted = 0;
  done = false;
  notify = 0;
}

-- Closes the armed channel and arms a fresh one.
abbrev pub wake : MemPiece → MemPiece
wake m = record m { notify = suc m.notify }

unfoldable pub release_and_size : MemPiece → MemPiece × ℕ
release_and_size m = (
  wake (record m { accounted = 0; bytes = none; written_blocks = []; complete = false }),
  m.accounted,
)

abbrev pub is_resident : Option (List ℕ) → Bool
is_resident none = false
is_resident (some _) = true

-- `data[off:]` is copied into a buffer of `len` bytes; what is copied is returned.
abbrev read_bytes : ℕ → ℕ → List ℕ → List ℕ × Option IoErr
read_bytes len off b =
    let out = take len (drop off b) in
    if leb (length b) off
    then ([], some eof)
    else (out, if ltb (length out) len then some eof else none)

abbrev read_at_of : Option (List ℕ) → MemPiece → ℕ → ℕ → ℕ → MemPiece × List ℕ × Option IoErr
read_at_of none m now len off = (m, [], some piece_evicted)
read_at_of (some b) m now len off =
    let r = read_bytes len off b in (record m { accessed = now }, r.0, r.1)

unfoldable pub read_at : MemPiece → ℕ → ℕ → ℕ → MemPiece × List ℕ × Option IoErr
read_at m now len off = read_at_of m.bytes m now len off

-- `copy(data[off:], p)` of the first `n` bytes of `p`
abbrev pub splice : ℕ → ℕ → List ℕ → List ℕ → List ℕ
splice off n p b = take off b ++ (take n p ++ drop (off + n) b)

-- The loop `for i := startBlock; i <= endBlock && i < len(writtenBlocks); i++`, over its rounds.
unfoldable pub mark_blocks : ℕ → ℕ → List Bool → List Bool
mark_blocks zero i bs = bs
mark_blocks (suc n) i bs =
    let rest = mark_blocks n (i + 1) (set bs i true) in if ltb i (length bs) then rest else bs

-- The buffer that a write works on: `make([]byte, m.size)` if there is none.
abbrev pub buffer : MemPiece → Option (List ℕ) → List ℕ
buffer m none = replicate m.size 0
buffer m (some b) = b

abbrev pub write_into : MemPiece → ℕ → List ℕ → List ℕ → ℕ → MemPiece × ℕ × Option IoErr
write_into m now b p off =
    let m' = record m { accessed = now; bytes = some b } in
    let n = min (length p) (length b - off) in
    let start_block = off / block_size in
    let end_block = (off + n - 1) / block_size in
    if leb (length b) off then (m', 0, some short_write) else (
      wake (record m' {
        bytes = some (splice off n p b);
        accounted = m.accounted + n;
        written_blocks = mark_blocks (suc end_block - start_block) start_block m.written_blocks;
      }),
      n,
      if ltb n (length p) then some short_write else none,
    )

unfoldable pub write_at : MemPiece → ℕ → List ℕ → ℕ → MemPiece × ℕ × Option IoErr
write_at m now p off = write_into m now (buffer m m.bytes) p off

abbrev pub all_marked : List Bool → List Bool
all_marked bs = replicate (length bs) true

-- Wakes the waiters and closes `doneCh`, once.
unfoldable pub mark_complete : MemPiece → ℕ → MemPiece
mark_complete m now = wake (record m {
  complete = true;
  written_blocks = if is_resident m.bytes then all_marked m.written_blocks else m.written_blocks;
  accessed = now;
  done = true;
})

unfoldable pub is_complete : MemPiece → Bool
is_complete m = m.complete && is_resident m.bytes

-- The loop over `startBlock ..= endBlock` that stops at an unwritten block.
unfoldable pub all_written : ℕ → ℕ → List Bool → Bool
all_written zero i bs = true
all_written (suc n) i bs =
    let rest = all_written n (i + 1) bs in if not (get_or bs i false) then false else rest

unfoldable pub has_range : MemPiece → ℕ → ℕ → Bool
has_range m off len =
    let start_block = off / block_size in
    let end_block = (off + len - 1) / block_size in
    if m.complete && is_resident m.bytes
    then true
    else (if not (is_resident m.bytes)
        then false
        else (if leb (length m.written_blocks) end_block
            then false
            else all_written (suc end_block - start_block) start_block m.written_blocks))

-- `none` for ready, or the channel to wait on.
unfoldable pub wait_range : MemPiece → ℕ → ℕ → Option ℕ
wait_range m off len = if has_range m off len then none else some m.notify

unfoldable pub has_data : MemPiece → Bool
has_data m = is_resident m.bytes

unfoldable pub snapshot : MemPiece → Option (List ℕ)
snapshot m = if not m.complete || not (is_resident m.bytes) then none else m.bytes

unfoldable pub load_complete : MemPiece → ℕ → List ℕ → MemPiece × ℕ
load_complete m now src = if is_resident m.bytes then (m, 0) else (
  wake (record m {
    bytes = some src;
    written_blocks = all_marked m.written_blocks;
    accounted = m.accounted + length src;
    complete = true;
    accessed = now;
    done = true;
  }),
  length src,
)
