-- ===== src/Storage/Reader.antt =====
-- storage/reader.go: `Seek`, `Close` and `Read`, which waits for the bytes of a range piece by piece.
--
-- A reader shares its cache with other goroutines, and gives up every lock between the parts of a call.
-- A call takes what the others do at those points, as functions on the world, and how each wait ends.
-- The functions that end in `of` or take a computed value are the branches that follow it. A torrent is
-- set, as for every reader that is made. The errors of a context are one.
pub mod Slices
pub mod Shared
pub mod Worlds
pub mod Ranges
pub mod Bytes
pub mod Steady
pub mod Resident
pub mod Seek
use torrent_go.Prelude.{
  ℕ, zero, suc, ◌+◌, ◌-◌, ◌*◌, ◌/◌, ◌%◌, Bool, true, false, ◌&&◌, ◌||◌, ltb, leb, ◌==◌,
  if◌then◌else◌, min, Option, none, some, List, [], ◌∷◌, ◌++◌, length,
}
use torrent_go.Prelude.Int.{ℤ, pos, negsuc, ◌+ℤ◌}
use torrent_go.Storage.ReadClass.{PiecePriority, policy}
use torrent_go.Storage.MemPiece.{
  MemPiece, IoErr, eof, short_write, piece_evicted, has_range, is_complete, read_at,
  release_and_size,
}
use torrent_go.Storage.Window.{Reader, Geometry, file_start_piece, file_end_piece}
use torrent_go.Storage.Priority.{update_priorities}
use torrent_go.Storage.Cache.{Cache, get_or_create, unregister_reader}
use torrent_go.Storage.Piece.{put_back, hydrate_if_needed}

pub data ReadErr : Type 0 where
  reader_closed end_of_file deadline_exceeded context_error timed_out : ReadErr
  io_error : IoErr → ReadErr

-- The cache, and the reader of a call; the cache's list of readers holds the reader too.
pub record World : Type 0 where
  pub cache : Cache
  pub reader : Reader

abbrev pub replace_reader : Reader → List Reader → List Reader
replace_reader r [] = []
replace_reader r (x ∷ xs) = (if x.id == r.id then r else x) ∷ replace_reader r xs

abbrev pub with_reader : World → Reader → World
with_reader w r = record {
  cache = record w.cache { readers = replace_reader r w.cache.readers };
  reader = r;
}

-- `r.cache.UpdatePriorities` for the pieces of the reader's file.
abbrev pub file_priorities : Cache → Reader → List (ℕ × PiecePriority)
file_priorities c r =
    update_priorities c.has_torrent c.geometry c.readers (file_start_piece c.geometry r)
      (file_end_piece c.geometry r)

-- How the `select` of a wait ends.
pub data Woken : Type 0 where
  notified piece_done close_signal context_done timer : Woken

-- A round of the wait loop: what the others do before it and during the `select`, and the time.
pub record Wait : Type 0 where
  pub before : World → World
  pub during : World → World
  pub now : ℕ
  pub woken : Woken

-- A round of the read loop. `ok` says whether a read of the disk succeeds. `evicted` says that the piece
-- is released between the wait and the read; a write there does not change a range that is ready.
pub record Round : Type 0 where
  pub before : World → World
  pub now : ℕ
  pub read_now : ℕ
  pub ok : Bool
  pub waits : List Wait
  pub evicted : Bool

-- What a round reads: `len` bytes at `off` of the piece `idx`, which has `size` bytes.
pub record Span : Type 0 where
  pub idx : ℕ
  pub size : ℕ
  pub off : ℕ
  pub len : ℕ

-- `total` is `torrent.Length()`. A length of 0 stands for no bytes remaining in the piece.
unfoldable pub span : Geometry → ℕ → ℕ → ℕ → Span
span g total abs_offset want =
    let idx = abs_offset / g.piece_len in
    let off = abs_offset % g.piece_len in
    let size = if suc idx == g.piece_count then total - idx * g.piece_len else g.piece_len in
    record { idx = idx; size = size; off = off; len = min want (size - off) }

pub data Waited : Type 0 where
  ready : World → MemPiece → Waited
  stopped : World → ReadErr → Waited
  waiting : World → Waited

-- min of the policy's budget and the time until the deadline.
abbrev pub budget : Reader → ℕ → Option ℕ → ℕ
budget r now none = (policy r.class).wait_budget
budget r now (some deadline) = min (deadline - now) (policy r.class).wait_budget

abbrev pub after_select : Woken → World → Waited → Waited
after_select notified w rest = if w.reader.closed then stopped w reader_closed else rest
after_select piece_done w rest = if w.reader.closed then stopped w reader_closed else rest
after_select close_signal w rest = stopped w reader_closed
after_select context_done w rest = stopped w context_error
after_select timer w rest = stopped w timed_out

-- `waiting` if the waits that are given end before the wait does.
unfoldable pub wait : Span → List Wait → World → Waited
wait s [] w = waiting w
wait s (x ∷ xs) w =
    let w₀ = x.before w in
    let got = get_or_create w₀.cache x.now s.idx s.size in
    let w₁ = record w₀ { cache = got.0 } in
    let rest = wait s xs (x.during w₁) in
    if has_range got.1 s.off s.len
    then ready w₁ got.1
    else (if leb (budget w₁.reader x.now w₁.reader.wait_deadline) 0
        then stopped w₁ deadline_exceeded
        else after_select x.woken (x.during w₁) rest)

pub data Status : Type 0 where
  returned : Option ReadErr → Status
  unfinished : Status

-- The bytes that are read, the calls of `SetPriority`, and the bytes that were reloaded from disk, which
-- are added to the global account.
pub record Result : Type 0 where
  pub world : World
  pub content : List ℕ
  pub calls : List (ℕ × PiecePriority)
  pub loaded : ℕ
  pub status : Status

abbrev pub stop : World → Status → Result
stop w s = record { world = w; content = []; calls = []; loaded = 0; status = s }

-- A round's part of the result, before the rest of the loop.
abbrev pub joined : List ℕ → List (ℕ × PiecePriority) → ℕ → Result → Result
joined out calls n r = record r {
  content = out ++ r.content;
  calls = calls ++ r.calls;
  loaded = n + r.loaded;
}

-- The piece of a round, made or reloaded.
pub record Fetched : Type 0 where
  pub world : World
  pub calls : List (ℕ × PiecePriority)
  pub loaded : ℕ

abbrev pub same_piece : Option ℕ → ℕ → Bool
same_piece none idx = false
same_piece (some last) idx = last == idx

abbrev pub turn_to : World → ℕ → World × List (ℕ × PiecePriority)
turn_to w idx =
    let w' = with_reader w (record w.reader { last_piece_idx = some idx }) in
    if same_piece w.reader.last_piece_idx idx
    then (w, [])
    else (w', file_priorities w'.cache w'.reader)

unfoldable pub fetch : Round → Span → World → Fetched
fetch r s w =
    let got = get_or_create w.cache r.now s.idx s.size in
    let h = hydrate_if_needed r.ok got.0 r.now s.idx got.1 s.size in
    let w₁ = record w { cache = h.cache } in
    let first =
      if is_complete h.piece then [] else (s.idx, (policy w.reader.class).cur_prio) ∷ [] in
    let turned = turn_to w₁ s.idx in
    if w₁.reader.closed
    then record { world = w₁; calls = first; loaded = h.loaded }
    else record { world = turned.0; calls = first ++ turned.1; loaded = h.loaded }

abbrev pub at_pos : World → ℕ → World
at_pos w p = with_reader w (record w.reader { pos = p })

-- What follows a read of the bytes `out`; no byte ends the loop.
abbrev pub go_on : (ℕ → ℕ → World → Result) → ℕ → ℕ → World → List ℕ → Result
go_on next want p w [] = stop w (returned none)
go_on next want p w (b ∷ bs) =
    let n = length (b ∷ bs) in joined (b ∷ bs) [] 0 (next (want - n) (p + n) (at_pos w (p + n)))

-- An evicted piece is tried again.
abbrev pub after_read : (ℕ → ℕ → World → Result) → ℕ → ℕ → World → List ℕ → Option IoErr → Result
after_read next want p w out none = go_on next want p w out
after_read next want p w out (some eof) = go_on next want p w out
after_read next want p w out (some piece_evicted) = next want p w
after_read next want p w out (some short_write) =
    joined out [] 0 (stop (at_pos w (p + length out)) (returned (some (io_error short_write))))

abbrev pub after_wait : (ℕ → ℕ → World → Result) → Round → Span → ℕ → ℕ → Waited → Result
after_wait next r s want p (waiting w) = stop w unfinished
after_wait next r s want p (stopped w e) = stop w (returned (some e))
after_wait next r s want p (ready w mp) =
    let got = read_at (if r.evicted then (release_and_size mp).0 else mp) r.read_now s.len s.off in
    let w' = if r.evicted then w else record w { cache = put_back w.cache s.idx got.0 } in
    after_read next want p w' got.1 got.2

abbrev pub after_fetch : (ℕ → ℕ → World → Result) → Round → Span → ℕ → ℕ → Fetched → Result
after_fetch next r s want p f = joined [] f.calls f.loaded (
    if f.world.reader.closed
    then stop f.world (returned (some reader_closed))
    else after_wait next r s want p (wait s r.waits f.world))

-- The loop of `Read`: `want` bytes at `p` of the file are still to be read. It is `unfinished` if the
-- rounds that are given end before it does.
unfoldable pub read_loop : List Round → ℕ → ℕ → ℕ → World → Result
read_loop [] total want p w = stop w (if leb want 0 then returned none else unfinished)
read_loop (r ∷ rs) total want p w =
    let w₀ = r.before w in
    let s = span w₀.cache.geometry total (w₀.reader.file_offset + p) want in
    let next = λ (n q : ℕ) (v : World). read_loop rs total n q v in
    let round = after_fetch next r s want p (fetch r s w₀) in
    if leb want 0 || leb s.len 0 then stop w (returned none) else round

-- Reading nothing at the end of the file is an error.
abbrev pub at_end : Bool → Result → Result
at_end true r = record r { status = returned (some end_of_file) }
at_end false r = r

-- `p` is the position that the call starts from.
abbrev pub finish : ℕ → ℕ → Status → Result → Result
finish file_size p unfinished r = r
finish file_size p (returned (some e)) r = r
finish file_size p (returned none) r =
    at_end (leb (length r.content) 0 && leb file_size (p + length r.content)) r

-- A buffer of `want` bytes is filled.
unfoldable pub read : List Round → ℕ → ℕ → World → Result
read rounds total want w =
    let r = w.reader in
    let loop = read_loop rounds total (min want (r.file_size - r.pos)) r.pos w in
    if r.closed
    then stop w (returned (some reader_closed))
    else (if leb r.file_size r.pos
        then stop w (returned (some end_of_file))
        else (if leb (min want (r.file_size - r.pos)) 0
            then stop w (returned none)
            else finish r.file_size r.pos loop.status loop))

pub data SeekErr : Type 0 where
  seek_closed invalid_whence negative_position : SeekErr

-- The new position, or an error.
pub record Sought : Type 0 where
  pub world : World
  pub calls : List (ℕ × PiecePriority)
  pub err : Option SeekErr

abbrev seek_to : World → ℤ → Sought
seek_to w (negsuc n) = record { world = w; calls = []; err = some negative_position }
seek_to w (pos n) =
    let w' = at_pos w n in
    record { world = w'; calls = file_priorities w'.cache w'.reader; err = none }

abbrev seek_whence : World → ℤ → ℕ → Sought
seek_whence w offset zero = seek_to w offset
seek_whence w offset (suc zero) = seek_to w (pos w.reader.pos +ℤ offset)
seek_whence w offset (suc (suc zero)) = seek_to w (pos w.reader.file_size +ℤ offset)
seek_whence w offset (suc (suc (suc n))) = record {
  world = w;
  calls = [];
  err = some invalid_whence;
}

unfoldable pub seek : World → ℤ → ℕ → Sought
seek w offset whence =
    if w.reader.closed
    then record { world = w; calls = []; err = some seek_closed }
    else seek_whence w offset whence

unfoldable pub close_reader : World → World × List (ℕ × PiecePriority)
close_reader w =
    let w' = with_reader w (record w.reader { closed = true }) in
    let c = unregister_reader w'.cache w'.reader in
    if w.reader.closed then (w, []) else (record w' { cache = c }, file_priorities c w'.reader)
