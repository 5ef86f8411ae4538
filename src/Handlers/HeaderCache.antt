-- ===== src/Handlers/HeaderCache.antt =====
-- handlers/stream.go `CachingReader`, `FileHeaders` and `preloadHeadersToCache`: the first and last
-- bytes of a file kept in memory, in front of a reader of the torrent.
--
-- A header cache is shared by the requests for one file; a call takes the headers as they are while
-- it holds their lock. `io.ReadFull` is one call of `Read`, which stops short only with
-- an error.
pub mod Part
pub mod Fill
use torrent_go.Prelude.{
  ℕ, zero, suc, ◌+◌, ◌-◌, ◌*◌, ◌^◌, Bool, true, false, ◌&&◌, ◌||◌, leb, ltb, if◌then◌else◌, min,
  Option, none, some, List, [], ◌∷◌, length, take, drop,
}
use torrent_go.Prelude.Int.{ℤ, pos, negsuc, ◌+ℤ◌}
use torrent_go.Storage.Cache.{Cache, register_reader}
use torrent_go.Storage.ReadClass.{PiecePriority, ReadClass, cold_probe}
use torrent_go.Storage.Reader.{
  World, Round, ReadErr, end_of_file, Status, returned, unfinished, Result, read, SeekErr, Sought,
  invalid_whence, negative_position, seek, close_reader,
}
use torrent_go.Storage.Window.{Reader}

pub record FileHeaders : Type 0 where
  pub start_bytes : List ℕ
  pub end_bytes : List ℕ
  pub end_offset : ℕ

abbrev pub no_headers : FileHeaders
no_headers = record { start_bytes = []; end_bytes = []; end_offset = 0 }

-- The reader below stands in the world of a call.
pub record CachingReader : Type 0 where
  pub file_size : ℕ
  pub pos : ℕ

pub data CachingErr : Type 0 where
  caching_eof : CachingErr
  seek_error : SeekErr → CachingErr
  read_error : ReadErr → CachingErr

pub data CachingStatus : Type 0 where
  done : Option CachingErr → CachingStatus
  running : CachingStatus

pub record CachingResult : Type 0 where
  pub reader : CachingReader
  pub world : World
  pub content : List ℕ
  pub status : CachingStatus

abbrev seek_new : CachingReader → ℤ → CachingReader × Option SeekErr
seek_new cr (negsuc n) = (cr, some negative_position)
seek_new cr (pos n) = (record cr { pos = n }, none)

-- `CachingReader.Seek`, which leaves the reader below alone.
unfoldable pub seek_caching : CachingReader → ℤ → ℕ → CachingReader × Option SeekErr
seek_caching cr offset zero = seek_new cr offset
seek_caching cr offset (suc zero) = seek_new cr (pos cr.pos +ℤ offset)
seek_caching cr offset (suc (suc zero)) = seek_new cr (pos cr.file_size +ℤ offset)
seek_caching cr offset (suc (suc (suc n))) = (cr, some invalid_whence)

abbrev pub status_of : Status → CachingStatus
status_of unfinished = running
status_of (returned none) = done none
status_of (returned (some e)) = done (some (read_error e))

abbrev pub advanced : CachingReader → World → List ℕ → CachingStatus → CachingResult
advanced cr w out s = record {
  reader = record cr { pos = cr.pos + length out };
  world = w;
  content = out;
  status = s;
}

abbrev pub after_seek : List Round → ℕ → ℕ → CachingReader → Option SeekErr → World → CachingResult
after_seek rounds total n cr (some e) w = advanced cr w [] (done (some (seek_error e)))
after_seek rounds total n cr none w =
    let r = read rounds total n w in advanced cr r.world r.content (status_of r.status)

-- The fallback to the reader of the torrent.
abbrev pub read_below : List Round → ℕ → ℕ → CachingReader → World → CachingResult
read_below rounds total n cr w =
    let s = seek w (pos cr.pos) 0 in after_seek rounds total n cr s.err s.world

-- A read of `n` bytes, `0 < n`, with the headers.
abbrev pub read_with :
    Option FileHeaders → List Round → ℕ → ℕ → CachingReader → World → CachingResult
read_with none rounds total n cr w = read_below rounds total n cr w
read_with (some h) rounds total n cr w =
    if leb (cr.pos + n) (length h.start_bytes)
    then advanced cr w (take n (drop cr.pos h.start_bytes)) (done none)
    else if leb h.end_offset cr.pos && leb (cr.pos + n) (h.end_offset + length h.end_bytes)
    then advanced cr w (take n (drop (cr.pos - h.end_offset) h.end_bytes)) (done none)
    else read_below rounds total n cr w

-- `CachingReader.Read` into a buffer of `want` bytes.
unfoldable pub read_caching :
    Option FileHeaders → List Round → ℕ → ℕ → CachingReader → World → CachingResult
read_caching headers rounds total want cr w =
    let n = min want (cr.file_size - cr.pos) in
    if leb cr.file_size cr.pos
    then advanced cr w [] (done (some caching_eof))
    else (if leb n 0 then advanced cr w [] (done none) else read_with headers rounds total n cr w)

-- `NewReader`
unfoldable pub new_reader : ℕ → Cache → ℕ → ℕ → ReadClass → Option ℕ → World
new_reader id c file_offset file_size class wait_deadline =
    let r : Reader = record {
      id = id;
      file_offset = file_offset;
      file_size = file_size;
      pos = 0;
      closed = false;
      last_piece_idx = none;
      class = class;
      wait_deadline = wait_deadline;
    } in
    record { cache = register_reader c r true; reader = r }

abbrev pub header_bytes : ℕ
header_bytes = 8 * 1024 * 1024

abbrev pub start_max : ℕ → ℕ
start_max file_size = min header_bytes file_size

abbrev pub end_min : ℕ → ℕ
end_min file_size = file_size - header_bytes

abbrev pub has_start : FileHeaders → ℕ → Bool
has_start h file_size = leb (start_max file_size) (length h.start_bytes)

abbrev pub has_end : FileHeaders → ℕ → Bool
has_end h file_size =
    leb file_size (end_min file_size) || leb (file_size - end_min file_size) (length h.end_bytes)

-- The longer run of bytes is kept.
abbrev pub with_start : FileHeaders → List ℕ → FileHeaders
with_start h out =
    if ltb 0 (length out) && ltb (length h.start_bytes) (length out)
    then record h { start_bytes = out }
    else h

abbrev pub with_end : FileHeaders → ℕ → List ℕ → FileHeaders
with_end h offset out =
    if ltb 0 (length out) && ltb (length h.end_bytes) (length out)
    then record h { end_bytes = out; end_offset = offset }
    else h

-- One of the two reads: the bytes, and the cache after the reader is closed.
abbrev pub after_end_seek : List Round → ℕ → ℕ → Sought → List ℕ × Cache
after_end_seek rounds total n s = elim s.err [
  | none ↦ let r = read rounds total n s.world in (r.content, (close_reader r.world).0.cache)
  | some e ↦ ([], (close_reader s.world).0.cache)
]

abbrev pub read_start : List Round → ℕ → ℕ → World → List ℕ × Cache
read_start rounds total n w =
    let r = read rounds total n w in (r.content, (close_reader r.world).0.cache)

abbrev pub read_end : List Round → ℕ → ℕ → ℕ → World → List ℕ × Cache
read_end rounds total offset n w = after_end_seek rounds total n (seek w (pos offset) 0)

-- A prefetch: the ids of its two readers, and what happens during its two reads. `between` is what
-- other requests do to the headers between the test and the first update, and between the updates.
pub record Prefetch : Type 0 where
  pub start_id : ℕ
  pub end_id : ℕ
  pub start_rounds : List Round
  pub end_rounds : List Round
  pub between_start : FileHeaders → FileHeaders
  pub between_end : FileHeaders → FileHeaders

abbrev pub prefetch_start : Prefetch → ℕ → ℕ → ℕ → Bool → FileHeaders × Cache → FileHeaders × Cache
prefetch_start p total offset size true (h, c) = (h, c)
prefetch_start p total offset size false (h, c) =
    let w = new_reader p.start_id c offset size cold_probe none in
    let got = read_start p.start_rounds total (start_max size) w in
    (with_start (p.between_start h) got.0, got.1)

abbrev pub prefetch_end : Prefetch → ℕ → ℕ → ℕ → Bool → FileHeaders × Cache → FileHeaders × Cache
prefetch_end p total offset size true (h, c) = (h, c)
prefetch_end p total offset size false (h, c) =
    let w = new_reader p.end_id c offset size cold_probe none in
    let got = read_end p.end_rounds total (end_min size) (size - end_min size) w in
    (with_end (p.between_end h) (end_min size) got.0, got.1)

-- `preloadHeadersToCache` for a file of `size` bytes at `offset` of the torrent.
unfoldable pub preload_headers : Prefetch → ℕ → ℕ → ℕ → FileHeaders × Cache → FileHeaders × Cache
preload_headers p total offset size (h, c) =
    if has_start h size && has_end h size
    then (h, c)
    else prefetch_end p total offset size (has_end h size)
        (prefetch_start p total offset size (has_start h size) (h, c))
