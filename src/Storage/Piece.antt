-- ===== src/Storage/Piece.antt =====
-- storage/piece.go and the disk-mode half of storage/cache.go: what the torrent client calls on a
-- piece. A call is one step: it is modelled as if no other goroutine came between its parts.
--
-- A call takes the cache of its torrent. What it adds to the global account is returned, as in
-- `Cache`. `ok` arguments say whether the system calls of the disk backing succeed.
pub mod Parts
pub mod Balance
pub mod Disk
use torrent_go.Prelude.{
  ℕ, zero, suc, ◌+◌, ◌-◌, ◌*◌, ◌/◌, Bool, true, false, not, ◌&&◌, ◌||◌, ltb, leb, ◌==◌,
  if◌then◌else◌, Option, none, some, List, [], ◌∷◌, length, min,
}
use torrent_go.Prelude.Assoc.{lookup, insert}
use torrent_go.Storage.MemPiece.{
  MemPiece, IoErr, write_at, mark_complete, is_complete, has_data, snapshot, load_complete,
}
use torrent_go.Storage.Disk.{DiskBacking, DiskError, has, write_piece, read_piece, clear}
use torrent_go.Storage.Cache.{Cache, get_or_create, mark_not_complete, update_filled}

-- The piece's new state, in the map unless it is detached.
abbrev pub put_back : Cache → ℕ → MemPiece → Cache
put_back c idx mp = if c.closed then c else record c { pieces = insert idx mp c.pieces }

abbrev pub is_ok : {E : Type 0} → Option E → Bool
is_ok none = true
is_ok (some _) = false

-- The result of `Piece.WriteAt`, with the bytes that were added to the account.
pub record Written : Type 0 where
  pub cache : Cache
  pub added : ℕ
  pub n : ℕ
  pub err : Option IoErr

unfoldable pub write : Cache → ℕ → ℕ → ℕ → List ℕ → ℕ → Written
write c now idx size p off =
    let got = get_or_create c now idx size in
    let w = write_at got.1 now p off in
    let c' = put_back got.0 idx w.0 in
    let u = if is_ok w.2 && ltb 0 w.1 then update_filled c' w.1 else (c', 0) in
    record { cache = u.0; added = u.1; n = w.1; err = w.2 }

abbrev persist_snapshot : Option (List ℕ) → Bool → Bool → Cache → DiskBacking → ℕ → Cache
persist_snapshot none ok_data ok_map c d idx = c
persist_snapshot (some bytes) ok_data ok_map c d idx = record c {
  disk = some (write_piece ok_data ok_map d idx bytes).0;
}

abbrev persist_to : Option DiskBacking → Bool → Bool → Cache → ℕ → MemPiece → Cache
persist_to none ok_data ok_map c idx mp = c
persist_to (some d) ok_data ok_map c idx mp =
    if has d idx then c else persist_snapshot (snapshot mp) ok_data ok_map c d idx

-- A failed write is only logged.
unfoldable pub persist_if_disk : Bool → Bool → Cache → ℕ → MemPiece → Cache
persist_if_disk ok_data ok_map c idx mp = persist_to c.disk ok_data ok_map c idx mp

-- `Piece.MarkComplete`, up to the eviction that follows it (`Store.evict_after_complete`).
unfoldable pub complete : Bool → Bool → Cache → ℕ → ℕ → ℕ → Cache
complete ok_data ok_map c now idx size =
    let got = get_or_create c now idx size in
    let mp = mark_complete got.1 now in
    persist_if_disk ok_data ok_map (put_back got.0 idx mp) idx mp

abbrev clear_of : Bool → Option DiskBacking → ℕ → Option DiskBacking
clear_of ok_map none idx = none
clear_of ok_map (some d) idx = some (clear ok_map d idx)

unfoldable pub clear_disk : Bool → Cache → ℕ → Cache
clear_disk ok_map c idx = record c { disk = clear_of ok_map c.disk idx }

-- `Piece.MarkNotComplete`, with the bytes that it gives back.
unfoldable pub uncomplete : Bool → Cache → ℕ → Cache × ℕ
uncomplete ok_map c idx = mark_not_complete (clear_disk ok_map c idx) idx

abbrev resident_complete : Option MemPiece → Bool
resident_complete none = false
resident_complete (some mp) = is_complete mp

abbrev on_disk : Option DiskBacking → ℕ → Bool
on_disk none idx = false
on_disk (some d) idx = has d idx

-- `Piece.Completion`
unfoldable pub piece_complete : Cache → ℕ → Bool
piece_complete c idx = if resident_complete (lookup idx c.pieces) then true else on_disk c.disk idx

-- A reload from disk: the cache, the piece, and the bytes that were installed.
pub record Hydrated : Type 0 where
  pub cache : Cache
  pub piece : MemPiece
  pub loaded : ℕ

abbrev pub load_read : List ℕ × Option DiskError → Cache → ℕ → ℕ → MemPiece → ℕ → Hydrated
load_read got c now idx mp size =
    let l = load_complete mp now got.0 in
    let u = if ltb 0 l.1 then (update_filled (put_back c idx l.0) l.1).0 else put_back c idx l.0 in
    if not (is_ok got.1) || not (length got.0 == size)
    then record { cache = c; piece = mp; loaded = 0 }
    else record { cache = u; piece = l.0; loaded = l.1 }

abbrev pub hydrate_from : Option DiskBacking → Bool → Cache → ℕ → ℕ → MemPiece → ℕ → Hydrated
hydrate_from none ok c now idx mp size = record { cache = c; piece = mp; loaded = 0 }
hydrate_from (some d) ok c now idx mp size =
    if has_data mp || not (has d idx)
    then record { cache = c; piece = mp; loaded = 0 }
    else load_read (read_piece ok d idx size) c now idx mp size

-- `hydrateIfNeeded`, up to the eviction that follows a reload of at least one byte, which
-- `Store.PieceRead` runs. `Cache.Close` closes the data file, which then cannot be read.
unfoldable pub hydrate_if_needed : Bool → Cache → ℕ → ℕ → MemPiece → ℕ → Hydrated
hydrate_if_needed ok c now idx mp size = hydrate_from c.disk (ok && not c.closed) c now idx mp size

-- The loop of `HasByteRange`, over `n` pieces from `idx` on.
unfoldable pub all_complete : ℕ → ℕ → List (ℕ × MemPiece) → Bool
all_complete zero idx pieces = true
all_complete (suc n) idx pieces =
    let rest = all_complete n (idx + 1) pieces in
    if resident_complete (lookup idx pieces) then rest else false

-- `start` and `length` are not negative. The loop runs while `idx <= endPiece` and
-- `idx < pieceCount`.
unfoldable pub has_byte_range : Cache → ℕ → ℕ → ℕ → Bool
has_byte_range c file_offset start len =
    let l = c.geometry.piece_len in
    let start_piece = (file_offset + start) / l in
    let end_piece = (file_offset + start + len - 1) / l in
    if leb len 0
    then true
    else (if c.closed || leb l 0
        then false
        else all_complete (min (suc end_piece) c.geometry.piece_count - start_piece) start_piece
            c.pieces)
