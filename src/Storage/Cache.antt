-- ===== src/Storage/Cache.antt =====
-- storage/cache.go: the RAM cache of one torrent. A method on `*Cache` returns the new record; where
-- the source calls `c.store.addGlobalFilled(n)` it also returns `n`, for the caller to add to the
-- global account if the cache belongs to a store. The cache's mutex makes each method one step.
--
-- `geometry` holds `pieceLen` and `pieceCount`, `has_torrent` says that `torrent` is set. `next_id`
-- numbers the pieces that are made, as `new` gives fresh addresses. The calls of
-- `UpdateCompletion`, which only ask the client to look at a piece again, are left out.
pub mod Candidates
pub mod Evict
pub mod EvictOne
pub mod Accounting
use torrent_go.Prelude.{
  ℕ, zero, suc, ◌+◌, ◌-◌, ◌*◌, ◌/◌, Bool, true, false, not, ◌&&◌, ◌||◌, ltb, leb, ◌==◌,
  if◌then◌else◌, Option, none, some, List, [], ◌∷◌, length,
}
use torrent_go.Prelude.Int.{ℤ, pos, ◌+ℤ◌, ◌-ℤ◌, leb_ℤ}
use torrent_go.Prelude.Assoc.{lookup, insert, erase, total}
use torrent_go.Storage.MemPiece.{
  MemPiece, new_mem_piece, release_and_size, is_complete, has_data, snapshot, load_complete,
}
use torrent_go.Storage.Disk.{
  DiskBacking, DiskError, has, have_count, write_piece, read_piece, clear,
}
use torrent_go.Storage.Window.{Reader, Geometry, reader_windows}

pub record Cache : Type 0 where
  pub pieces : List (ℕ × MemPiece)
  pub readers : List Reader
  pub capacity : ℕ
  pub filled : ℤ
  pub geometry : Geometry
  pub total_size : ℕ
  pub has_torrent : Bool
  pub closed : Bool
  pub has_store : Bool
  pub disk : Option DiskBacking
  pub next_id : ℕ

unfoldable pub new_cache : ℕ → ℕ → ℕ → Cache
new_cache capacity piece_len piece_count = record {
  pieces = [];
  readers = [];
  capacity = capacity;
  filled = pos 0;
  geometry = record { piece_len = piece_len; piece_count = piece_count };
  total_size = 0;
  has_torrent = false;
  closed = false;
  has_store = false;
  disk = none;
  next_id = 0;
}

-- The size of piece `index`, from `Cache.Piece`; `info_length` is `p.Info.Length` (`none` without an
-- info). A total below the start of the last piece makes the size negative in the source, 0 here.
unfoldable pub piece_size : Cache → ℕ → Option ℕ → ℕ
piece_size c index info_length =
    let l = c.geometry.piece_len in
    if suc index == c.geometry.piece_count
    then if ltb 0 c.total_size then c.total_size - index * l else (elim info_length [
      | none ↦ l
      | some total_len ↦ if ltb 0 total_len then total_len - index * l else l
    ])
    else l

-- Returns the bytes that are given back to the global account.
unfoldable pub close : Cache → Cache × ℕ
close c = (
  record c { closed = true; pieces = []; filled = pos 0 },
  total (λ mp. (release_and_size mp).1) c.pieces,
)

unfoldable pub disk_bytes : Cache → ℕ
disk_bytes c = elim c.disk [ none ↦ 0 | some d ↦ have_count d * c.geometry.piece_len ]

abbrev pub found_or_new : Option MemPiece → Cache → ℕ → ℕ → ℕ → Cache × MemPiece
found_or_new (some mp) c now idx size = (c, mp)
found_or_new none c now idx size =
    let mp = new_mem_piece c.next_id now size in
    (record c { pieces = insert idx mp c.pieces; next_id = suc c.next_id }, mp)

-- A closed cache hands out a detached piece.
unfoldable pub get_or_create : Cache → ℕ → ℕ → ℕ → Cache × MemPiece
get_or_create c now idx size =
    if c.closed
    then (record c { next_id = suc c.next_id }, new_mem_piece c.next_id now size)
    else found_or_new (lookup idx c.pieces) c now idx size

-- `mp.ReleaseAndSize()`, `c.filled -= size` and `delete(c.pieces, idx)`, for the piece at `idx`.
abbrev drop_found : Option MemPiece → Cache → ℕ → Cache × ℕ
drop_found none c idx = (c, 0)
drop_found (some mp) c idx =
    let size = (release_and_size mp).1 in
    (record c { filled = c.filled -ℤ pos size; pieces = erase idx c.pieces }, size)

unfoldable pub drop_piece : Cache → ℕ → Cache × ℕ
drop_piece c idx = drop_found (lookup idx c.pieces) c idx

unfoldable pub mark_not_complete : Cache → ℕ → Cache × ℕ
mark_not_complete c idx = if c.closed then (c, 0) else drop_piece c idx

unfoldable pub update_filled : Cache → ℕ → Cache × ℕ
update_filled c n = if c.closed then (c, 0) else (record c { filled = c.filled +ℤ pos n }, n)

unfoldable pub register_reader : Cache → Reader → Bool → Cache
register_reader c r reader_has_torrent = record c {
  readers = r ∷ c.readers;
  has_torrent = c.has_torrent || reader_has_torrent;
}

unfoldable pub remove_reader : ℕ → List Reader → List Reader
remove_reader id [] = []
remove_reader id (r ∷ rs) = if r.id == id then remove_reader id rs else r ∷ remove_reader id rs

unfoldable pub unregister_reader : Cache → Reader → Cache
unregister_reader c r = record c { readers = remove_reader r.id c.readers }

abbrev pub protected : Cache → ℕ → Bool
protected c = reader_windows c.geometry c.readers

-- A piece that is complete and outside every reader's windows.
abbrev pub evictable : (ℕ → Bool) → ℕ × MemPiece → Bool
evictable safe e = not (safe e.0) && is_complete e.1

unfoldable pub candidates : (ℕ → Bool) → List (ℕ × MemPiece) → List (ℕ × MemPiece)
candidates safe [] = []
candidates safe (e ∷ es) = if evictable safe e then e ∷ candidates safe es else candidates safe es

-- `sort.Slice` by last access. Pieces of one access time come in the order of the list; in the
-- source their order is not determined.
unfoldable pub insert_by_access : ℕ × MemPiece → List (ℕ × MemPiece) → List (ℕ × MemPiece)
insert_by_access e [] = e ∷ []
insert_by_access e (f ∷ fs) =
    if leb e.1.accessed f.1.accessed then e ∷ f ∷ fs else f ∷ insert_by_access e fs

unfoldable pub sort_by_access : List (ℕ × MemPiece) → List (ℕ × MemPiece)
sort_by_access [] = []
sort_by_access (e ∷ es) = insert_by_access e (sort_by_access es)

-- The loop of `cleanPieces`; it returns the sum of what it gives back to the global account.
unfoldable pub clean_loop : List (ℕ × MemPiece) → Cache → Cache × ℕ
clean_loop [] c = (c, 0)
clean_loop (e ∷ es) c =
    let dropped = drop_piece c e.0 in
    let rest = clean_loop es dropped.0 in
    if leb_ℤ c.filled (pos c.capacity) then (c, 0) else (rest.0, dropped.1 + rest.1)

unfoldable pub clean_pieces : Cache → Cache × ℕ
clean_pieces c = clean_loop (sort_by_access (candidates (protected c) c.pieces)) c

unfoldable pub evict_if_needed : Cache → Cache × ℕ
evict_if_needed c = if leb_ℤ c.filled (pos c.capacity) then (c, 0) else clean_pieces c

unfoldable pub collect_evict_candidates : Cache → List (ℕ × MemPiece)
collect_evict_candidates c = if c.closed then [] else candidates (protected c) c.pieces

-- Is the piece of the global pass still the one at `idx`, complete and unprotected? One address is
-- one piece, so `mp.IsComplete()` reads the piece at `idx` as it is now.
abbrev still_evictable : Option MemPiece → Cache → ℕ → MemPiece → Bool
still_evictable none c idx mp = false
still_evictable (some cur) c idx mp = (cur.id == mp.id && is_complete cur) && not (protected c idx)

unfoldable pub evict_piece : Cache → ℕ → MemPiece → Cache × ℕ
evict_piece c idx mp =
    if c.closed
    then (c, 0)
    else (if still_evictable (lookup idx c.pieces) c idx mp then drop_piece c idx else (c, 0))
