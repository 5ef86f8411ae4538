-- ===== src/Storage/Store/PieceRead.antt =====
-- storage/piece.go `Piece.ReadAt`: a read of a piece, with the reload from disk and the eviction that
-- the reload sets off.
--
-- A call is one step, and `ok` says whether the read of the data file succeeds. A piece whose torrent
-- has no cache in the store any more stands on a closed one.
use torrent_go.Prelude.{ℕ, Bool, ltb, ◌==◌, if◌then◌else◌, Option, none, some, List}
use torrent_go.Prelude.Assoc.{lookup, insert}
use torrent_go.Storage.Cache.{Cache, get_or_create}
use torrent_go.Storage.MemPiece.{MemPiece, IoErr, new_mem_piece, read_at, release_and_size}
use torrent_go.Storage.Piece.{put_back, Hydrated, hydrate_if_needed}
use torrent_go.Storage.Store.{Store, add_global_filled, evict_after_complete}

-- The store, the bytes and the error after a read.
pub record ReadOut : Type 0 where
  pub store : Store
  pub content : List ℕ
  pub err : Option IoErr

-- The cache after a reload, whose bytes are added to the global account.
abbrev pub take_in : Store → ℕ → Hydrated → Store
take_in s hash h =
    let s' = record s { caches = insert hash h.cache s.caches } in
    if h.cache.has_store then add_global_filled s' h.loaded else s'

-- `hydrateIfNeeded`, with its eviction.
abbrev pub reloaded : Store → ℕ → Hydrated → Store
reloaded s hash h =
    if ltb 0 h.loaded then evict_after_complete (take_in s hash h) hash else take_in s hash h

-- What the pointer to a piece points to: the piece of the map, or one that was evicted and released.
abbrev pub pointed : Option MemPiece → MemPiece → MemPiece
pointed none mp = (release_and_size mp).0
pointed (some cur) mp = if cur.id == mp.id then cur else (release_and_size mp).0

abbrev pub piece_now : Option Cache → ℕ → MemPiece → MemPiece
piece_now none idx mp = mp
piece_now (some c) idx mp = if c.closed then mp else pointed (lookup idx c.pieces) mp

-- The read moves the time of access of a piece that is in the map.
abbrev pub put_read : Option Cache → Store → ℕ → ℕ → MemPiece → Store
put_read none s hash idx mp = s
put_read (some c) s hash idx mp = elim (lookup idx c.pieces) [
  | none ↦ s
  | some cur ↦
      if cur.id == mp.id then record s { caches = insert hash (put_back c idx mp) s.caches } else s
]

abbrev pub read_resident : Store → ℕ → ℕ → ℕ → ℕ → ℕ → MemPiece → ReadOut
read_resident s hash now idx len off mp =
    let r = read_at (piece_now (lookup hash s.caches) idx mp) now len off in
    record { store = put_read (lookup hash s.caches) s hash idx r.0; content = r.1; err = r.2 }

abbrev pub read_of : Option Cache → Bool → Store → ℕ → ℕ → ℕ → ℕ → ℕ → ℕ → ReadOut
read_of none ok s hash now idx size len off =
    let r = read_at (new_mem_piece 0 now size) now len off in
    record { store = s; content = r.1; err = r.2 }
read_of (some c) ok s hash now idx size len off =
    let got = get_or_create c now idx size in
    let h = hydrate_if_needed ok got.0 now idx got.1 size in
    read_resident (reloaded s hash h) hash now idx len off h.piece

unfoldable pub read_piece_at : Bool → Store → ℕ → ℕ → ℕ → ℕ → ℕ → ℕ → ReadOut
read_piece_at ok s hash now idx size len off =
    read_of (lookup hash s.caches) ok s hash now idx size len off
