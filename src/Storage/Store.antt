-- ===== src/Storage/Store.antt =====
-- storage/storage.go: the caches of all torrents and the global account of their resident bytes.
--
-- A torrent's hash is a number. `download_dir` says that a download directory is configured. Opening
-- the files of a disk-mode torrent is left to the environment: a call takes the `DiskBacking` that
-- `newDiskBacking` returns, `none` where it fails. `globalFilled` is read and added to atomically,
-- and `evictMu` lets one eviction pass run at a time, so each method is one step.
pub mod Balance
pub mod EvictLoop
pub mod Evict
pub mod PieceRead
pub mod Reloaded
pub mod ReadBack
use torrent_go.Prelude.{
  ℕ, zero, suc, ◌+◌, ◌*◌, ◌/◌, ◌^◌, Bool, true, false, not, ◌&&◌, ◌||◌, ltb, leb, if◌then◌else◌,
  Option, none, some, List, [], ◌∷◌, ◌++◌, map,
}
use torrent_go.Prelude.Int.{ℤ, pos, ◌+ℤ◌, ◌-ℤ◌, leb_ℤ}
use torrent_go.Prelude.Assoc.{lookup, insert, erase}
use torrent_go.Prelude.Sort.{sort_by}
use torrent_go.Storage.ReadClass.{playback_readahead_bytes}
use torrent_go.Storage.MemPiece.{MemPiece}
use torrent_go.Storage.Disk.{DiskBacking}
use torrent_go.Storage.Cache
use torrent_go.Storage.Cache.{
  Cache, new_cache, close, collect_evict_candidates, evict_piece, evict_if_needed,
}

pub record Store : Type 0 where
  pub caches : List (ℕ × Cache)
  pub global_filled : ℤ
  pub global_capacity : ℕ
  pub download_dir : Bool
  pub disk_modes : List (ℕ × Bool)

abbrev pub per_stream_window_bytes : ℕ
per_stream_window_bytes = playback_readahead_bytes + 16 * 2 ^ 20

abbrev pub min_global_capacity : ℕ
min_global_capacity = per_stream_window_bytes

abbrev clamp_capacity : ℕ → ℕ
clamp_capacity bytes = if ltb bytes min_global_capacity then min_global_capacity else bytes

unfoldable pub new_storage : ℕ → Bool → Store
new_storage cache_size_bytes download_dir = record {
  caches = [];
  global_filled = pos 0;
  global_capacity = clamp_capacity cache_size_bytes;
  download_dir = download_dir;
  disk_modes = [];
}

abbrev pub add_global_filled : Store → ℕ → Store
add_global_filled s n = record s { global_filled = s.global_filled +ℤ pos n }

abbrev pub sub_global_filled : Store → ℕ → Store
sub_global_filled s n = record s { global_filled = s.global_filled -ℤ pos n }

-- A cache's new state is stored, and `n` bytes are given back if it belongs to the store.
abbrev pub give_back : Store → ℕ → Cache × ℕ → Store
give_back s hash r =
    let s' = record s { caches = insert hash r.0 s.caches } in
    if (r.0).has_store then sub_global_filled s' r.1 else s'

-- A candidate of the global pass.
pub record Candidate : Type 0 where
  pub hash : ℕ
  pub index : ℕ
  pub piece : MemPiece

abbrev pub accessed : Candidate → ℕ
accessed x = x.piece.accessed

unfoldable pub of_cache : ℕ → List (ℕ × MemPiece) → List Candidate
of_cache hash [] = []
of_cache hash (e ∷ es) = record { hash = hash; index = e.0; piece = e.1 } ∷ of_cache hash es

unfoldable pub gather : List (ℕ × Cache) → List Candidate
gather [] = []
gather ((hash, c) ∷ cs) = of_cache hash (collect_evict_candidates c) ++ gather cs

abbrev evict_found : Option Cache → Store → Candidate → Store
evict_found none s x = s
evict_found (some c) s x = give_back s x.hash (evict_piece c x.index x.piece)

-- `cd.c.evictPiece(cd.idx, cd.mp)`
unfoldable pub evict_at : Store → Candidate → Store
evict_at s x = evict_found (lookup x.hash s.caches) s x

abbrev pub fits : Store → Bool
fits s = leb_ℤ s.global_filled (pos s.global_capacity)

unfoldable pub evict_loop : List Candidate → Store → Store
evict_loop [] s = s
evict_loop (x ∷ xs) s = let rest = evict_loop xs (evict_at s x) in if fits s then s else rest

-- The capacity is never below its minimum, so the source's test for a capacity of 0 or less, which
-- turns eviction off, stays as it is written.
unfoldable pub evict_global_if_needed : Store → Store
evict_global_if_needed s =
    if leb s.global_capacity 0 || fits s
    then s
    else evict_loop (sort_by accessed (gather s.caches)) s

unfoldable pub set_global_capacity : Store → ℕ → Store
set_global_capacity s bytes =
    evict_global_if_needed (record s { global_capacity = clamp_capacity bytes })

unfoldable pub derived_max_streams : Store → ℕ
derived_max_streams s =
    let n = s.global_capacity / per_stream_window_bytes in if ltb n 1 then 1 else n

unfoldable pub derived_max_audio_transcoders : Store → ℕ
derived_max_audio_transcoders s =
    let n = s.global_capacity / (128 * 2 ^ 20) in if ltb n 2 then 2 else n

-- `evictAfterComplete` of the cache at `hash`.
abbrev after_complete : Option Cache → Store → ℕ → Store
after_complete none s hash = s
after_complete (some c) s hash =
    if c.has_store then evict_global_if_needed s else give_back s hash (evict_if_needed c)

unfoldable pub evict_after_complete : Store → ℕ → Store
evict_after_complete s hash = after_complete (lookup hash s.caches) s hash

abbrev is_none : Option DiskBacking → Bool
is_none none = true
is_none (some _) = false

abbrev attach_found : Option Cache → Store → ℕ → Option DiskBacking → Store
attach_found none s hash opened = s
attach_found (some c) s hash opened =
    if s.download_dir
      && (is_none c.disk && (not c.closed && ltb 0 c.geometry.piece_len))
      && not (is_none opened)
    then record s { caches = insert hash (record c { disk = opened }) s.caches }
    else s

unfoldable pub attach_disk : Store → ℕ → Option DiskBacking → Store
attach_disk s hash opened = attach_found (lookup hash s.caches) s hash opened

unfoldable pub set_mode : Store → ℕ → Bool → Option DiskBacking → Store
set_mode s hash disk opened =
    let s' = record s { disk_modes = insert hash disk s.disk_modes } in
    if disk then attach_disk s' hash opened else s'

abbrev mode_of : Option Bool → Bool
mode_of none = false
mode_of (some b) = b

-- `pieces_bytes` is the length of `info.Pieces`, 20 bytes a piece.
unfoldable pub open_torrent : Store → ℕ → ℕ → ℕ → ℕ → Option DiskBacking → Store
open_torrent s hash pieces_bytes piece_length total_length opened =
    let c = record (new_cache s.global_capacity piece_length (pieces_bytes / 20)) {
      has_store = true;
      total_size = total_length;
      disk = if mode_of (lookup hash s.disk_modes) && s.download_dir then opened else none;
    } in
    record s { caches = insert hash c s.caches }

abbrev delete_found : Option Cache → Store → ℕ → Store
delete_found none s hash = s
delete_found (some c) s hash =
    let s' = record s { caches = erase hash s.caches } in
    if c.has_store then sub_global_filled s' (close c).1 else s'

unfoldable pub delete_cache : Store → ℕ → Store
delete_cache s hash = delete_found (lookup hash s.caches) s hash

-- The loop of `Close`, over the caches.
unfoldable pub close_all : List (ℕ × Cache) → Store → Store
close_all [] s = record s { caches = [] }
close_all ((hash, c) ∷ cs) s =
    close_all cs (if c.has_store then sub_global_filled s (close c).1 else s)

unfoldable pub close_storage : Store → Store
close_storage s = close_all s.caches s

pub record CacheInfo : Type 0 where
  pub hash : ℕ
  pub cache_bytes : ℤ
  pub disk_bytes : ℕ

unfoldable pub cache_infos : Store → List CacheInfo
cache_infos s =
    map (λ e. record { hash = e.0; cache_bytes = (e.1).filled; disk_bytes = Cache.disk_bytes e.1 })
      s.caches
