-- ===== src/Tests/Eviction.antt =====
-- Evictions, local and global.
use torrent_go.Prelude.{ℕ, true, false, none, some, ◌≡◌, refl, arith, ◌⊎◌, inl}
use torrent_go.Prelude.Int.{pos, ◌-ℤ◌}
use torrent_go.Prelude.Sort.{sort_by, insert_by}
use torrent_go.Storage.MemPiece.{MemPiece, is_complete, release_and_size}
use torrent_go.Storage.Window
use torrent_go.Storage.Window.{reader_windows}
use torrent_go.Storage.ReadClass
use torrent_go.Storage.Cache
use torrent_go.Storage.Cache.{Cache, protected, evict_if_needed, evict_piece}
use torrent_go.Storage.Store
use torrent_go.Storage.Store.{
  Store, fits, evict_global_if_needed, set_global_capacity, delete_cache, close_storage,
  open_torrent,
}
use torrent_go.Storage.Store.Balance.{IsExact, evict_global-IsExact}
use torrent_go.Storage.Store.EvictLoop.{piece_at, guarded}
use torrent_go.Storage.Store.Evict.{evict_global-exhausts, evict_global-spares}
use torrent_go.Tests.Data.{whole, full, watched, store_of, full-IsExact, watched-IsExact}

-- The names that a run of an eviction computes with.
program : Unit {0}
unfolding ◌-ℤ◌ Store.evict_global_if_needed Store.evict_loop Store.evict_at Store.gather
    Store.of_cache Cache.collect_evict_candidates Cache.candidates Cache.evict_piece
    Cache.drop_piece Cache.evict_if_needed Cache.clean_pieces Cache.clean_loop Cache.sort_by_access
    Cache.insert_by_access sort_by insert_by is_complete release_and_size reader_windows
    Window.protects Window.active_window ReadClass.policy ReadClass.ahead_pieces_for
program = tt

-- The older of two pieces goes, and the pass stops.
evicts_older :
    (piece_at (evict_global_if_needed (store_of full)) 9 5 ≡ none)
    × (piece_at (evict_global_if_needed (store_of full)) 9 6 ≡ some (whole 1 8))
    × ((evict_global_if_needed (store_of full)).global_filled ≡ pos 60000000)
unfolding program
evicts_older = (refl, refl, refl)

evict_global-exhausts_example :
    (fits (evict_global_if_needed (store_of full)) ≡ true)
    ⊎ ((h k : ℕ) (mp : MemPiece)
        → piece_at (evict_global_if_needed (store_of full)) h k ≡ some mp
        → (guarded (store_of full) h k ≡ true) ⊎ (is_complete mp ≡ false))
evict_global-exhausts_example = evict_global-exhausts (store_of full) full-IsExact (omega arith)

evict_global-spares_example :
    piece_at (evict_global_if_needed (store_of watched)) 9 38 ≡ some (whole 1 8)
evict_global-spares_example =
    evict_global-spares (store_of watched) 9 38 (whole 1 8) watched-IsExact
      (inl (unfold program in refl)) refl

evict_global-IsExact_example : IsExact (evict_global_if_needed (store_of full))
evict_global-IsExact_example = evict_global-IsExact (store_of full) full-IsExact
