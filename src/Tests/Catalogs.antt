-- ===== src/Tests/Catalogs.antt =====
-- The catalog, and the files of a torrent.
use torrent_go.Prelude.{◌≡◌, refl, Option, none, some, List, [], ◌∷◌, true, false}
use torrent_go.Catalog.{Entry, Catalog, mode_disk, bare, get, new_persistent, persist}
use torrent_go.Catalog.Restart.{upsert_call, pin_call, remove_call}
use torrent_go.Catalog.Interleaved.{
  Step, change, take_snapshot, write_back, run, restart_keeps_entries,
}
use torrent_go.Handlers.Torrents.{TorrentFilesRequest, File, is_persistent_torrent, remember}
use torrent_go.Handlers.Torrents.Readd.{readd_resets_disk_mode}

-- A file stands for the entries it holds.
abbrev pub Saved : Type 0
Saved = List Entry

abbrev pub encode : List Entry → Saved
encode es = es

abbrev pub decode : Saved → Option (List Entry)
decode f = some f

abbrev film : Entry
film = record (bare "aa" 5) { source = "magnet"; title = "Film"; download_mode = mode_disk }

abbrev pub catalog : Catalog Saved
catalog = record { entries = ("aa", film) ∷ []; persistent = true; file = some (film ∷ []) }

-- Two calls that overlap.
abbrev overlap : List Step
overlap =
    change (upsert_call 6 (bare "bb" 0))
    ∷ take_snapshot
    ∷ change (pin_call 7 "bb" true)
    ∷ take_snapshot
    ∷ write_back 1
    ∷ write_back 0
    ∷ change (remove_call "aa")
    ∷ []

abbrev left : Catalog Saved
left =
    persist encode decode true
      (run encode decode overlap (record { catalog = catalog; snapshots = [] })).catalog

restart_keeps_entries_example :
    get encode decode (new_persistent encode decode true left.file) "bb"
    ≡ get encode decode left "bb"
restart_keeps_entries_example =
    restart_keeps_entries encode decode (λ es. refl) overlap catalog "bb" (refl, (refl, (tt, tt)))
      (record { keyed = (refl, refl, tt); distinct = (tt, tt); on_disk = refl; written = refl })

-- A request that names no download mode.
abbrev pub request : TorrentFilesRequest
request = record {
  title = "Film";
  link = some "magnet";
  magnet_uri = none;
  media_type = some "tv";
  number_of_seasons = none;
  original_title = none;
  poster = none;
  tmdb_id = none;
  download_mode = none;
}

readd_resets_disk_mode_example :
    (is_persistent_torrent encode decode catalog "aa" ≡ true)
    × (is_persistent_torrent encode decode (remember encode decode true 9 "aa" request catalog) "aa"
        ≡ false)
readd_resets_disk_mode_example =
    readd_resets_disk_mode encode decode true 9 "aa" request catalog {old = film}
      (unfold get in refl) refl refl refl

abbrev pub episode : File
episode = record { path = "Film/2.mkv"; base = "2.mkv"; extension = ".mkv"; size_bytes = 700 }

abbrev notes : File
notes = record { path = "Film/info.nfo"; base = "info.nfo"; extension = ".nfo"; size_bytes = 1 }
