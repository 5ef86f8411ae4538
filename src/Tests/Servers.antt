-- ===== src/Tests/Servers.antt =====
-- Adding and deleting torrents.
use Prim.Native.String.{String}
use torrent_go.Prelude.{ℕ, ◌≡◌, refl, true, false, Option, none, some, [], ◌∷◌}
use torrent_go.Catalog.{get}
use torrent_go.Handlers.Torrents.Handler.{
  Resolved, Server, deleted, handle_get_files, handle_delete,
}
use torrent_go.Handlers.Torrents.Added.{delete_other_spelling}
use torrent_go.Tests.Data.{full, store_of}
use torrent_go.Tests.Catalogs.{Saved, encode, decode, catalog, request, episode}
use torrent_go.Tests.Playbacks.{watching}

abbrev server : Server Saved
server = record { store = store_of full; lifecycle = watching; catalog = catalog }

abbrev resolved : Resolved
resolved = record {
  info_hash = 3;
  hash_hex = "cc";
  opened = none;
  has_info = false;
  got_info = true;
  files = episode ∷ [];
}

abbrev resolve : String → Option Resolved
resolve link = some resolved

-- The server with the torrent.
abbrev after : Server Saved
after = (handle_get_files encode decode true 100 resolve server (some request)).0

abbrev decode_hex : String → Option ℕ
decode_hex text = some 1

delete_other_spelling_example :
    ((handle_delete encode decode true decode_hex server "AA").1 ≡ deleted)
    × (get encode decode (handle_delete encode decode true decode_hex server "AA").0.catalog "aa"
        ≡ get encode decode catalog "aa")
delete_other_spelling_example =
    delete_other_spelling encode decode true decode_hex server "aa" "AA" refl refl
