-- ===== src/Handlers/Torrents/Handler.antt =====
-- handlers/torrents.go `HandleGetFiles` and `HandleDeleteTorrent`, over the storage, the playback state and
-- the catalog.
--
-- The torrent client is a function that resolves a link, with what the wait for the metadata comes to; a
-- call takes it. The teardown that a drop leaves running is `drop_done` and `Store.delete_cache`.
use Prim.Native.String.{String}
use text.Mathlib.Text.{◌==◌}
use torrent_go.Prelude.{ℕ, Bool, not, ◌&&◌, if◌then◌else◌, Option, none, some, List}
use torrent_go.Prelude.TextMap.{insert}
use torrent_go.Storage.Disk.{DiskBacking}
use torrent_go.Storage.Store.{Store, set_mode}
use torrent_go.Catalog.{Entry, Catalog, remove}
use torrent_go.Handlers.Playback.{Lifecycle, drop_torrent}
use torrent_go.Handlers.Torrents.{
  TorrentFilesRequest, link_of, disk_mode, File, FilesResponse, files_response, remember,
}

-- `opened` is the disk backing that can be opened for the torrent. `got_info` says that its metadata came
-- before the wait for it was over.
pub record Resolved : Type 0 where
  pub info_hash : ℕ
  pub hash_hex : String
  pub opened : Option DiskBacking
  pub has_info : Bool
  pub got_info : Bool
  pub files : List File

pub record Server (Saved : Type 0) : Type 0 where
  pub store : Store
  pub lifecycle : Lifecycle
  pub catalog : Catalog Saved

-- `listed` says whether all of the torrent is downloaded.
pub data Reply : Type 0 where
  bad_request not_added metadata_timeout deleted : Reply
  listed : Bool → FilesResponse → Reply

module _ {Saved : Type 0} (encode : List Entry → Saved) (decode : Saved → Option (List Entry)) where
  abbrev with_mode : Server Saved → TorrentFilesRequest → Resolved → Server Saved
  with_mode s r t = record s { store = set_mode s.store t.info_hash (disk_mode r) t.opened }

  -- The torrent is seen now, and remembered.
  abbrev pub with_torrent : Bool → ℕ → Server Saved → TorrentFilesRequest → Resolved → Server Saved
  with_torrent ok now s r t = record s {
    lifecycle = record s.lifecycle {
      torrent_seen = insert t.hash_hex now s.lifecycle.torrent_seen;
    };
    catalog = remember encode decode ok now t.hash_hex r s.catalog;
  }

  abbrev pub add_resolved :
      Bool → ℕ → Server Saved → TorrentFilesRequest → Option Resolved → Server Saved × Reply
  add_resolved ok now s r none = (s, not_added)
  add_resolved ok now s r (some t) =
      if not t.has_info && not t.got_info then (with_mode s r t, metadata_timeout) else (
        with_torrent ok now (with_mode s r t) r t,
        listed (disk_mode r && s.store.download_dir) (files_response r t.files),
      )

  -- `none` for a body that is not JSON.
  unfoldable pub handle_get_files :
      Bool
      → ℕ
      → (String → Option Resolved)
      → Server Saved
      → Option TorrentFilesRequest
      → Server Saved × Reply
  handle_get_files ok now resolve s none = (s, bad_request)
  handle_get_files ok now resolve s (some r) =
      if link_of r == "" then (s, bad_request) else add_resolved ok now s r (resolve (link_of r))

  abbrev pub delete_decoded : Bool → Server Saved → String → Option ℕ → Server Saved × Reply
  delete_decoded ok s hash none = (s, bad_request)
  delete_decoded ok s hash (some info_hash) = (
    record s {
      lifecycle = drop_torrent s.lifecycle hash;
      catalog = remove encode decode ok hash s.catalog;
    },
    deleted,
  )

  -- `decode_hex` is `hex.DecodeString` with the test for 20 bytes.
  unfoldable pub handle_delete :
      Bool → (String → Option ℕ) → Server Saved → String → Server Saved × Reply
  handle_delete ok decode_hex s hash = delete_decoded ok s hash (decode_hex hash)
