-- ===== src/Handlers/Torrents/Readd.antt =====
-- Adding a torrent again through the files request.
use Prim.Native.String.{String}
use text.Mathlib.Text.{◌==◌}
use text.Mathlib.TextPositions.{eq_refl}
use torrent_go.Prelude.{ℕ, ◌≡◌, refl, ap, ◌∙◌, Bool, true, false, if_true, Option, some, List}
use torrent_go.Prelude.TextMap.{lookup, insert, lookup-insert}
use torrent_go.Catalog.{Entry, Catalog, mode_disk, bare, entry_or, merge, get, upsert}
use torrent_go.Catalog.Merge.{persist-entries}
use torrent_go.Handlers.Torrents.{
  TorrentFilesRequest, disk_mode, entry_of, persistent_entry, is_persistent_torrent, remember,
}

module _ {File : Type 0} (encode : List Entry → File) (decode : File → Option (List Entry)) where
  remembered :
      (ok : Bool) (now : ℕ) (hash : String) (r : TorrentFilesRequest) (c : Catalog File)
      {old : Entry}
      → get encode decode c hash ≡ some old
      → get encode decode (remember encode decode ok now hash r c) hash
        ≡ some (merge old (entry_of hash r))
  unfolding get remember upsert entry_of
  remembered ok now hash r c {old} e =
      let new = entry_of hash r in
      let x = merge (entry_or (lookup hash c.entries) (bare hash now)) new in
      ap (lookup hash)
        (persist-entries encode decode ok (record c { entries = insert hash x c.entries }))
      ∙ lookup-insert hash hash x c.entries
      ∙ if_true (hash == hash) (some x) _ (eq_refl hash)
      ∙ ap (λ o. some (merge (entry_or o (bare hash now)) new)) e

  merged_mode :
      (hash : String) (r : TorrentFilesRequest) (old : Entry)
      → old.pinned ≡ false
      → disk_mode r ≡ false
      → persistent_entry (some (merge old (entry_of hash r))) ≡ false
  unfolding entry_of
  merged_mode hash r old p d = rw (p, d)

  -- A torrent that was added in disk mode, and is not pinned, is persistent. A request for its files
  -- that does not ask for disk mode, such as one that names no mode, makes it a torrent that the reaper may
  -- drop: the mode is reset to stream.
  pub readd_resets_disk_mode :
      (ok : Bool) (now : ℕ) (hash : String) (r : TorrentFilesRequest) (c : Catalog File)
      {old : Entry}
      → get encode decode c hash ≡ some old
      → old.download_mode ≡ mode_disk
      → old.pinned ≡ false
      → disk_mode r ≡ false
      → (is_persistent_torrent encode decode c hash ≡ true)
        × (is_persistent_torrent encode decode (remember encode decode ok now hash r c) hash
            ≡ false)
  unfolding is_persistent_torrent
  readd_resets_disk_mode ok now hash r c {old} e m p d = (
    ap persistent_entry e ∙ rw (p, m) refl,
    ap persistent_entry (remembered ok now hash r c e) ∙ merged_mode hash r old p d,
  )
