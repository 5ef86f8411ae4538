-- ===== src/Handlers/Torrents/Added.antt =====
-- A torrent from its addition to its deletion.
use Prim.Native.String.{String}
use text.Mathlib.Text.{◌==◌}
use text.Mathlib.TextEquality.{eq_iff}
use mathlib.Core.Path.{subst}
use text.Mathlib.TextPositions.{eq_refl}
use torrent_go.Prelude.{
  ℕ, ◌+◌, ◌≤◌, ◌≡◌, refl, sym, ap, ◌∙◌, Bool, false, not, ◌&&◌, ◌||◌, ltb, if_both, if_true, Option,
  none, some, List, [], ◌∷◌, arith,
}
use torrent_go.Prelude.TextMap.{lookup, erase, lookup-insert}
use torrent_go.Catalog.{Entry, get, remove}
use torrent_go.Catalog.Merge.{persist-entries}
use torrent_go.Handlers.Playback.{Lifecycle, decide, decide_unwatched, torrent_refcount}
use torrent_go.Handlers.Torrents.{TorrentFilesRequest, link_of, FilesResponse}
use torrent_go.Handlers.Torrents.Handler.{
  Resolved, Server, Reply, bad_request, not_added, metadata_timeout, deleted, listed,
  handle_get_files, add_resolved, handle_delete, delete_decoded,
}

seen_recently :
    (o : Option ℕ) (l : Lifecycle) (later grace now : ℕ) (hash : String)
    → o ≡ some now
    → later ≤ now + grace
    → (decide_unwatched o l later grace hash).1 ≡ false
seen_recently none l later grace now hash e h = refl
seen_recently (some seen) l later grace now hash e h = let same : seen ≡ now = cc e in ground arith

lookup-erase_other :
    (asked hash : String) (m : List (String × Entry))
    → (asked == hash) ≡ false
    → lookup hash (erase asked m) ≡ lookup hash m
lookup-erase_other asked hash [] n = refl
lookup-erase_other asked hash ((k, x) ∷ m) n =
    ground
      (arith, eq_iff k asked, eq_iff asked hash, eq_iff k hash, lookup-erase_other asked hash m n)

module _ {Saved : Type 0} (encode : List Entry → Saved) (decode : Saved → Option (List Entry)) where
  -- The reaper leaves a torrent alone that was just listed.
  abbrev Spared : ℕ → ℕ → Bool → String → Server Saved × Reply → Type 0
  Spared later grace persistent hash (s, bad_request) = Unit {0}
  Spared later grace persistent hash (s, not_added) = Unit {0}
  Spared later grace persistent hash (s, metadata_timeout) = Unit {0}
  Spared later grace persistent hash (s, deleted) = Unit {0}
  Spared later grace persistent hash (s, listed all r) =
      (decide s.lifecycle later grace persistent hash).1 ≡ false

  handled :
      (ok : Bool) (now later grace : ℕ) (resolve : String → Option Resolved) (s : Server Saved)
      (r : TorrentFilesRequest) (t : Resolved) (persistent : Bool)
      → resolve (link_of r) ≡ some t
      → later ≤ now + grace
      → Spared later grace persistent t.hash_hex
          (handle_get_files encode decode ok now resolve s (some r))
  unfolding handle_get_files decide
  handled ok now later grace resolve s r t persistent e h =
      let P = Spared later grace persistent t.hash_hex in
      if_both P (link_of r == "") (λ c. tt)
        (λ c.
          subst (λ o. P (add_resolved encode decode ok now s r o)) (sym e)
            (if_both P (not t.has_info && not t.got_info) (λ d. tt)
              (λ d.
                if_both (λ (x : Lifecycle × Bool). x.1 ≡ false)
                  (persistent || ltb 0 (torrent_refcount t.hash_hex s.lifecycle.playback))
                  (λ w. refl)
                  (λ w.
                    seen_recently _ _ later grace now t.hash_hex
                      (lookup-insert t.hash_hex t.hash_hex now s.lifecycle.torrent_seen
                        ∙ if_true (t.hash_hex == t.hash_hex) _ _ (eq_refl t.hash_hex))
                      h))))

  -- A torrent whose files were listed is not dropped by the reaper before the grace is over, though no player
  -- has opened it and whatever the reaper saw of it before.
  pub added_in_grace :
      (ok : Bool) (now later grace : ℕ) (resolve : String → Option Resolved) (s : Server Saved)
      (r : TorrentFilesRequest) (t : Resolved) (persistent : Bool) {s' : Server Saved} {all : Bool}
      {files : FilesResponse}
      → resolve (link_of r) ≡ some t
      → handle_get_files encode decode ok now resolve s (some r) ≡ (s', listed all files)
      → later ≤ now + grace
      → (decide s'.lifecycle later grace persistent t.hash_hex).1 ≡ false
  added_in_grace ok now later grace resolve s r t persistent {s'} {all} {files} e done h =
      subst (Spared later grace persistent t.hash_hex) done
        (handled ok now later grace resolve s r t persistent e h)

  -- A deletion that is asked for under another spelling of the hash than the catalog's, such as in upper
  -- case, answers that the torrent is deleted and leaves its entry in the catalog.
  pub delete_other_spelling :
      (ok : Bool) (decode_hex : String → Option ℕ) (s : Server Saved) (hash asked : String) {h : ℕ}
      → decode_hex asked ≡ some h
      → (asked == hash) ≡ false
      → ((handle_delete encode decode ok decode_hex s asked).1 ≡ deleted)
        × (get encode decode (handle_delete encode decode ok decode_hex s asked).0.catalog hash
            ≡ get encode decode s.catalog hash)
  unfolding handle_delete remove get
  delete_other_spelling ok decode_hex s hash asked {h} e n =
      let run = ap (delete_decoded encode decode ok s asked) e in
      let left = record s.catalog { entries = erase asked s.catalog.entries } in
      (
        ap (λ (x : Server Saved × Reply). x.1) run,
        ap (λ (x : Server Saved × Reply). lookup hash x.0.catalog.entries) run
            ∙ ap (lookup hash) (persist-entries encode decode ok left)
            ∙ lookup-erase_other asked hash s.catalog.entries n,
      )
