-- ===== src/Catalog.antt =====
-- catalog/catalog.go: the metadata and the management state that is remembered for each torrent.
--
-- JSON is a pair of functions that a call takes: `encode` of all entries, and `decode` of a file. A call
-- takes whether the file can be written. Years, seasons and identifiers are not negative. Times are
-- numbers, and 0 is Go's zero time.
--
-- `persist` runs without the lock: the parts of a change and of its `persist` are operations of their
-- own, which Interleaved mixes, and `upsert`, `set_pinned` and `remove` put them together for calls
-- that come one at a time.
pub mod Restart
pub mod Interleaved
pub mod Merge
use Prim.Native.String.{String}
use text.Mathlib.Text.{◌==◌}
use torrent_go.Prelude.{
  ℕ, zero, suc, Bool, true, false, not, ◌&&◌, if◌then◌else◌, Option, none, some, List, [], ◌∷◌,
}
use torrent_go.Prelude.TextMap.{lookup, insert, erase}

abbrev pub mode_stream : String
mode_stream = "stream"

abbrev pub mode_disk : String
mode_disk = "disk"

pub record Entry : Type 0 where
  pub hash : String
  pub source : String
  pub title : String
  pub original_title : String
  pub media_type : String
  pub number_of_seasons : ℕ
  pub tmdb_id : ℕ
  pub poster : String
  pub pinned : Bool
  pub download_mode : String
  pub added_at : ℕ

abbrev pub Entries : Type 0
Entries = List (String × Entry)

-- `persistent` says that the path is not empty. `file` is what was last written there.
pub record Catalog (File : Type 0) : Type 0 where
  pub entries : Entries
  pub persistent : Bool
  pub file : Option File

-- `Entry{Hash: hash, AddedAt: time.Now()}`.
abbrev pub bare : String → ℕ → Entry
bare hash now = record {
  hash = hash;
  source = "";
  title = "";
  original_title = "";
  media_type = "";
  number_of_seasons = 0;
  tmdb_id = 0;
  poster = "";
  pinned = false;
  download_mode = "";
  added_at = now;
}

abbrev pub entry_or : Option Entry → Entry → Entry
entry_or none e = e
entry_or (some old) e = old

abbrev pub text_or : String → String → String
text_or new old = if new == "" then old else new

abbrev pub number_or : ℕ → ℕ → ℕ
number_or zero old = old
number_or (suc n) old = suc n

-- The entry that `Upsert` makes of the one before and the one that comes in.
abbrev pub merge : Entry → Entry → Entry
merge e new = record e {
  source = text_or new.source e.source;
  title = text_or new.title e.title;
  original_title = text_or new.original_title e.original_title;
  media_type = text_or new.media_type e.media_type;
  number_of_seasons = number_or new.number_of_seasons e.number_of_seasons;
  tmdb_id = number_or new.tmdb_id e.tmdb_id;
  poster = text_or new.poster e.poster;
  download_mode = text_or new.download_mode e.download_mode;
}

abbrev pub values : Entries → List Entry
values [] = []
values ((k, e) ∷ m) = e ∷ values m

-- The loop of `NewPersistent` over the entries of the file.
unfoldable pub load : List Entry → Entries → Entries
load [] m = m
load (e ∷ es) m = load es (if e.hash == "" then m else insert e.hash e m)

abbrev pub loaded : Option (List Entry) → Entries
loaded none = []
loaded (some es) = load es []

abbrev pub is_pinned_of : Option Entry → Bool
is_pinned_of none = false
is_pinned_of (some e) = e.pinned

module _ {File : Type 0} (encode : List Entry → File) (decode : File → Option (List Entry)) where
  abbrev pub decoded : Option File → Option (List Entry)
  decoded none = none
  decoded (some f) = decode f

  -- `NewPersistent`: `ok_dir` says that there is a directory, or that it could be made.
  unfoldable pub new_persistent : Bool → Option File → Catalog File
  new_persistent ok_dir file =
      if ok_dir
      then record { entries = loaded (decoded file); persistent = true; file = file }
      else record { entries = []; persistent = false; file = file }

  -- The part of `persist` under the lock: a copy of the entries, in the order of the map.
  unfoldable pub snapshot : Catalog File → List Entry
  snapshot c = values c.entries

  -- The part of `persist` without a lock. Other calls may come between the two parts.
  unfoldable pub write_snapshot : Bool → List Entry → Catalog File → Catalog File
  write_snapshot ok es c = if c.persistent && ok then record c { file = some (encode es) } else c

  unfoldable pub persist : Bool → Catalog File → Catalog File
  unfolding snapshot write_snapshot
  persist ok c = write_snapshot ok (snapshot c) c

  -- `Upsert` up to the unlock, with the entry that it returns.
  unfoldable pub upsert_locked : ℕ → Entry → Catalog File → Catalog File × Entry
  upsert_locked now new c =
      let e = merge (entry_or (lookup new.hash c.entries) (bare new.hash now)) new in
      (record c { entries = insert new.hash e c.entries }, e)

  -- `Upsert`, when no other call comes between its change and its `persist`.
  unfoldable pub upsert : Bool → ℕ → Entry → Catalog File → Catalog File × Entry
  unfolding upsert_locked
  upsert ok now new c = let (c', e) = upsert_locked now new c in (persist ok c', e)

  unfoldable pub get : Catalog File → String → Option Entry
  get c hash = lookup hash c.entries

  unfoldable pub all : Catalog File → List Entry
  all c = values c.entries

  -- `SetPinned` up to the unlock.
  unfoldable pub set_pinned_locked : ℕ → String → Bool → Catalog File → Catalog File × Entry
  set_pinned_locked now hash pinned c =
      let e = record (entry_or (lookup hash c.entries) (bare hash now)) { pinned = pinned } in
      (record c { entries = insert hash e c.entries }, e)

  -- `SetPinned` and, below, `Remove`, under the condition of `upsert`.
  unfoldable pub set_pinned : Bool → ℕ → String → Bool → Catalog File → Catalog File × Entry
  unfolding set_pinned_locked
  set_pinned ok now hash pinned c =
      let (c', e) = set_pinned_locked now hash pinned c in (persist ok c', e)

  unfoldable pub is_pinned : Catalog File → String → Bool
  is_pinned c hash = is_pinned_of (lookup hash c.entries)

  unfoldable pub remove_locked : String → Catalog File → Catalog File
  remove_locked hash c = record c { entries = erase hash c.entries }

  unfoldable pub remove : Bool → String → Catalog File → Catalog File
  unfolding remove_locked
  remove ok hash c = persist ok (remove_locked hash c)
