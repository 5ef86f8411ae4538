-- ===== src/Handlers/Torrents.antt =====
-- handlers/torrents.go `HandleGetFiles`: adding a torrent, what the catalog remembers of it, and the
-- list of its files.
--
-- The request is decoded, an absent field is `none`. The torrent client, the wait for metadata and the
-- storage mode are outside; a file is its path and its length, and `extension` is what
-- `strings.ToLower(filepath.Ext(path))` returns.
pub mod Readd
pub mod Files
pub mod Handler
pub mod Added
use Prim.Native.String.{String, compare}
use Prim.Native.Nat.{Ordering}
use text.Mathlib.Text.{◌==◌}
use torrent_go.Prelude.{
  ℕ, zero, suc, ◌+◌, Bool, true, false, not, ◌&&◌, ◌||◌, if◌then◌else◌, Option, none, some, List,
  [], ◌∷◌,
}
use torrent_go.Catalog.{Entry, Catalog, mode_stream, mode_disk, bare, get, upsert}

pub record TorrentFilesRequest : Type 0 where
  pub title : String
  pub link : Option String
  pub magnet_uri : Option String
  pub media_type : Option String
  pub number_of_seasons : Option ℕ
  pub original_title : Option String
  pub poster : Option String
  pub tmdb_id : Option ℕ
  pub download_mode : Option String

abbrev pub text_of : Option String → String
text_of none = ""
text_of (some s) = s

abbrev number_of : Option ℕ → ℕ
number_of none = 0
number_of (some n) = n

-- The link that is resolved; an empty one is refused.
unfoldable pub link_of : TorrentFilesRequest → String
link_of r = if text_of r.magnet_uri == "" then text_of r.link else text_of r.magnet_uri

abbrev is_mode : Option String → String → Bool
is_mode none mode = false
is_mode (some m) mode = m == mode

abbrev pub disk_mode : TorrentFilesRequest → Bool
disk_mode r = is_mode r.download_mode mode_disk

-- The entry that is handed to `Upsert`. Its pin and its time are Go's zero values, which `Upsert` does
-- not read.
unfoldable pub entry_of : String → TorrentFilesRequest → Entry
entry_of hash r = record (bare hash 0) {
  source = link_of r;
  title = r.title;
  original_title = text_of r.original_title;
  media_type = text_of r.media_type;
  number_of_seasons = number_of r.number_of_seasons;
  tmdb_id = number_of r.tmdb_id;
  poster = text_of r.poster;
  download_mode = if disk_mode r then mode_disk else mode_stream;
}

abbrev pub persistent_entry : Option Entry → Bool
persistent_entry none = false
persistent_entry (some e) = e.pinned || e.download_mode == mode_disk

module _ {File : Type 0} (encode : List Entry → File) (decode : File → Option (List Entry)) where
  unfoldable pub is_persistent_torrent : Catalog File → String → Bool
  is_persistent_torrent c hash = persistent_entry (get encode decode c hash)

  -- What `HandleGetFiles` writes to the catalog.
  unfoldable pub remember : Bool → ℕ → String → TorrentFilesRequest → Catalog File → Catalog File
  remember ok now hash r c = (upsert encode decode ok now (entry_of hash r) c).0

  -- `RestorePinned`: the entries that are resolved again at the start, and whether in disk mode.
  unfoldable pub restored : List Entry → List (Entry × Bool)
  restored [] = []
  restored (e ∷ es) =
      if not e.pinned || e.source == ""
      then restored es
      else (e, e.download_mode == mode_disk) ∷ restored es

pub record File : Type 0 where
  pub path : String
  pub base : String
  pub extension : String
  pub size_bytes : ℕ

pub record FileItem : Type 0 where
  pub id : ℕ
  pub title : Option String
  pub item_bytes : ℕ
  pub item_path : String
  pub is_serial : Bool
  pub item_extension : String

abbrev one_of : String → List String → Bool
one_of s [] = false
one_of s (x ∷ xs) = s == x || one_of s xs

abbrev pub is_video : String → Bool
is_video ext = one_of ext (".mkv" ∷ ".mp4" ∷ ".avi" ∷ ".ts" ∷ ".mov" ∷ ".m2ts" ∷ ".mts" ∷ [])

abbrev pub is_audio : String → Bool
is_audio ext = one_of ext (
    ".mka" ∷ ".aac" ∷ ".ac3" ∷ ".eac3" ∷ ".dts" ∷ ".flac" ∷ ".opus" ∷ ".mp3" ∷ ".m4a" ∷ ".wav" ∷ [])

abbrev pub is_subtitle : String → Bool
is_subtitle ext = one_of ext (".ass" ∷ ".ssa" ∷ ".srt" ∷ ".vtt" ∷ ".sub" ∷ [])

-- The case of the `switch`, `none` for a file that is skipped.
pub data Kind : Type 0 where
  video audio subtitle : Kind

unfoldable pub kind_of : String → Option Kind
kind_of ext =
    if not (is_video ext) && (not (is_audio ext) && not (is_subtitle ext))
    then none
    else some (if is_video ext then video else (if is_audio ext then audio else subtitle))

abbrev pub item : Bool → ℕ → File → FileItem
item serial i f = record {
  id = suc i;
  title = if f.base == "" then none else some f.base;
  item_bytes = f.size_bytes;
  item_path = f.path;
  is_serial = serial;
  item_extension = f.extension;
}

abbrev pub same_kind : Option Kind → Kind → Bool
same_kind none k = false
same_kind (some video) video = true
same_kind (some audio) audio = true
same_kind (some subtitle) subtitle = true
same_kind (some video) audio = false
same_kind (some video) subtitle = false
same_kind (some audio) video = false
same_kind (some audio) subtitle = false
same_kind (some subtitle) video = false
same_kind (some subtitle) audio = false

-- The items of one kind, from file number `i` on.
unfoldable pub items_of : Kind → Bool → ℕ → List File → List FileItem
items_of k serial i [] = []
items_of k serial i (f ∷ fs) =
    if same_kind (kind_of f.extension) k
    then item serial i f ∷ items_of k serial (suc i) fs
    else items_of k serial (suc i) fs

-- `fs[i].Path < fs[j].Path`.
abbrev path_lt : FileItem → FileItem → Bool
path_lt a b = elim (compare a.item_path b.item_path) [ Ordering.lt ↦ true | _ ↦ false ]

unfoldable pub insert_item : FileItem → List FileItem → List FileItem
insert_item x [] = x ∷ []
insert_item x (y ∷ ys) = let rest = insert_item x ys in if path_lt y x then y ∷ rest else x ∷ y ∷ ys

-- `sort.Slice` by path; files of a torrent have different paths.
unfoldable pub sort_by_path : List FileItem → List FileItem
sort_by_path [] = []
sort_by_path (x ∷ xs) = insert_item x (sort_by_path xs)

pub record FilesResponse : Type 0 where
  pub items : List FileItem
  pub audio_files : List FileItem
  pub subtitle_files : List FileItem

unfoldable pub files_response : TorrentFilesRequest → List File → FilesResponse
files_response r files =
    let serial = text_of r.media_type == "tv" in
    record {
      items = sort_by_path (items_of video serial 0 files);
      audio_files = sort_by_path (items_of audio serial 0 files);
      subtitle_files = sort_by_path (items_of subtitle serial 0 files);
    }
