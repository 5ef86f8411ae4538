-- ===== src/Handlers/Hls/Route.antt =====
-- handlers/hls.go `HandleHls` and the handlers it calls: the answer to each path below `hls/`.
--
-- What other parts answer is an argument: the segment list of the file, its metadata, the paths of
-- the torrent's files. A reply that needs bytes names what is produced, with its cache key.
pub mod Listed
pub mod Shared
use torrent_go.Handlers.Hls.Master.{master_playlist}
use torrent_go.Handlers.Hls.Names.{ClientTrack}
use torrent_go.Handlers.Hls.Playlist.{render_media_playlist, parse_seg}
use torrent_go.Handlers.SegGrid.{SegList, count}
use torrent_go.Prelude.{
  ℕ, zero, suc, ◌+◌, Bool, true, false, ◌&&◌, if◌then◌else◌, Option, none, some, List, [], ◌∷◌,
  ◌++◌,
}
use torrent_go.Prelude.Bytes.{Bytes, codes, same_text, split}
use torrent_go.Prelude.Decimal.{itoa, atoi}
use torrent_go.Prelude.Int.{ℤ, pos, ltb_ℤ, leb_ℤ}

-- What is produced; an audio track is named by its file. The grid is the one of the video file.
pub data Product : Type 0 where
  video_init : Product
  video_segment : SegList → ℤ → Product
  audio_init : (file : Bytes) (rel : ℤ) → Product
  audio_segment : (file : Bytes) (rel : ℤ) → SegList → ℤ → Product
  sub_segment : (rel : ℤ) → SegList → ℤ → Product

-- `unnamed`: the loop over the names of the tracks has no end.
pub data Reply : Type 0 where
  not_found : Reply
  unavailable : Reply
  client_gone : Reply
  unnamed : Reply
  m3u8 : Bytes → Reply
  produced : (key content_type : Bytes) → Product → Reply

-- The metadata of the file, as `probeAndCacheMetadata` answers.
pub data Metadata : Type 0 where
  failed : Metadata
  undecodable : Metadata
  decoded : List ClientTrack → Metadata

pub record HlsRequest : Type 0 where
  pub hash : Bytes
  pub file_index : Bytes
  pub path : Bytes
  pub xa : Bytes

pub record Known : Type 0 where
  pub seg_list : Option SegList
  pub metadata : Metadata
  pub paths : List Bytes
  pub is_gone : Bool

abbrev pub video_mp4 : Bytes
video_mp4 = codes "video/mp4"

-- The keys of the segment cache.
abbrev pub file_key : Bytes → Bytes → Bytes → Bytes
file_key hash file tail = hash ++ (codes "_" ++ (file ++ (codes "_" ++ tail)))

abbrev pub external_key : Bytes → ℤ → ℤ → Bytes → Bytes
external_key hash ext rel tail =
    hash ++ (codes "_xa" ++ (itoa ext ++ (codes "_a" ++ (itoa rel ++ (codes "_" ++ tail)))))

abbrev pub segment_reply : Option ℤ → SegList → (ℤ → Reply) → Reply
segment_reply none sl reply = not_found
segment_reply (some n) sl reply =
    if leb_ℤ (pos 0) n && ltb_ℤ n (pos (count sl)) then reply n else not_found

-- The three leaves of a video or audio rendition.
unfoldable pub fmp4_reply : SegList → Bytes → Reply → (ℤ → Reply) → Reply
fmp4_reply sl leaf init segment =
    if same_text leaf (codes "index.m3u8")
    then m3u8 (render_media_playlist sl (codes "init.mp4") (codes "m4s"))
    else if same_text leaf (codes "init.mp4")
    then init
    else segment_reply (parse_seg leaf (codes "m4s")) sl segment

unfoldable pub serve_video_rendition : HlsRequest → Option SegList → Bytes → Reply
unfolding fmp4_reply
serve_video_rendition r none leaf = unavailable
serve_video_rendition r (some sl) leaf =
    fmp4_reply sl leaf
      (produced (file_key r.hash r.file_index (codes "v_init")) video_mp4 video_init)
      (λ n.
        produced (file_key r.hash r.file_index (codes "v_" ++ itoa n)) video_mp4
          (video_segment sl n))

unfoldable pub serve_audio_rendition : HlsRequest → Option SegList → ℤ → Bytes → Reply
unfolding fmp4_reply
serve_audio_rendition r none rel leaf = unavailable
serve_audio_rendition r (some sl) rel leaf =
    fmp4_reply sl leaf
      (produced (file_key r.hash r.file_index (codes "a" ++ (itoa rel ++ codes "_init"))) video_mp4
        (audio_init r.file_index rel))
      (λ n.
        produced (file_key r.hash r.file_index (codes "a" ++ (itoa rel ++ (codes "_" ++ itoa n))))
          video_mp4 (audio_segment r.file_index rel sl n))

unfoldable pub serve_external_audio_rendition : HlsRequest → Option SegList → ℤ → ℤ → Bytes → Reply
unfolding fmp4_reply
serve_external_audio_rendition r none ext rel leaf = unavailable
serve_external_audio_rendition r (some sl) ext rel leaf =
    fmp4_reply sl leaf
      (produced (external_key r.hash ext rel (codes "init")) video_mp4 (audio_init (itoa ext) rel))
      (λ n.
        produced (external_key r.hash ext rel (itoa n)) video_mp4
          (audio_segment (itoa ext) rel sl n))

unfoldable pub serve_sub_rendition : HlsRequest → Option SegList → ℤ → Bytes → Reply
serve_sub_rendition r none rel leaf = unavailable
serve_sub_rendition r (some sl) rel leaf =
    if same_text leaf (codes "index.m3u8")
    then m3u8 (render_media_playlist sl [] (codes "vtt"))
    else segment_reply (parse_seg leaf (codes "vtt")) sl (λ n.
      produced (file_key r.hash r.file_index (codes "s" ++ (itoa rel ++ (codes "_" ++ itoa n))))
        (codes "text/vtt; charset=utf-8") (sub_segment rel sl n))

abbrev master_reply : Option Bytes → Reply
master_reply none = unnamed
master_reply (some text) = m3u8 text

unfoldable pub serve_master_playlist : HlsRequest → Known → Metadata → Reply
serve_master_playlist r k Metadata.failed = if k.is_gone then client_gone else unavailable
serve_master_playlist r k undecodable = unavailable
serve_master_playlist r k (decoded tracks) = master_reply (master_playlist tracks r.xa k.paths)

-- A number in the path, or no such path.
abbrev pub with_number : Option ℤ → (ℤ → Reply) → Reply
with_number none reply = not_found
with_number (some n) reply = reply n

-- The switch over the parts of the path.
unfoldable pub route : HlsRequest → Known → List Bytes → Reply
unfolding serve_video_rendition serve_audio_rendition serve_sub_rendition
    serve_external_audio_rendition
route r k (kind ∷ leaf ∷ []) =
    if same_text kind (codes "v") then serve_video_rendition r k.seg_list leaf else not_found
route r k (kind ∷ number ∷ leaf ∷ []) =
    if same_text kind (codes "a")
    then with_number (atoi number) (λ rel. serve_audio_rendition r k.seg_list rel leaf)
    else if same_text kind (codes "s")
    then with_number (atoi number) (λ rel. serve_sub_rendition r k.seg_list rel leaf)
    else not_found
route r k (kind ∷ file ∷ number ∷ leaf ∷ []) =
    if same_text kind (codes "xa")
    then with_number (atoi file) (λ ext.
      if leb_ℤ (pos 1) ext
      then with_number (atoi number)
          (λ rel. serve_external_audio_rendition r k.seg_list ext rel leaf)
      else not_found)
    else not_found
route r k _ = not_found

unfoldable pub handle_hls : HlsRequest → Known → Reply
unfolding route serve_master_playlist
handle_hls r k =
    if same_text r.path (codes "master.m3u8")
    then serve_master_playlist r k k.metadata
    else route r k (split b'/' r.path)
