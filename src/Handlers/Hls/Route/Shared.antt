-- ===== src/Handlers/Hls/Route/Shared.antt =====
-- The cache key of an external audio segment leaves out the video file whose grid cuts it.
use torrent_go.Handlers.Hls.Playlist.{seg_name}
use torrent_go.Handlers.Hls.Route.{
  audio_segment, produced, HlsRequest, video_mp4, external_key, serve_external_audio_rendition,
}
use torrent_go.Handlers.Hls.Route.Listed.{fmp4_reply-segment}
use torrent_go.Handlers.SegGrid.{SegList, count}
use torrent_go.Prelude.{ℕ, ◌≤◌, ◌<◌, ◌≡◌, some, List}
use torrent_go.Prelude.Bytes.{codes}
use torrent_go.Prelude.Decimal.{itoa, max_int64}
use torrent_go.Prelude.Int.{ℤ, pos}

module _ (r : HlsRequest) (sl : SegList) (ext rel : ℤ) (i : ℕ) where
  pub external_segment :
      i < count sl
      → i ≤ max_int64
      → serve_external_audio_rendition r (some sl) ext rel (seg_name i (codes "m4s"))
        ≡ produced
            (external_key r.hash ext rel (itoa (pos i)))
            video_mp4
            (audio_segment (itoa ext) rel sl (pos i))
  unfolding serve_external_audio_rendition
  external_segment h fits = fmp4_reply-segment sl i _ _ h fits

-- The same segment of the same external track, asked for from two video files of a torrent with
-- different grids, is cut by two grids but has one cache key.
pub external_key_shared :
    (r : HlsRequest) (file : List ℕ) (sl sl' : SegList) (ext rel : ℤ) (i : ℕ)
    → i < count sl
    → i < count sl'
    → i ≤ max_int64
    → (key : List ℕ) × (serve_external_audio_rendition r
          (some sl)
          ext
          rel
          (seg_name i (codes "m4s"))
        ≡ produced key video_mp4 (audio_segment (itoa ext) rel sl (pos i)))
      × (serve_external_audio_rendition
            (record r { file_index = file })
            (some sl')
            ext
            rel
            (seg_name i (codes "m4s"))
          ≡ produced key video_mp4 (audio_segment (itoa ext) rel sl' (pos i)))
external_key_shared r file sl sl' ext rel i h h' fits = (
  external_key r.hash ext rel (itoa (pos i)),
  external_segment r sl ext rel i h fits,
  external_segment (record r { file_index = file }) sl' ext rel i h' fits,
)
