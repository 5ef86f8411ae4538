-- ===== src/Tests/Playlists.antt =====
-- The playlists and the paths below `hls/`.
use Prim.Native.String.{String}
use torrent_go.Handlers.Hls.Labels.{external_track_label, clean_external_label, parse_index_list}
use torrent_go.Handlers.Hls.Master.{Audios, audio_group}
use torrent_go.Handlers.Hls.Master.Audio.{
  names, AllDifferent, FirstDefault, audio_count, audio_group-IsNamed,
}
use torrent_go.Handlers.Hls.Names.{ClientTrack}
use torrent_go.Handlers.Hls.Playlist.{
  render_media_playlist, target_duration, seconds_text, parse_seg, seg_name,
}
use torrent_go.Handlers.Hls.Playlist.Target.{target_duration-least}
use torrent_go.Handlers.Hls.Route.{
  HlsRequest, Known, decoded, produced, not_found, handle_hls, video_mp4, file_key, video_segment,
  audio_segment, sub_segment, serve_external_audio_rendition,
}
use torrent_go.Handlers.Hls.Route.Listed.{track_path, listed_segment_served}
use torrent_go.Handlers.Hls.Route.Shared.{external_key_shared}
use torrent_go.Handlers.Hls.Serve.{body, serve_produced}
use torrent_go.Handlers.Hls.Serve.Transparent.{AllRight, RightBody, serve-AllRight, served_once}
use torrent_go.Handlers.SegCache.{SegCache}
use torrent_go.Handlers.SegCache.Fit.{IsExact}
use torrent_go.Handlers.SegGrid.{SegList, count, extinf}
use torrent_go.Prelude.{
  ℕ, ◌*◌, ◌<◌, ◌+◌, ◌≡◌, ◌⊎◌, refl, false, true, some, none, List, [], ◌∷◌, ◌++◌, length, arith,
}
use torrent_go.Prelude.Bytes.{
  Bytes, codes, split, same_text, trim_space, has_prefix, has_suffix, trim_suffix, trim_prefix,
  behind,
}
use torrent_go.Prelude.Decimal.{itoa, itoa_ℕ, atoi}
use torrent_go.Prelude.Int.{pos, ◌+ℤ◌, ◌-ℤ◌, ◌≤ℤ◌}

-- Two segments of 6 s and 4.5 s.
abbrev grid : SegList
grid = record {
  content_starts = pos 0 ∷ pos 6000 ∷ [];
  content_end = pos 10500;
  base = pos 0;
  transcode = false;
}

abbrev other_grid : SegList
other_grid = record grid { content_starts = pos 0 ∷ pos 7000 ∷ [] }

media_playlist :
    render_media_playlist grid (codes "init.mp4") (codes "m4s")
    ≡ codes
        "#EXTM3U\n#EXT-X-VERSION:7\n#EXT-X-TARGETDURATION:6\n#EXT-X-MEDIA-SEQUENCE:0\n#EXT-X-PLAYLIST-TYPE:VOD\n#EXT-X-MAP:URI=\"init.mp4\"\n#EXTINF:6.000000,\nseg0.m4s\n#EXTINF:4.500000,\nseg1.m4s\n#EXT-X-ENDLIST\n"
unfolding render_media_playlist itoa_ℕ extinf ◌-ℤ◌ seconds_text seg_name
media_playlist = refl

target_duration-least_example :
    ((i : ℕ) → i < count grid → extinf grid (pos i) ≤ℤ pos (1000 * target_duration grid))
    × ((target_duration grid ≡ 0)
        ⊎ ((i : ℕ) × (i < count grid)
            × (pos (1000 * target_duration grid) ≤ℤ extinf grid (pos i) +ℤ pos 999)))
target_duration-least_example = target_duration-least grid

-- Two tracks of one name, and a subtitle track.
abbrev dub : ClientTrack
dub = record {
  index = pos 1;
  track_type = codes "audio";
  codec = codes "aac";
  language = codes "rus";
  title = codes " Dub ";
  rel_index = pos 0;
  source_file = pos 0;
}

abbrev tracks : List ClientTrack
tracks = dub ∷ record dub { rel_index = pos 1 } ∷ record dub { track_type = codes "subtitle" } ∷ []

abbrev paths : List Bytes
paths = codes "Show/a.mkv" ∷ codes "Show/[Studio]/a.mka" ∷ []

studio_label : external_track_label paths (pos 2) ≡ codes "Studio"
unfolding external_track_label split same_text trim_space clean_external_label
studio_label = refl

audio_group-IsNamed_example :
    (a : Audios) × (audio_group tracks (codes "2, 2") paths ≡ some a)
    × AllDifferent (names a.medias)
    × FirstDefault a.medias
    × (length a.medias ≡ audio_count tracks + length (parse_index_list (codes "2, 2")))
audio_group-IsNamed_example = audio_group-IsNamed tracks (codes "2, 2") paths

abbrev request : HlsRequest
request = record { hash = codes "ab"; file_index = codes "1"; path = []; xa = [] }

abbrev known : Known
known = record { seg_list = some grid; metadata = decoded tracks; paths = paths; is_gone = false }

listed_segment_served_example :
    (handle_hls (record request { path = codes "v/" ++ seg_name 1 (codes "m4s") }) known
      ≡ produced
          (file_key (codes "ab") (codes "1") (codes "v_" ++ itoa (pos 1)))
          video_mp4
          (video_segment grid (pos 1)))
    × (handle_hls
          (record request { path = track_path (codes "a") 0 (seg_name 1 (codes "m4s")) })
          known
        ≡ produced
            (file_key
              (codes "ab")
              (codes "1")
              (codes "a" ++ (itoa (pos 0) ++ (codes "_" ++ itoa (pos 1)))))
            video_mp4
            (audio_segment (codes "1") (pos 0) grid (pos 1)))
    × (handle_hls
          (record request { path = track_path (codes "s") 0 (seg_name 1 (codes "vtt")) })
          known
        ≡ produced
            (file_key
              (codes "ab")
              (codes "1")
              (codes "s" ++ (itoa (pos 0) ++ (codes "_" ++ itoa (pos 1)))))
            (codes "text/vtt; charset=utf-8")
            (sub_segment (pos 0) grid (pos 1)))
listed_segment_served_example =
    listed_segment_served request known grid 1 0 refl (omega arith) (omega arith) (omega arith)

external_key_shared_example :
    (key : List ℕ) × (serve_external_audio_rendition request
        (some grid)
        (pos 7)
        (pos 0)
        (seg_name 1 (codes "m4s"))
      ≡ produced key video_mp4 (audio_segment (itoa (pos 7)) (pos 0) grid (pos 1)))
    × (serve_external_audio_rendition
          (record request { file_index = codes "2" })
          (some other_grid)
          (pos 7)
          (pos 0)
          (seg_name 1 (codes "m4s"))
        ≡ produced key video_mp4 (audio_segment (itoa (pos 7)) (pos 0) other_grid (pos 1)))
external_key_shared_example =
    external_key_shared request (codes "2") grid other_grid (pos 7) (pos 0) 1 (omega arith)
      (omega arith) (omega arith)

-- No such segment, and no such number.
not_listed :
    (handle_hls (record request { path = codes "v/seg2.m4s" }) known ≡ not_found)
    × (handle_hls (record request { path = codes "a/x/seg0.m4s" }) known ≡ not_found)
unfolding handle_hls same_text split parse_seg has_prefix has_suffix atoi trim_suffix trim_prefix
    behind
not_listed = (refl, refl)

abbrev cache : SegCache
cache = record { max_bytes = 5; cur_bytes = pos 2; entries = ("ab_1_v_0", 1 ∷ 2 ∷ []) ∷ [] }

cache-IsExact : IsExact cache
cache-IsExact = record { counted = refl; distinct = ground arith }

-- Segments of two bytes.
abbrev IsPair : String → List ℕ → Type 0
IsPair key data' = length data' ≡ 2

produced-IsPair : (data' : List ℕ) → some (3 ∷ 4 ∷ []) ≡ some data' → IsPair "ab_1_v_1" data'
produced-IsPair (a ∷ b ∷ []) e = refl
produced-IsPair [] e = cc
produced-IsPair (a ∷ []) e = cc
produced-IsPair (a ∷ b ∷ c ∷ rest) e = cc

serve-AllRight_example :
    let (c, answer) = serve_produced cache "ab_1_v_1" "video/mp4" false (some (3 ∷ 4 ∷ [])) in
    AllRight IsPair c.entries × RightBody IsPair "ab_1_v_1" answer
serve-AllRight_example =
    serve-AllRight IsPair cache "ab_1_v_1" "video/mp4" false (some (3 ∷ 4 ∷ [])) cache-IsExact
      (refl, tt) produced-IsPair

served_once_example :
    let (c, answer) = serve_produced cache "ab_1_v_1" "video/mp4" false (some (3 ∷ 4 ∷ [])) in
    (answer ≡ body "video/mp4" (3 ∷ 4 ∷ []))
    × ((serve_produced c "ab_1_v_1" "video/mp4" true none).1 ≡ body "video/mp4" (3 ∷ 4 ∷ []))
served_once_example =
    served_once cache "ab_1_v_1" "video/mp4" false true (3 ∷ 4 ∷ []) none cache-IsExact
      (ground arith)
