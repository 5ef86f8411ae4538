-- ===== src/Handlers/Hls/Master.antt =====
-- handlers/hls.go `serveMasterPlaylist`, with handlers/subtitles.go `isTextSubtitleCodec`: the
-- playlist that names every rendition of a file.
pub mod Audio
use torrent_go.Handlers.Hls.Labels.{parse_index_list, external_track_label}
use torrent_go.Handlers.Hls.Names.{ClientTrack, track_name, m3u_escape, unique_track_name}
use torrent_go.Prelude.{
  ℕ, zero, suc, ◌+◌, Bool, true, false, not, ◌&&◌, ◌||◌, leb, ◌==◌, if◌then◌else◌, Option, none,
  some, List, [], ◌∷◌, ◌++◌, length, map,
}
use torrent_go.Prelude.Bytes.{Bytes, codes, same_text}
use torrent_go.Prelude.Decimal.{itoa}
use torrent_go.Prelude.Int.{ℤ}

-- `strings.ToLower`, where the result is a letter of ASCII; it is compared with such texts only.
unfoldable pub to_lower : ℕ → ℕ
to_lower c =
    if leb b'A' c && leb c b'Z'
    then c + 32
    else if c == 8490
    then b'k'
    else if c == 304
    then b'i'
    else c

abbrev text_codecs : List Bytes
text_codecs =
    codes "ass"
    ∷ codes "ssa"
    ∷ codes "subrip"
    ∷ codes "srt"
    ∷ codes "webvtt"
    ∷ codes "vtt"
    ∷ codes "mov_text"
    ∷ codes "text"
    ∷ codes "microdvd"
    ∷ codes "stl"
    ∷ codes "subviewer"
    ∷ codes "subviewer1"
    ∷ codes "jacosub"
    ∷ codes "sami"
    ∷ codes "realtext"
    ∷ codes "mpl2"
    ∷ codes "pjs"
    ∷ codes "vplayer"
    ∷ []

unfoldable pub is_one_of : Bytes → List Bytes → Bool
is_one_of s [] = false
is_one_of s (t ∷ ts) = same_text s t || is_one_of s ts

unfoldable pub is_text_subtitle_codec : Bytes → Bool
unfolding to_lower is_one_of
is_text_subtitle_codec codec = is_one_of (map to_lower codec) text_codecs

-- One line of the audio group; only the tracks of the file itself have a language.
pub record AudioMedia : Type 0 where
  pub name : Bytes
  pub language : Option Bytes
  pub is_default : Bool
  pub uri : Bytes

-- What the two loops over audio have written; `audioCount` is the number of lines.
pub record Audios : Type 0 where
  pub medias : List AudioMedia
  pub used : List Bytes

abbrev pub no_audio : Audios
no_audio = record { medias = []; used = [] }

abbrev pub with_name : Option Bytes → Option Bytes → Bytes → Audios → Option Audios
with_name none language uri a = none
with_name (some name) language uri a = some (record {
  medias =
      a.medias
      ++ (record { name = name; language = language; is_default = length a.medias == 0; uri = uri }
          ∷ []);
  used = name ∷ a.used;
})

unfoldable pub add_audio : Bytes → Option Bytes → Bytes → Audios → Option Audios
add_audio wanted language uri a = with_name (unique_track_name wanted a.used) language uri a

abbrev pub and_then : Option Audios → (Audios → Option Audios) → Option Audios
and_then none f = none
and_then (some a) f = f a

abbrev pub is_audio_track : ClientTrack → Bool
is_audio_track t = same_text t.track_type (codes "audio")

abbrev pub add_track : ClientTrack → Audios → Option Audios
add_track t a =
    if not (is_audio_track t)
    then some a
    else add_audio (track_name t (codes "Audio")) (some t.language)
        (codes "a/" ++ (itoa t.rel_index ++ codes "/index.m3u8")) a

unfoldable pub internal_audio : List ClientTrack → Audios → Option Audios
internal_audio [] a = some a
internal_audio (t ∷ ts) a = and_then (add_track t a) (λ b. internal_audio ts b)

unfoldable pub external_audio : List Bytes → List ℤ → Audios → Option Audios
external_audio paths [] a = some a
external_audio paths (idx ∷ idxs) a =
    and_then
      (add_audio (external_track_label paths idx) none
        (codes "xa/" ++ (itoa idx ++ codes "/0/index.m3u8")) a)
      (λ b. external_audio paths idxs b)

-- Both loops.
unfoldable pub audio_group : List ClientTrack → Bytes → List Bytes → Option Audios
unfolding internal_audio external_audio
audio_group tracks xa paths =
    and_then (internal_audio tracks no_audio) (λ a. external_audio paths (parse_index_list xa) a)

abbrev language_part : Option Bytes → Bytes
language_part none = []
language_part (some language) = codes ",LANGUAGE=\"" ++ (language ++ codes "\"")

abbrev yes_no : Bool → Bytes
yes_no true = codes "YES"
yes_no false = codes "NO"

unfoldable pub audio_line : AudioMedia → Bytes
audio_line m =
    codes "#EXT-X-MEDIA:TYPE=AUDIO,GROUP-ID=\"aud\",NAME=\""
    ++ (m3u_escape m.name
        ++ (codes "\""
            ++ (language_part m.language
                ++ (codes ",DEFAULT="
                    ++ (yes_no m.is_default
                        ++ (codes ",AUTOSELECT=YES,URI=\"" ++ (m.uri ++ codes "\"\n")))))))

unfoldable pub audio_lines : List AudioMedia → Bytes
audio_lines [] = []
audio_lines (m ∷ ms) = audio_line m ++ audio_lines ms

abbrev pub is_text_track : ClientTrack → Bool
is_text_track t = same_text t.track_type (codes "subtitle") && is_text_subtitle_codec t.codec

abbrev subtitle_line : ClientTrack → Bytes
subtitle_line t =
    codes "#EXT-X-MEDIA:TYPE=SUBTITLES,GROUP-ID=\"subs\",NAME=\""
    ++ (m3u_escape (track_name t (codes "Subtitle"))
        ++ (codes "\",LANGUAGE=\""
            ++ (t.language
                ++ (codes "\",DEFAULT=NO,AUTOSELECT=NO,FORCED=NO,URI=\"s/"
                    ++ (itoa t.rel_index ++ codes "/index.m3u8\"\n")))))

unfoldable pub subtitle_lines : List ClientTrack → Bytes
subtitle_lines [] = []
subtitle_lines (t ∷ ts) =
    let rest = subtitle_lines ts in if is_text_track t then subtitle_line t ++ rest else rest

unfoldable pub has_subs : List ClientTrack → Bool
has_subs [] = false
has_subs (t ∷ ts) = is_text_track t || has_subs ts

abbrev stream_line : Bool → Bool → Bytes
stream_line audio subs =
    codes "#EXT-X-STREAM-INF:BANDWIDTH=8000000,CODECS=\"avc1.640029,mp4a.40.2\""
    ++ ((if audio then codes ",AUDIO=\"aud\"" else [])
        ++ ((if subs then codes ",SUBTITLES=\"subs\"" else []) ++ codes "\nv/index.m3u8\n"))

abbrev pub master_of : Option Audios → List ClientTrack → Option Bytes
master_of none tracks = none
master_of (some a) tracks = some (
    codes "#EXTM3U\n#EXT-X-VERSION:7\n#EXT-X-INDEPENDENT-SEGMENTS\n"
    ++ (audio_lines a.medias
        ++ (subtitle_lines tracks ++ stream_line (leb 1 (length a.medias)) (has_subs tracks))))

-- The text of the master playlist.
unfoldable pub master_playlist : List ClientTrack → Bytes → List Bytes → Option Bytes
unfolding audio_group audio_lines subtitle_lines has_subs
master_playlist tracks xa paths = master_of (audio_group tracks xa paths) tracks
