-- ===== src/Handlers/Hls/Playlist.antt =====
-- handlers/hls.go `renderMediaPlaylist`, and `parseSeg`, which reads a segment's name.
pub mod Target
use torrent_go.Handlers.SegGrid.{SegList, count, extinf}
use torrent_go.Prelude.{
  ℕ, zero, suc, ◌+◌, ◌-◌, ◌/◌, ◌%◌, Bool, true, false, not, ◌&&◌, if◌then◌else◌, Option, none, some,
  List, [], ◌∷◌, ◌++◌,
}
use torrent_go.Prelude.Bytes.{Bytes, codes, has_prefix, has_suffix, trim_prefix, trim_suffix}
use torrent_go.Prelude.Decimal.{itoa_ℕ, atoi}
use torrent_go.Prelude.Int.{ℤ, pos, negsuc, pos_part, ltb_ℤ}

-- The loop over the segments' durations, with the rounds that are left.
unfoldable pub longest_from : ℕ → SegList → ℕ → ℤ → ℤ
longest_from zero sl i max_dur = max_dur
longest_from (suc rounds) sl i max_dur =
    let d = extinf sl (pos i) in
    longest_from rounds sl (suc i) (if ltb_ℤ max_dur d then d else max_dur)

unfoldable pub longest : SegList → ℤ
unfolding longest_from
longest sl = longest_from (count sl) sl 0 (pos 0)

-- `int(math.Ceil(maxDur))`, of a time that is not negative.
unfoldable pub target_duration : SegList → ℕ
unfolding longest
target_duration sl = (pos_part (longest sl) + 999) / 1000

abbrev three_digits : ℕ → Bytes
three_digits n = (b'0' + n / 100) ∷ (b'0' + n / 10 % 10) ∷ (b'0' + n % 10) ∷ []

-- `%.6f` of a number of milliseconds, in seconds.
unfoldable pub seconds_text : ℤ → Bytes
seconds_text (pos ms) =
    itoa_ℕ (ms / 1000) ++ (codes "." ++ (three_digits (ms % 1000) ++ codes "000"))
seconds_text (negsuc n) =
    codes "-"
    ++ (itoa_ℕ (suc n / 1000) ++ (codes "." ++ (three_digits (suc n % 1000) ++ codes "000")))

-- `seg%d.%s`
unfoldable pub seg_name : ℕ → Bytes → Bytes
seg_name i ext = codes "seg" ++ (itoa_ℕ i ++ (codes "." ++ ext))

abbrev pub seg_lines : SegList → ℕ → Bytes → Bytes
seg_lines sl i ext =
    codes "#EXTINF:"
    ++ (seconds_text (extinf sl (pos i)) ++ (codes ",\n" ++ (seg_name i ext ++ codes "\n")))

unfoldable pub all_lines : ℕ → SegList → ℕ → Bytes → Bytes
all_lines zero sl i ext = []
all_lines (suc rounds) sl i ext = seg_lines sl i ext ++ all_lines rounds sl (suc i) ext

abbrev pub map_line : Bytes → Bytes
map_line [] = []
map_line (c ∷ uri) = codes "#EXT-X-MAP:URI=\"" ++ ((c ∷ uri) ++ codes "\"\n")

unfoldable pub render_media_playlist : SegList → Bytes → Bytes → Bytes
unfolding all_lines target_duration
render_media_playlist sl map_uri seg_ext =
    codes "#EXTM3U\n#EXT-X-VERSION:7\n"
    ++ (codes "#EXT-X-TARGETDURATION:"
        ++ (itoa_ℕ (target_duration sl)
            ++ (codes "\n#EXT-X-MEDIA-SEQUENCE:0\n#EXT-X-PLAYLIST-TYPE:VOD\n"
                ++ (map_line map_uri
                    ++ (all_lines (count sl) sl 0 seg_ext ++ codes "#EXT-X-ENDLIST\n")))))

-- `seg{N}.{ext}`: `none` stands for a name that is not one.
unfoldable pub parse_seg : Bytes → Bytes → Option ℤ
parse_seg leaf ext =
    if not (has_prefix leaf (codes "seg"))
    then none
    else if not (has_suffix leaf (codes "." ++ ext))
    then none
    else atoi (trim_suffix (trim_prefix leaf (codes "seg")) (codes "." ++ ext))
