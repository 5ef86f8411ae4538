-- ===== src/Handlers/Hls/Route/Listed.antt =====
-- Every segment that a media playlist lists is served under its name.
use torrent_go.Handlers.Hls.Playlist.{seg_name, parse_seg}
use torrent_go.Handlers.Hls.Route.{
  video_segment, audio_segment, sub_segment, Reply, produced, HlsRequest, Known, video_mp4,
  file_key, segment_reply, fmp4_reply, serve_sub_rendition, route, handle_hls,
}
use torrent_go.Handlers.SegGrid.{SegList, count}
use torrent_go.Prelude.{ℕ, ◌≤◌, ◌<◌, ◌≡◌, ◌≢◌, ap, ◌∙◌, some, List, [], ◌∷◌, ◌++◌, inl, arith}
use torrent_go.Prelude.Bytes.{
  Bytes, codes, same_text, same_text-ne, split, split-Lacks, split-append, Lacks, Lacks-append,
  has_prefix-append, has_suffix-append, trim_prefix-append, trim_suffix-append,
}
use torrent_go.Prelude.Decimal.{itoa, itoa_ℕ, atoi, atoi-itoa, itoa_ℕ-Lacks, max_int64}
use torrent_go.Prelude.Int.{ℤ, pos}

-- The name of a segment is read back as its number.
pub parse_seg-seg_name :
    (i : ℕ) (ext : Bytes) → i ≤ max_int64 → parse_seg (seg_name i ext) ext ≡ some (pos i)
unfolding parse_seg seg_name
parse_seg-seg_name i ext h = rw (has_prefix-append (codes "seg") (itoa_ℕ i ++ (codes "." ++ ext))) (
    rw (has_suffix-append (codes "seg" ++ itoa_ℕ i) (codes "." ++ ext)) (
      rw (trim_prefix-append (codes "seg") (itoa_ℕ i ++ (codes "." ++ ext)))
        (rw (trim_suffix-append (itoa_ℕ i) (codes "." ++ ext)) (atoi-itoa i h))))

seg_name-Lacks : (i : ℕ) (ext : Bytes) → Lacks b'/' ext → Lacks b'/' (seg_name i ext)
unfolding seg_name
seg_name-Lacks i ext h =
    Lacks-append b'/' (codes "seg") _ (omega arith)
      (Lacks-append b'/' (itoa_ℕ i) _ (itoa_ℕ-Lacks b'/' i (inl (omega arith))) (omega arith, h))

abbrev first_char : Bytes → ℕ
first_char [] = 0
first_char (c ∷ s) = c

-- No segment is called like a playlist or an init segment.
seg_name-ne : (i : ℕ) (ext other : Bytes) → seg_name i ext ≢ b'i' ∷ other
unfolding seg_name
seg_name-ne i ext other e = omega (arith, ap first_char e)

segment_found :
    (sl : SegList) (i : ℕ) (reply : ℤ → Reply)
    → i < count sl
    → segment_reply (some (pos i)) sl reply ≡ reply (pos i)
segment_found sl i reply h = ground arith

pub fmp4_reply-segment :
    (sl : SegList) (i : ℕ) (init : Reply) (segment : ℤ → Reply)
    → i < count sl
    → i ≤ max_int64
    → fmp4_reply sl (seg_name i (codes "m4s")) init segment ≡ segment (pos i)
unfolding fmp4_reply
fmp4_reply-segment sl i init segment h fits =
    rw (same_text-ne _ (codes "index.m3u8") (seg_name-ne i (codes "m4s") (codes "ndex.m3u8"))) (
      rw (same_text-ne _ (codes "init.mp4") (seg_name-ne i (codes "m4s") (codes "nit.mp4")))
        (rw (parse_seg-seg_name i (codes "m4s") fits) (segment_found sl i segment h)))

sub_rendition-segment :
    (r : HlsRequest) (sl : SegList) (rel : ℤ) (i : ℕ)
    → i < count sl
    → i ≤ max_int64
    → serve_sub_rendition r (some sl) rel (seg_name i (codes "vtt"))
      ≡ produced
          (file_key r.hash r.file_index (codes "s" ++ (itoa rel ++ (codes "_" ++ itoa (pos i)))))
          (codes "text/vtt; charset=utf-8")
          (sub_segment rel sl (pos i))
unfolding serve_sub_rendition
sub_rendition-segment r sl rel i h fits =
    rw (same_text-ne _ (codes "index.m3u8") (seg_name-ne i (codes "vtt") (codes "ndex.m3u8"))) (
      rw (parse_seg-seg_name i (codes "vtt") fits) (
        segment_found sl i
          (λ n.
            produced
              (file_key r.hash r.file_index (codes "s" ++ (itoa rel ++ (codes "_" ++ itoa n))))
              (codes "text/vtt; charset=utf-8") (sub_segment rel sl n))
          h))

handle-route :
    (r : HlsRequest) (k : Known) (parts : List Bytes)
    → first_char r.path ≢ b'm'
    → split b'/' r.path ≡ parts
    → handle_hls r k ≡ route r k parts
unfolding handle_hls
handle-route r k parts h e =
    rw (same_text-ne r.path (codes "master.m3u8") (λ same. h (ap first_char same)))
      (ap (route r k) e)

two_parts : (s t : Bytes) → Lacks b'/' s → Lacks b'/' t → split b'/' (s ++ (b'/' ∷ t)) ≡ s ∷ t ∷ []
two_parts s t hs ht = rw (split-append b'/' s t hs) (ap (◌∷◌ s) (split-Lacks b'/' t ht))

three_parts :
    (s t u : Bytes)
    → Lacks b'/' s
    → Lacks b'/' t
    → Lacks b'/' u
    → split b'/' (s ++ (b'/' ∷ (t ++ (b'/' ∷ u)))) ≡ s ∷ t ∷ u ∷ []
three_parts s t u hs ht hu =
    rw (split-append b'/' s (t ++ (b'/' ∷ u)) hs) (ap (◌∷◌ s) (two_parts t u ht hu))

number-Lacks : (n : ℕ) → Lacks b'/' (itoa (pos n))
unfolding itoa
number-Lacks n = itoa_ℕ-Lacks b'/' n (inl (omega arith))

read_number : (n : ℕ) → n ≤ max_int64 → atoi (itoa (pos n)) ≡ some (pos n)
unfolding itoa
read_number n h = atoi-itoa n h

-- The path of a file within the directory of a track.
abbrev pub track_path : Bytes → ℕ → Bytes → Bytes
track_path kind rel leaf = kind ++ (b'/' ∷ (itoa (pos rel) ++ (b'/' ∷ leaf)))

module _ (r : HlsRequest) (k : Known) (sl : SegList) (i rel : ℕ) where
  -- When the segment list of the file is known, every segment of it, up to the largest number that
  -- an int64 holds, is served under the name that the playlist of the video, of an audio track and
  -- of a subtitle track gives to it, as the segment with that number.
  pub listed_segment_served :
      k.seg_list ≡ some sl
      → i < count sl
      → i ≤ max_int64
      → rel ≤ max_int64
      → (handle_hls (record r { path = codes "v/" ++ seg_name i (codes "m4s") }) k
          ≡ produced
              (file_key r.hash r.file_index (codes "v_" ++ itoa (pos i)))
              video_mp4
              (video_segment sl (pos i)))
        × (handle_hls (record r { path = track_path (codes "a") rel (seg_name i (codes "m4s")) }) k
            ≡ produced
                (file_key r.hash r.file_index
                  (codes "a" ++ (itoa (pos rel) ++ (codes "_" ++ itoa (pos i)))))
                video_mp4
                (audio_segment r.file_index (pos rel) sl (pos i)))
        × (handle_hls (record r { path = track_path (codes "s") rel (seg_name i (codes "vtt")) }) k
            ≡ produced
                (file_key r.hash r.file_index
                  (codes "s" ++ (itoa (pos rel) ++ (codes "_" ++ itoa (pos i)))))
                (codes "text/vtt; charset=utf-8")
                (sub_segment (pos rel) sl (pos i)))
  unfolding route same_text
  listed_segment_served known h fits small = (
    handle-route _ k _ (omega arith)
          (two_parts (codes "v") _ (omega arith) (seg_name-Lacks i (codes "m4s") (omega arith)))
        ∙ rw known (fmp4_reply-segment sl i _ _ h fits),
    handle-route _ k _ (omega arith) (
          three_parts (codes "a") (itoa (pos rel)) _ (omega arith) (number-Lacks rel)
            (seg_name-Lacks i (codes "m4s") (omega arith)))
        ∙ rw (known, read_number rel small) (fmp4_reply-segment sl i _ _ h fits),
    handle-route _ k _ (omega arith) (
          three_parts (codes "s") (itoa (pos rel)) _ (omega arith) (number-Lacks rel)
            (seg_name-Lacks i (codes "vtt") (omega arith)))
        ∙ rw (known, read_number rel small) (sub_rendition-segment r sl (pos rel) i h fits),
  )
