-- ===== src/Handlers/Hls/Master/Audio.antt =====
-- The audio group of the master playlist: its names, its default track and its size.
use torrent_go.Handlers.Hls.Labels.{parse_index_list, external_track_label}
use torrent_go.Handlers.Hls.Master.{
  AudioMedia, Audios, no_audio, add_audio, is_audio_track, internal_audio, external_audio,
  audio_group,
}
use torrent_go.Handlers.Hls.Names.{ClientTrack, is_used, track_name}
use torrent_go.Handlers.Hls.Names.Free.{unique_name_free}
use torrent_go.Prelude.{
  ℕ, suc, ◌+◌, ◌≡◌, refl, ◌∙◌, true, false, ◌||◌, ◌==◌, if◌then◌else◌, Bool-cases, inl, inr, Option,
  none, some, List, [], ◌∷◌, ◌++◌, length, length-append, arith,
}
use torrent_go.Prelude.Bytes.{Bytes, codes, same_text, same_text-eq, same_text-ne}
use torrent_go.Prelude.Decimal.{itoa}
use torrent_go.Prelude.Int.{ℤ}

abbrev pub names : List AudioMedia → List Bytes
names [] = []
names (m ∷ ms) = m.name ∷ names ms

-- No name comes twice.
abbrev pub AllDifferent : List Bytes → Type 0
AllDifferent [] = Unit
AllDifferent (x ∷ xs) = (is_used x xs ≡ false) × AllDifferent xs

abbrev pub NoneDefault : List AudioMedia → Type 0
NoneDefault [] = Unit
NoneDefault (m ∷ ms) = (m.is_default ≡ false) × NoneDefault ms

-- The first track is the default one, and no other is.
abbrev pub FirstDefault : List AudioMedia → Type 0
FirstDefault [] = Unit
FirstDefault (m ∷ ms) = (m.is_default ≡ true) × NoneDefault ms

record IsGroup (a : Audios) (size : ℕ) : Type 0 where
  used_names : (y : Bytes) → is_used y a.used ≡ is_used y (names a.medias)
  different : AllDifferent (names a.medias)
  first : FirstDefault a.medias
  sized : length a.medias ≡ size

resize : {a : Audios} {m n : ℕ} → IsGroup a m → m ≡ n → IsGroup a n
resize g e = record {
  used_names = g.used_names;
  different = g.different;
  first = g.first;
  sized = g.sized ∙ e;
}

same_text_swap : (x y : Bytes) → same_text x y ≡ same_text y x
same_text_swap x y = ground (
  arith,
  same_text-eq x y,
  same_text-eq y x,
  same_text-ne x y,
  same_text-ne y x,
  Bool-cases (same_text x y),
  Bool-cases (same_text y x),
)

used-append :
    (y : Bytes) (ms : List AudioMedia) (m : AudioMedia)
    → is_used y (names (ms ++ (m ∷ []))) ≡ (same_text y m.name || is_used y (names ms))
unfolding is_used
used-append y [] m = refl
used-append y (n ∷ ms) m = ground (arith, used-append y ms m)

different-append :
    (ms : List AudioMedia) (m : AudioMedia)
    → AllDifferent (names ms)
    → is_used m.name (names ms) ≡ false
    → AllDifferent (names (ms ++ (m ∷ [])))
unfolding is_used
different-append [] m d f = (refl, tt)
different-append (n ∷ ms) m d f = (
  ground (arith, used-append n.name ms m, same_text_swap n.name m.name),
  different-append ms m d.1 (ground arith),
)

none-append :
    (ms : List AudioMedia) (m : AudioMedia)
    → NoneDefault ms
    → m.is_default ≡ false
    → NoneDefault (ms ++ (m ∷ []))
none-append [] m d f = (f, tt)
none-append (n ∷ ms) m d f = (d.0, none-append ms m d.1 f)

first-append :
    (ms : List AudioMedia) (m : AudioMedia)
    → FirstDefault ms
    → m.is_default ≡ (length ms == 0)
    → FirstDefault (ms ++ (m ∷ []))
first-append [] m d f = (f, tt)
first-append (n ∷ ms) m d f = (d.0, none-append ms m d.1 (ground arith))

add_audio-IsGroup :
    (wanted : Bytes) (language : Option Bytes) (uri : Bytes) (a : Audios) (size : ℕ)
    → IsGroup a size
    → (b : Audios) × (add_audio wanted language uri a ≡ some b) × IsGroup b (suc size)
unfolding add_audio is_used
add_audio-IsGroup wanted language uri a size g =
    let (c, e, free) = unique_name_free wanted a.used in
    let m : AudioMedia = record {
      name = c;
      language = language;
      is_default = length a.medias == 0;
      uri = uri;
    } in
    (
      record { medias = a.medias ++ (m ∷ []); used = c ∷ a.used },
      rw e,
      record {
        used_names = λ y. ground (arith, used-append y a.medias m, g.used_names y);
        different = different-append a.medias m g.different (ground (arith, g.used_names c));
        first = first-append a.medias m g.first refl;
        sized = omega (arith, length-append a.medias (m ∷ []), g.sized);
      },
    )

unfoldable pub audio_count : List ClientTrack → ℕ
audio_count [] = 0
audio_count (t ∷ ts) = if is_audio_track t then suc (audio_count ts) else audio_count ts

internal-IsGroup :
    (ts : List ClientTrack) (a : Audios) (size : ℕ)
    → IsGroup a size
    → (b : Audios) × (internal_audio ts a ≡ some b) × IsGroup b (audio_count ts + size)
unfolding internal_audio audio_count
internal-IsGroup [] a size g = (a, refl, resize g (omega arith))
internal-IsGroup (t ∷ ts) a size g = elim (Bool-cases (is_audio_track t)) [
  | inl audio ↦
      let (b, e, gb) =
        add_audio-IsGroup (track_name t (codes "Audio")) (some t.language)
          (codes "a/" ++ (itoa t.rel_index ++ codes "/index.m3u8")) a size g in
      let (c, e', gc) = internal-IsGroup ts b (suc size) gb in
      (c, rw (audio, e) e', resize gc (ground arith))
  | inr other ↦
      let (c, e', gc) = internal-IsGroup ts a size g in (c, rw other e', resize gc (ground arith))
]

external-IsGroup :
    (paths : List Bytes) (idxs : List ℤ) (a : Audios) (size : ℕ)
    → IsGroup a size
    → (b : Audios) × (external_audio paths idxs a ≡ some b) × IsGroup b (size + length idxs)
unfolding external_audio
external-IsGroup paths [] a size g = (a, refl, resize g (omega arith))
external-IsGroup paths (idx ∷ idxs) a size g =
    let (b, e, gb) =
      add_audio-IsGroup (external_track_label paths idx) none
        (codes "xa/" ++ (itoa idx ++ codes "/0/index.m3u8")) a size g in
    let (c, e', gc) = external-IsGroup paths idxs b (suc size) gb in
    (c, rw e e', resize gc (omega arith))

-- Both loops end, whatever the tracks, the query and the paths are: one line for each audio track of
-- the file and each file that is asked for, all under different names before quotes are replaced,
-- with the first line as the only default.
pub audio_group-IsNamed :
    (tracks : List ClientTrack) (xa : Bytes) (paths : List Bytes)
    → (a : Audios) × (audio_group tracks xa paths ≡ some a)
      × AllDifferent (names a.medias)
      × FirstDefault a.medias
      × (length a.medias ≡ audio_count tracks + length (parse_index_list xa))
unfolding audio_group
audio_group-IsNamed tracks xa paths =
    let (b, e, gb) =
      internal-IsGroup tracks no_audio 0
        (record { used_names = λ y. refl; different = tt; first = tt; sized = refl }) in
    let (c, e', gc) = external-IsGroup paths (parse_index_list xa) b (audio_count tracks + 0) gb in
    (c, rw e e', gc.different, gc.first, omega (arith, gc.sized))
