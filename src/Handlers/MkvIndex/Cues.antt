-- ===== src/Handlers/MkvIndex/Cues.antt =====
-- The handler finds the tracks and the cues of a file in whichever order they come.
use torrent_go.Handlers.MkvIndex.{
  CuePoint, CueHandler, new_handler, track_entry, cue_point, track_number, track_type, cue_time,
  cue_track, Event, master_begin, master_end, integer, handle, handle_all, kept_times, insert_time,
  sort_times, has_track, is_empty, is_kept, of_times, of_handler, mkv_keyframes,
}
use torrent_go.Prelude.{
  ◌≡◌, ◌≢◌, refl, sym, ap, ◌∙◌, Bool, true, false, not, ◌&&◌, ◌||◌, Option, none, if◌then◌else◌,
  if_true, if_both, some, List, [], ◌∷◌, ◌++◌, arith,
}
use torrent_go.Prelude.Int.{ℤ, pos, negsuc, ◌≤ℤ◌, leb_ℤ, int_laws, same_number}
use mathlib.Core.List.{Perm, append_assoc, append-nil}
use mathlib.Core.List.Perm

-- A track: its number and its type, of which 1 is video.
abbrev pub track_events : List (ℤ × ℤ) → List Event
track_events [] = []
track_events ((num, type_) ∷ ts) =
    master_begin track_entry
    ∷ integer track_number num
    ∷ integer track_type type_
    ∷ master_end track_entry
    ∷ track_events ts

abbrev ref_events : List ℤ → List Event → List Event
ref_events [] rest = rest
ref_events (t ∷ ts) rest = integer cue_track t ∷ ref_events ts rest

abbrev pub cue_events : List CuePoint → List Event
cue_events [] = []
cue_events (c ∷ cs) =
    master_begin cue_point
    ∷ integer cue_time c.time
    ∷ ref_events c.tracks (master_end cue_point ∷ cue_events cs)

-- The last video track with a number.
unfoldable pub video_of : ℤ → List (ℤ × ℤ) → ℤ
video_of v [] = v
video_of v ((num, type_) ∷ ts) =
    video_of (if same_number type_ (pos 1) && leb_ℤ (pos 0) num then num else v) ts

-- What a run of events leaves: the fields that the result is made of.
record Leaves (h : CueHandler) (v : ℤ) (cues : List CuePoint) (scale : ℤ) : Type 0 where
  video : h.video_track ≡ v
  points : h.cues ≡ cues
  scaled : h.timecode_scale ≡ scale

tracks-Leaves :
    (ts : List (ℤ × ℤ)) (rest : List Event) (h : CueHandler)
    → (h' : CueHandler) × Leaves h' (video_of h.video_track ts) h.cues h.timecode_scale
      × (handle_all h (track_events ts ++ rest) ≡ handle_all h' rest)
unfolding handle_all handle video_of
tracks-Leaves [] rest h = (h, record { video = refl; points = refl; scaled = refl }, refl)
tracks-Leaves ((num, type_) ∷ ts) rest h = tracks-Leaves ts rest (record h {
  in_track_entry = false;
  cur_track_num = num;
  cur_track_type = type_;
  video_track = if same_number type_ (pos 1) && leb_ℤ (pos 0) num then num else h.video_track;
})

refs_end :
    (refs : List ℤ) (rest : List Event) (h : CueHandler)
    → h.in_cue_point ≡ true
    → handle_all h (ref_events refs rest)
      ≡ handle_all (record h { cur_tracks = h.cur_tracks ++ refs }) rest
unfolding handle_all handle
refs_end [] rest h e =
    ap (λ (ts : List ℤ). handle_all (record h { cur_tracks = ts }) rest)
      (sym (append-nil h.cur_tracks))
refs_end (t ∷ refs) rest h e =
    ap (λ (ts : List ℤ). handle_all (record h { cur_tracks = ts }) (ref_events refs rest))
      (if_true h.in_cue_point (h.cur_tracks ++ (t ∷ [])) h.cur_tracks e)
    ∙ refs_end refs rest (record h { cur_tracks = h.cur_tracks ++ (t ∷ []) }) e
    ∙ ap (λ (ts : List ℤ). handle_all (record h { cur_tracks = ts }) rest)
        (append_assoc h.cur_tracks (t ∷ []) refs)

ref-append :
    (refs : List ℤ) (more rest : List Event)
    → ref_events refs more ++ rest ≡ ref_events refs (more ++ rest)
ref-append [] more rest = refl
ref-append (t ∷ refs) more rest = ap (◌∷◌ (integer cue_track t)) (ref-append refs more rest)

cues-Leaves :
    (cs : List CuePoint) (rest : List Event) (h : CueHandler)
    → (h' : CueHandler) × Leaves h' h.video_track (h.cues ++ cs) h.timecode_scale
      × (handle_all h (cue_events cs ++ rest) ≡ handle_all h' rest)
unfolding handle_all handle
cues-Leaves [] rest h =
    (h, record { video = refl; points = sym (append-nil h.cues); scaled = refl }, refl)
cues-Leaves (c ∷ cs) rest h =
    let begun : CueHandler = record h {
      in_cue_point = true;
      cur_cue_time = c.time;
      cur_cue_set = true;
      cur_tracks = [];
    } in
    let ended : CueHandler = record begun {
      in_cue_point = false;
      cur_tracks = c.tracks;
      cues = h.cues ++ (c ∷ []);
    } in
    let (h', l, e) = cues-Leaves cs rest ended in
    (
      h',
      record {
        video = l.video;
        points = l.points ∙ append_assoc h.cues (c ∷ []) cs;
        scaled = l.scaled;
      },
      ap (handle_all begun) (ref-append c.tracks (master_end cue_point ∷ cue_events cs) rest)
          ∙ refs_end c.tracks (master_end cue_point ∷ (cue_events cs ++ rest)) begun refl
          ∙ e,
    )

result :
    (h : CueHandler) (v : ℤ) (cs : List CuePoint) (scale : ℤ)
    → Leaves h v cs scale
    → of_handler h ≡ of_times (kept_times v cs) scale
result h v cs scale l =
    ap (λ (k : ℤ). of_times (kept_times h.video_track h.cues) k) l.scaled
    ∙ ap (λ (ps : List CuePoint). of_times (kept_times h.video_track ps) scale) l.points
    ∙ ap (λ (w : ℤ). of_times (kept_times w cs) scale) l.video

-- Sorted, and the same times.
abbrev pub AtMost : ℤ → List ℤ → Type 0
AtMost t [] = Unit
AtMost t (u ∷ us) = (t ≤ℤ u) × AtMost t us

abbrev pub IsSorted : List ℤ → Type 0
IsSorted [] = Unit
IsSorted (t ∷ ts) = AtMost t ts × IsSorted ts

weaken : (t u : ℤ) (us : List ℤ) → t ≤ℤ u → AtMost u us → AtMost t us
weaken t u [] h a = tt
weaken t u (x ∷ us) h a = (omega (int_laws, h, a.0), weaken t u us h a.1)

insert-AtMost : (t u : ℤ) (us : List ℤ) → t ≤ℤ u → AtMost t us → AtMost t (insert_time u us)
unfolding insert_time
insert-AtMost t u [] h a = (h, tt)
insert-AtMost t u (x ∷ us) h a =
    if_both (AtMost t) (leb_ℤ u x) (λ c. (h, a)) (λ c. (a.0, insert-AtMost t u us h a.1))

insert-IsSorted : (t : ℤ) (us : List ℤ) → IsSorted us → IsSorted (insert_time t us)
unfolding insert_time
insert-IsSorted t [] s = (tt, tt)
insert-IsSorted t (u ∷ us) s =
    if_both IsSorted (leb_ℤ t u)
      (λ c. let h : t ≤ℤ u = ground arith in ((h, weaken t u us h s.0), s))
      (λ c. (insert-AtMost u t us (ground arith) s.0, insert-IsSorted t us s.1))

insert-perm : (t : ℤ) (us : List ℤ) → Perm (insert_time t us) (t ∷ us)
unfolding insert_time
insert-perm t [] = Perm.refl (t ∷ [])
insert-perm t (u ∷ us) =
    if_both (λ (l : List ℤ). Perm l (t ∷ u ∷ us)) (leb_ℤ t u) (λ c. Perm.refl (t ∷ u ∷ us))
      (λ c. Perm.trans (Perm.cons u (insert-perm t us)) (Perm.swap t u us))

-- The times of the key frames are in ascending order, and they are the times that were kept, each as
-- often as before.
sort_times-IsSorted : (ts : List ℤ) → IsSorted (sort_times ts) × Perm (sort_times ts) ts
unfolding sort_times
sort_times-IsSorted [] = (tt, Perm.refl [])
sort_times-IsSorted (t ∷ ts) =
    let (s, p) = sort_times-IsSorted ts in
    (
      insert-IsSorted t (sort_times ts) s,
      Perm.trans (insert-perm t (sort_times ts)) (Perm.cons t p),
    )

-- Whether a number stands in a list.
unfoldable pub occurs : ℤ → List ℤ → Bool
occurs v [] = false
occurs v (t ∷ ts) = if same_number t v then true else occurs v ts

-- Does a cue with these tracks give a key frame? Without a video track, a negative number, each cue
-- does; with one, a cue that names it, or names no track.
abbrev pub counts : ℤ → List ℤ → Bool
counts (negsuc n) ts = true
counts (pos n) [] = true
counts (pos n) (t ∷ ts) = occurs (pos n) (t ∷ ts)

abbrev pub counted_times : ℤ → List CuePoint → List ℤ
counted_times v [] = []
counted_times v (c ∷ cs) =
    if counts v c.tracks then c.time ∷ counted_times v cs else counted_times v cs

-- The right index of a file with this video track and these cues, at the default timecode scale.
abbrev pub IsIndex : ℤ → List CuePoint → Option (List ℤ × ℤ) → Type 0
IsIndex v cs none = counted_times v cs ≡ []
IsIndex v cs (some (ts, scale)) =
    (scale ≡ pos 1000000) × (counted_times v cs ≢ []) × IsSorted ts × Perm ts (counted_times v cs)

has_track-occurs : (v : ℤ) (ts : List ℤ) → has_track v ts ≡ occurs v ts
unfolding has_track occurs
has_track-occurs v [] = refl
has_track-occurs v (t ∷ ts) = ground (arith, has_track-occurs v ts)

kept-counts : (v : ℤ) (c : CuePoint) → is_kept v c ≡ counts v c.tracks
kept-counts v c = of_tracks v c.tracks
  where
    of_tracks :
        (v : ℤ) (ts : List ℤ)
        → (not (leb_ℤ (pos 0) v && not (is_empty ts)) || has_track v ts) ≡ counts v ts
    of_tracks (negsuc n) [] = ground arith
    of_tracks (negsuc n) (t ∷ ts) = ground arith
    of_tracks (pos n) [] = ground arith
    of_tracks (pos n) (t ∷ ts) = ground (arith, has_track-occurs (pos n) (t ∷ ts))

kept_times-counted : (v : ℤ) (cs : List CuePoint) → kept_times v cs ≡ counted_times v cs
unfolding kept_times
kept_times-counted v [] = refl
kept_times-counted v (c ∷ cs) = rw (kept-counts v c) (rw (kept_times-counted v cs))

of_times-IsIndex :
    (v : ℤ) (cs : List CuePoint) (ts : List ℤ)
    → ts ≡ counted_times v cs
    → IsIndex v cs (of_times ts (pos 1000000))
of_times-IsIndex v cs [] e = sym e
of_times-IsIndex v cs (t ∷ ts) e =
    let (s, p) = sort_times-IsSorted (t ∷ ts) in (refl, λ n. absurd (cc (e, n)), s, rw (← e) p)

-- From its tracks and cues, in either order of the two sections, a file has one and the same index:
-- the sorted times of the cues that name the last video track, or no track; where no track is a video
-- track, of all cues; and with no such cue there is no index. The timecode scale is the default one.
pub mkv_keyframes-sections :
    (ts : List (ℤ × ℤ)) (cs : List CuePoint)
    → (found : Option (List ℤ × ℤ)) × IsIndex (video_of (negsuc 0) ts) cs found
      × (mkv_keyframes (track_events ts ++ (cue_events cs ++ [])) false ≡ some found)
      × (mkv_keyframes (cue_events cs ++ (track_events ts ++ [])) false ≡ some found)
unfolding mkv_keyframes
mkv_keyframes-sections ts cs =
    let (a, la, ea) = tracks-Leaves ts (cue_events cs ++ []) new_handler in
    let (b, lb, eb) = cues-Leaves cs [] a in
    let (c, lc, ec) = cues-Leaves cs (track_events ts ++ []) new_handler in
    let (d, ld, ed) = tracks-Leaves ts [] c in
    let v = video_of (negsuc 0) ts in
    (
      of_times (kept_times v cs) (pos 1000000),
      of_times-IsIndex v cs (kept_times v cs) (kept_times-counted v cs),
      ap (λ (h : CueHandler). some (of_handler h)) (ea ∙ eb)
          ∙ ap some (
              result b _ cs _ (record {
                video = lb.video ∙ la.video;
                points = lb.points ∙ ap (λ (ps : List CuePoint). ps ++ cs) la.points;
                scaled = lb.scaled ∙ la.scaled;
              })),
      ap (λ (h : CueHandler). some (of_handler h)) (ec ∙ ed)
          ∙ ap some (
              result d _ cs _ (record {
                video = ld.video ∙ ap (λ (v : ℤ). video_of v ts) lc.video;
                points = ld.points ∙ lc.points;
                scaled = ld.scaled ∙ lc.scaled;
              })),
    )
