-- ===== src/Handlers/MkvIndex.antt =====
-- handlers/mkvindex.go `mkvKeyframes` and `mkvCueHandler`: the cues of a Matroska file.
--
-- The parser is not part of the program: an argument lists the calls that it makes to the handler,
-- in its order. A time is a number of ticks; the source multiplies it by the timecode scale, which
-- is positive, before it sorts.
pub mod Cues
use torrent_go.Prelude.{
  ℕ, Bool, true, false, not, ◌&&◌, ◌||◌, ◌==◌, ltb, if◌then◌else◌, Option, none, some, List, [],
  ◌∷◌, ◌++◌, length,
}
use torrent_go.Prelude.Int.{ℤ, pos, negsuc, ltb_ℤ, leb_ℤ, same_number}

pub record CuePoint : Type 0 where
  pub time : ℤ
  pub tracks : List ℤ

pub record CueHandler : Type 0 where
  pub timecode_scale : ℤ
  pub video_track : ℤ
  pub in_track_entry : Bool
  pub cur_track_num : ℤ
  pub cur_track_type : ℤ
  pub in_cue_point : Bool
  pub cur_cue_time : ℤ
  pub cur_cue_set : Bool
  pub cur_tracks : List ℤ
  pub cues : List CuePoint

abbrev pub new_handler : CueHandler
new_handler = record {
  timecode_scale = pos 1000000;
  video_track = negsuc 0;
  in_track_entry = false;
  cur_track_num = pos 0;
  cur_track_type = pos 0;
  in_cue_point = false;
  cur_cue_time = pos 0;
  cur_cue_set = false;
  cur_tracks = [];
  cues = [];
}

pub data Master : Type 0 where
  track_entry cue_point other_master : Master

pub data IntegerId : Type 0 where
  timecode_scale_id track_number track_type cue_time cue_track other_integer : IntegerId

pub data Event : Type 0 where
  master_begin master_end : Master → Event
  integer : IntegerId → ℤ → Event

unfoldable pub handle_master_begin : CueHandler → Master → CueHandler
handle_master_begin h track_entry = record h {
  in_track_entry = true;
  cur_track_num = negsuc 0;
  cur_track_type = negsuc 0;
}
handle_master_begin h cue_point = record h {
  in_cue_point = true;
  cur_cue_time = pos 0;
  cur_cue_set = false;
  cur_tracks = [];
}
handle_master_begin h other_master = h

unfoldable pub handle_master_end : CueHandler → Master → CueHandler
handle_master_end h track_entry = record h {
  video_track =
      if same_number h.cur_track_type (pos 1) && leb_ℤ (pos 0) h.cur_track_num
      then h.cur_track_num
      else h.video_track;
  in_track_entry = false;
}
handle_master_end h cue_point = record h {
  cues =
      if h.cur_cue_set
      then h.cues ++ (record { time = h.cur_cue_time; tracks = h.cur_tracks } ∷ [])
      else h.cues;
  in_cue_point = false;
}
handle_master_end h other_master = h

unfoldable pub handle_integer : CueHandler → IntegerId → ℤ → CueHandler
handle_integer h timecode_scale_id v = record h {
  timecode_scale = if ltb_ℤ (pos 0) v then v else h.timecode_scale;
}
handle_integer h track_number v = record h {
  cur_track_num = if h.in_track_entry then v else h.cur_track_num;
}
handle_integer h track_type v = record h {
  cur_track_type = if h.in_track_entry then v else h.cur_track_type;
}
handle_integer h cue_time v = record h {
  cur_cue_time = if h.in_cue_point then v else h.cur_cue_time;
  cur_cue_set = h.in_cue_point || h.cur_cue_set;
}
handle_integer h cue_track v = record h {
  cur_tracks = if h.in_cue_point then h.cur_tracks ++ (v ∷ []) else h.cur_tracks;
}
handle_integer h other_integer v = h

unfoldable pub handle : CueHandler → Event → CueHandler
unfolding handle_master_begin handle_master_end handle_integer
handle h (master_begin m) = handle_master_begin h m
handle h (master_end m) = handle_master_end h m
handle h (integer i v) = handle_integer h i v

unfoldable pub handle_all : CueHandler → List Event → CueHandler
handle_all h [] = h
handle_all h (e ∷ es) = handle_all (handle h e) es

unfoldable pub has_track : ℤ → List ℤ → Bool
has_track v [] = false
has_track v (t ∷ ts) = same_number t v || has_track v ts

abbrev pub is_empty : List ℤ → Bool
is_empty [] = true
is_empty (t ∷ ts) = false

-- A cue without tracks is kept, and so is each cue where there is no video track.
abbrev pub is_kept : ℤ → CuePoint → Bool
is_kept v c = not (leb_ℤ (pos 0) v && not (is_empty c.tracks)) || has_track v c.tracks

unfoldable pub kept_times : ℤ → List CuePoint → List ℤ
kept_times v [] = []
kept_times v (c ∷ cs) = let rest = kept_times v cs in if is_kept v c then c.time ∷ rest else rest

-- `sort.Float64s`
unfoldable pub insert_time : ℤ → List ℤ → List ℤ
insert_time t [] = t ∷ []
insert_time t (u ∷ us) = let later = u ∷ insert_time t us in if leb_ℤ t u then t ∷ u ∷ us else later

unfoldable pub sort_times : List ℤ → List ℤ
unfolding insert_time
sort_times [] = []
sort_times (t ∷ ts) = insert_time t (sort_times ts)

-- No time at all means that there is no index.
abbrev pub of_times : List ℤ → ℤ → Option (List ℤ × ℤ)
of_times [] scale = none
of_times (t ∷ ts) scale = some (sort_times (t ∷ ts), scale)

-- What the handler has collected: the key frames and their scale, or `none` to fall back.
abbrev pub of_handler : CueHandler → Option (List ℤ × ℤ)
of_handler h = of_times (kept_times h.video_track h.cues) h.timecode_scale

-- The outer `none` is an error of the parser.
unfoldable pub mkv_keyframes : List Event → Bool → Option (Option (List ℤ × ℤ))
unfolding handle_all kept_times sort_times
mkv_keyframes events is_broken =
    if is_broken then none else some (of_handler (handle_all new_handler events))
