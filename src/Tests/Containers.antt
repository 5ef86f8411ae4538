-- ===== src/Tests/Containers.antt =====
-- Container indexes, fragments, thumbnails and the gate of the transcoder.
use Prim.Native.String.{String}
use torrent_go.Handlers.MkvIndex.{CuePoint, handle, has_track, mkv_keyframes}
use torrent_go.Handlers.MkvIndex.Cues.{
  IsIndex, track_events, cue_events, video_of, mkv_keyframes-sections,
}
use torrent_go.Handlers.Mp4Index.{
  Box, trak, trak_end, hdlr, mdhd, stss_box, stts_box, Track, SttsEntry, keyframes, fill_run, visit,
  visit_all, mp4_keyframes,
}
use torrent_go.Handlers.Mp4Index.Reference.{
  AreSmall, deltas, sum_first, time_of, mp4_keyframes-exact,
}
use torrent_go.Handlers.Thumbnails.{
  ThumbnailCache, new_thumbnail_cache, get, set, remove, move_to_mru,
}
use torrent_go.Handlers.Thumbnails.Runs.{Call, get_call, set_call, call, calls, replaced}
use torrent_go.Handlers.Thumbnails.Recent.{last_use, set-replaces_oldest}
use torrent_go.Media.Fragments.{Sample, new_frag_writer, write_all, finish}
use torrent_go.Media.Fragments.Steps.{always, of_stream, stamped}
use torrent_go.Media.Fragments.Stamped.{segment-stamped}
use torrent_go.Media.TranscodeGate.{new_video_transcode_gate, taken, start, acquire}
use torrent_go.Media.TranscodeGate.Slots.{IsCounted, reachable-IsCounted}
use torrent_go.Prelude.{
  ℕ, zero, suc, ◌<◌, ◌^◌, ◌≡◌, ◌≢◌, ◌⊎◌, refl, inl, inr, false, true, Option, some, none, List, [],
  ◌∷◌, ◌++◌, map, arith,
}
use torrent_go.Prelude.Int.{ℤ, pos, negsuc, ◌+ℤ◌}
use torrent_go.Prelude.TextMap.{lookup}

-- Three samples of 40 ticks and one of 20, of which the first and the fourth are key samples.
abbrev runs : List SttsEntry
runs =
    record { sample_count = 3; sample_delta = 40 }
    ∷ record { sample_count = 1; sample_delta = 20 }
    ∷ []

abbrev video : Track
video = record {
  handler = "vide";
  timescale = 1000;
  stss = some (1 ∷ 4 ∷ []);
  stts = some runs;
  ctts = none;
}

abbrev boxes : List Box
boxes = trak ∷ mdhd 1000 ∷ hdlr "vide" ∷ stss_box (1 ∷ 4 ∷ []) ∷ stts_box runs ∷ trak_end ∷ []

runs-AreSmall : AreSmall runs none
runs-AreSmall = record { small_times = times; small_shifts = λ i. omega arith }
  where
    times : (i : ℕ) → sum_first i (deltas runs) < 2 ^ 62
    times zero = omega arith
    times (suc zero) = omega arith
    times (suc (suc zero)) = omega arith
    times (suc (suc (suc zero))) = omega arith
    times (suc (suc (suc (suc zero)))) = omega arith
    times (suc (suc (suc (suc (suc i))))) = omega arith

mp4_keyframes-exact_example :
    mp4_keyframes boxes false ≡ keyframes (map (time_of runs none) (1 ∷ 4 ∷ [])) 1000
mp4_keyframes-exact_example =
    mp4_keyframes-exact boxes video 1 (4 ∷ []) runs (unfold visit_all visit in refl) (omega arith)
      refl refl runs-AreSmall (omega arith)

mp4_times : mp4_keyframes boxes false ≡ keyframes (pos 0 ∷ pos 120 ∷ []) 1000
unfolding mp4_keyframes ◌+ℤ◌ fill_run
mp4_times = refl

-- A video track and an audio track, and cues of both in no order.
abbrev entries : List (ℤ × ℤ)
entries = (pos 1, pos 1) ∷ (pos 2, pos 2) ∷ []

abbrev cues : List CuePoint
cues =
    record { time = pos 9; tracks = pos 1 ∷ [] }
    ∷ record { time = pos 5; tracks = pos 2 ∷ [] }
    ∷ record { time = pos 4; tracks = pos 1 ∷ pos 2 ∷ [] }
    ∷ []

mkv_keyframes-sections_example :
    (found : Option (List ℤ × ℤ)) × IsIndex (video_of (negsuc 0) entries) cues found
    × (mkv_keyframes (track_events entries ++ (cue_events cues ++ [])) false ≡ some found)
    × (mkv_keyframes (cue_events cues ++ (track_events entries ++ [])) false ≡ some found)
mkv_keyframes-sections_example = mkv_keyframes-sections entries cues

mkv_times :
    mkv_keyframes (cue_events cues ++ track_events entries) false
    ≡ some (some (pos 4 ∷ pos 9 ∷ [], pos 1000000))
unfolding mkv_keyframes handle has_track
mkv_times = refl

-- Packets of two streams.
abbrev packets : List Sample
packets =
    record { stream = 0; dts = pos 0; duration = pos 0; content = 1 ∷ [] }
    ∷ record { stream = 1; dts = pos 0; duration = pos 7; content = 2 ∷ [] }
    ∷ record { stream = 0; dts = pos 40; duration = pos 0; content = 3 ∷ [] }
    ∷ []

segment-stamped_example :
    let w = write_all always new_frag_writer packets in
    let r = finish always w.0 (1 ∷ 0 ∷ []) in
    (w.1 ≡ true) × (r.1 ≡ true) × (of_stream 0 r.0.written ≡ stamped (pos 0) (of_stream 0 packets))
segment-stamped_example = segment-stamped 0 packets (1 ∷ 0 ∷ []) (inr (inl refl))

-- Two pictures in a cache for two, of which the older one was found again.
abbrev uses : List Call
uses = set_call 1 "a" (1 ∷ []) ∷ set_call 2 "b" (2 ∷ []) ∷ get_call 3 "a" ∷ []

abbrev full_cache : ThumbnailCache
full_cache = record {
  items =
      ("a", record { picture = 1 ∷ []; created_at = 1 })
      ∷ ("b", record { picture = 2 ∷ []; created_at = 2 })
      ∷ [];
  order = "b" ∷ "a" ∷ [];
  max_size = 2;
  ttl = 5;
}

uses-full_cache : calls uses (new_thumbnail_cache 2 5) ≡ full_cache
unfolding calls call set get new_thumbnail_cache remove move_to_mru
uses-full_cache = refl

set-replaces_oldest_example :
    ((name : String)
      → lookup name full_cache.items ≢ none
      → ("b" ≡ name) ⊎ (last_use uses 2 5 "b" < last_use uses 2 5 name))
    × ((name : String)
        → lookup name (set full_cache 4 "c" (3 ∷ [])).items
          ≡ replaced "c" "b"
              (record { picture = 3 ∷ []; created_at = 4 })
              (lookup name full_cache.items)
              name)
    × ((get (set full_cache 4 "c" (3 ∷ [])) 9 "c").1 ≡ some (3 ∷ []))
set-replaces_oldest_example =
    set-replaces_oldest uses 2 5 full_cache 4 9 "c" "b" ("a" ∷ []) (3 ∷ []) uses-full_cache
      (ground arith) refl (omega arith) (omega arith)

free_slot : (new_video_transcode_gate 2).slots < (new_video_transcode_gate 2).limit
unfolding new_video_transcode_gate
free_slot = omega arith

reachable-IsCounted_example : IsCounted 2 (taken (new_video_transcode_gate 2))
reachable-IsCounted_example = reachable-IsCounted (acquire start free_slot)
