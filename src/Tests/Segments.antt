-- ===== src/Tests/Segments.antt =====
-- The segment grid and the segment cache.
use torrent_go.Prelude.{◌≡◌, refl, some, List, [], ◌∷◌, arith}
use torrent_go.Prelude.Int.{ℤ, pos, ◌+ℤ◌, ◌-ℤ◌, ◌≤ℤ◌}
use torrent_go.Handlers.SegCache.{SegCache, ensure, get, put}
use torrent_go.Handlers.SegCache
use torrent_go.Handlers.SegCache.Fit.{
  IsExact, IsLongestFit, bytes, touched, put-IsLongestFit, get-put,
}
use torrent_go.Handlers.SegGrid
use torrent_go.Handlers.SegGrid.{compute_seg_list, uniform_seg_list, src_start, extinf}
use torrent_go.Handlers.SegGrid.Grid.{
  IsGrid, OnKeyframes, compute_seg_list-IsGrid, compute_seg_list-OnKeyframes,
}
use torrent_go.Handlers.SegGrid.Abut.{segments_abut}

-- Room for five bytes, and two segments in it.
abbrev small : SegCache
small = record {
  max_bytes = 5;
  cur_bytes = pos 4;
  entries = ("a/2", 3 ∷ 4 ∷ []) ∷ ("a/1", 1 ∷ 2 ∷ []) ∷ [];
}

small-IsExact : IsExact small
small-IsExact = record { counted = refl; distinct = ground arith }

-- The segment that was used last stays, the other one goes.
put_drops_oldest :
    (put small "a/3" (5 ∷ 6 ∷ [])).entries ≡ ("a/3", 5 ∷ 6 ∷ []) ∷ ("a/2", 3 ∷ 4 ∷ []) ∷ []
unfolding put SegCache.ensure SegCache.evict SegCache.drop_back ◌-ℤ◌ ◌+ℤ◌
put_drops_oldest = refl

put-IsLongestFit_example :
    IsLongestFit
      (ensure small).max_bytes
      (touched small.entries "a/3" (5 ∷ 6 ∷ []))
      (put small "a/3" (5 ∷ 6 ∷ [])).entries
    × ((put small "a/3" (5 ∷ 6 ∷ [])).cur_bytes
        ≡ pos (bytes (put small "a/3" (5 ∷ 6 ∷ [])).entries))
put-IsLongestFit_example = put-IsLongestFit small "a/3" (5 ∷ 6 ∷ []) small-IsExact

get-put_example : (get (put small "a/3" (5 ∷ 6 ∷ [])) "a/3").1 ≡ some (5 ∷ 6 ∷ [])
get-put_example = get-put small "a/3" (5 ∷ 6 ∷ []) small-IsExact

-- Keyframes at 0, 4, 8, 9 and 16 seconds of a file of 20.
abbrev later : List ℤ
later = pos 4000 ∷ pos 8000 ∷ pos 9000 ∷ pos 16000 ∷ []

cut_at_keyframes :
    (compute_seg_list (pos 0) later (pos 20000)).content_starts ≡ pos 0 ∷ pos 8000 ∷ pos 16000 ∷ []
unfolding compute_seg_list SegGrid.cuts ◌-ℤ◌
cut_at_keyframes = refl

compute_seg_list-IsGrid_example : IsGrid 5999 (compute_seg_list (pos 0) later (pos 20000))
compute_seg_list-IsGrid_example = compute_seg_list-IsGrid (pos 0) later (pos 20000)

compute_seg_list-OnKeyframes_example :
    OnKeyframes (pos 0) (pos 0 ∷ later) (compute_seg_list (pos 0) later (pos 20000)).content_starts
compute_seg_list-OnKeyframes_example = compute_seg_list-OnKeyframes (pos 0) later (pos 20000)

segments_abut_example :
    let s = compute_seg_list (pos 0) later (pos 20000) in
    (src_start s (pos 1) +ℤ extinf s (pos 1) ≡ src_start s (pos 2)) × (pos 5999 ≤ℤ extinf s (pos 1))
segments_abut_example =
    segments_abut 5999 (compute_seg_list (pos 0) later (pos 20000)) 1
      (compute_seg_list-IsGrid (pos 0) later (pos 20000))
      (unfold compute_seg_list SegGrid.cuts ◌-ℤ◌ in omega arith)
