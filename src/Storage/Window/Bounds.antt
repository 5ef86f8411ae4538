-- ===== src/Storage/Window/Bounds.antt =====
-- Which pieces a reader's presence keeps resident.
use torrent_go.Prelude.{
  ℕ, ◌+◌, ◌-◌, ◌*◌, ◌≤◌, ◌<◌, ◌≡◌, ◌⊎◌, inl, inr, true, false, max, arith, List, [], ◌∷◌, ◌||◌,
  dec_lt,
}
use native.Mathlib.Nat.{mul-le-mul_right}
use torrent_go.Storage.ReadClass.{
  playback, playback_readahead_bytes, policy, ahead_pieces_for, playback_window_bounds,
}
use torrent_go.Storage.Window.{
  Reader, Geometry, file_start_piece, file_end_piece, curr_piece, in_head, in_foot, within,
  active_window, protects, reader_windows,
}

-- A reader of the list protects what it protects alone.
abbrev pub Member : Reader → List Reader → Type 0
Member r [] = ⊥
Member r (s ∷ rs) = (r ≡ s) ⊎ Member r rs

protects-reader_windows :
    (g : Geometry) (r : Reader) (rs : List Reader) (i : ℕ)
    → Member r rs
    → protects g r i ≡ true
    → reader_windows g rs i ≡ true
unfolding reader_windows
protects-reader_windows g r [] i m h = absurd m
protects-reader_windows g r (s ∷ rs) i (inl e) h = ground arith
protects-reader_windows g r (s ∷ rs) i (inr m) h =
    ground (arith, protects-reader_windows g r rs i m)

edge-protects :
    (g : Geometry) (r : Reader) (i : ℕ)
    → file_start_piece g r ≤ i
    → i ≤ file_end_piece g r
    → (i < file_start_piece g r + 3) ⊎ (file_end_piece g r < i + 3)
    → protects g r i ≡ true
unfolding protects
edge-protects g r i lo hi (inl e) = let h : in_head g r i ≡ true = ground arith in ground arith
edge-protects g r i lo hi (inr e) =
    let h : in_head g r i || in_foot g r i ≡ true = ground arith in ground arith

near-protects :
    (g : Geometry) (r : Reader) (i : ℕ)
    → r.closed ≡ false
    → i < g.piece_count
    → curr_piece g r ≤ i + 2
    → i ≤ curr_piece g r + 2
    → protects g r i ≡ true
unfolding protects active_window
near-protects g r i o lt a b =
    let w = active_window g r in let h : within w.0 w.1 i ≡ true = ground arith in ground arith

-- For every registered reader, open or closed, the first three and the last three pieces of its
-- file are protected, and while it is open so is every piece of the torrent from two before its
-- position to two after it.
pub windows-cover :
    (g : Geometry) (r : Reader) (rs : List Reader) (i : ℕ)
    → Member r rs
    → ((file_start_piece g r ≤ i)
        × (i ≤ file_end_piece g r)
        × ((i < file_start_piece g r + 3) ⊎ (file_end_piece g r < i + 3)))
      ⊎ ((r.closed ≡ false)
          × (i < g.piece_count)
          × (curr_piece g r ≤ i + 2)
          × (i ≤ curr_piece g r + 2))
    → reader_windows g rs i ≡ true
windows-cover g r rs i m (inl (lo, hi, e)) =
    protects-reader_windows g r rs i m (edge-protects g r i lo hi e)
windows-cover g r rs i m (inr (o, lt, a, b)) =
    protects-reader_windows g r rs i m (near-protects g r i o lt a b)

window-width :
    (g : Geometry) (r : Reader)
    → r.closed ≡ false
    → ((active_window g r).1 ≤ g.piece_count)
      × ((active_window g r).1 - (active_window g r).0
          ≤ max (ahead_pieces_for (policy r.class) g.piece_len) 2 + 3)
unfolding active_window
window-width g r o = ground arith

scale : (w n l m : ℕ) → w ≤ max n 2 + 3 → n * l ≤ m → w * l ≤ max m (2 * l) + 3 * l
scale w n l m h k = elim (dec_lt n 2) [
  | yes p ↦ let q : w * l ≤ 5 * l = mul-le-mul_right l (omega arith) in omega arith
  | no p ↦ let q : w * l ≤ (n + 3) * l = mul-le-mul_right l (omega arith) in omega arith
]

-- The window of an open player spans at most the read-ahead budget (or two pieces, where pieces are
-- large) and three pieces around its position, and stays inside the torrent.
pub active_window_bytes :
    (g : Geometry) (r : Reader)
    → 0 < g.piece_len
    → r.class ≡ playback
    → r.closed ≡ false
    → ((active_window g r).1 ≤ g.piece_count)
      × (((active_window g r).1 - (active_window g r).0) * g.piece_len
          ≤ max playback_readahead_bytes (2 * g.piece_len) + 3 * g.piece_len)
active_window_bytes g r pos c o =
    let n = ahead_pieces_for (policy r.class) g.piece_len in
    let e : n ≡ ahead_pieces_for (policy playback) g.piece_len = rw c in
    let fit : n * g.piece_len ≤ max playback_readahead_bytes g.piece_len =
      rw e (playback_window_bounds g.piece_len pos).1 in
    let (inside, wide) = window-width g r o in
    let w = (active_window g r).1 - (active_window g r).0 in
    (
      inside,
      omega (arith, scale w n g.piece_len (max playback_readahead_bytes g.piece_len) wide fit),
    )
