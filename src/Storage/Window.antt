-- ===== src/Storage/Window.antt =====
-- storage/reader.go and storage/cache.go: the state of a reader, the window of pieces that it is
-- about to read, and the pieces that the readers protect from eviction.
--
-- Offsets and positions are never negative: `Seek` refuses a negative one. A range of pieces is
-- written by its first piece and the one past its last. A torrent's `piece_len` is positive; a
-- division by zero panics in the source and is 0 here.
pub mod Bounds
use torrent_go.Prelude.{
  ℕ, suc, ◌+◌, ◌-◌, ◌/◌, Bool, true, false, ◌&&◌, ◌||◌, ltb, leb, if◌then◌else◌, min, Option, List,
  [], ◌∷◌,
}
use torrent_go.Storage.ReadClass.{ReadClass, policy, ahead_pieces_for}

-- `last_piece_idx` is `none` for the initial -1, `wait_deadline` is `none` for the zero time.
pub record Reader : Type 0 where
  pub id : ℕ
  pub file_offset : ℕ
  pub file_size : ℕ
  pub pos : ℕ
  pub closed : Bool
  pub last_piece_idx : Option ℕ
  pub class : ReadClass
  pub wait_deadline : Option ℕ

-- The pieces of a torrent, as a reader sees them.
pub record Geometry : Type 0 where
  pub piece_len : ℕ
  pub piece_count : ℕ

abbrev pub file_start_piece : Geometry → Reader → ℕ
file_start_piece g r = r.file_offset / g.piece_len

abbrev pub file_end_piece : Geometry → Reader → ℕ
file_end_piece g r = (r.file_offset + r.file_size - 1) / g.piece_len

abbrev pub curr_piece : Geometry → Reader → ℕ
curr_piece g r = (r.file_offset + r.pos) / g.piece_len

-- The window is `start ≤ i < stop`. A closed reader's is piece 0.
unfoldable pub active_window : Geometry → Reader → ℕ × ℕ
active_window g r =
    let curr = curr_piece g r in
    let ahead = ahead_pieces_for (policy r.class) g.piece_len in
    let ahead' = if ltb ahead 2 then 2 else ahead in
    let stop = suc (curr + ahead') in
    if r.closed
    then (0, 1)
    else (curr - 2, if leb (suc g.piece_count) stop then g.piece_count else stop)

abbrev pub within : ℕ → ℕ → ℕ → Bool
within lo hi i = leb lo i && ltb i hi

-- The first three pieces of the file.
abbrev pub in_head : Geometry → Reader → ℕ → Bool
in_head g r i =
    within (file_start_piece g r) (min (file_start_piece g r + 3) (suc (file_end_piece g r))) i

-- The last three; the loop does not start if its first index lies before the file.
abbrev pub in_foot : Geometry → Reader → ℕ → Bool
in_foot g r i =
    leb (file_start_piece g r + 2) (file_end_piece g r)
    && within (file_end_piece g r - 2) (suc (file_end_piece g r)) i

unfoldable pub protects : Geometry → Reader → ℕ → Bool
protects g r i = let w = active_window g r in within w.0 w.1 i || (in_head g r i || in_foot g r i)

-- The keys of the map that `getReaderWindows` returns.
unfoldable pub reader_windows : Geometry → List Reader → ℕ → Bool
reader_windows g [] i = false
reader_windows g (r ∷ rs) i = protects g r i || reader_windows g rs i
