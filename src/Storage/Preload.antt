-- ===== src/Storage/Preload.antt =====
-- storage/preload.go `Preload`, and `WaitForPieces` of storage/cache.go: pieces that are asked for and
-- waited for.
--
-- A wait takes what the other goroutines do to the cache before it, the time, and whether `doneCh` closes
-- before its timer. Sizes are not negative.
pub mod Asked
use torrent_go.Prelude.{
  ℕ, zero, suc, ◌+◌, ◌-◌, ◌*◌, ◌/◌, Bool, true, false, ltb, leb, ◌==◌, if◌then◌else◌, min, Option,
  none, some, List, [], ◌∷◌, ◌++◌,
}
use torrent_go.Storage.ReadClass
use torrent_go.Storage.ReadClass.{PiecePriority}
use torrent_go.Storage.Window.{Geometry}
use torrent_go.Storage.Cache.{Cache, get_or_create}

-- `idx` is not negative.
unfoldable pub get_piece_size : Geometry → ℕ → ℕ → ℕ
get_piece_size g idx total =
    if leb g.piece_count idx
    then 0
    else (if suc idx == g.piece_count then total - idx * g.piece_len else g.piece_len)

-- The indices from `i` on.
unfoldable pub pieces_from : ℕ → ℕ → List ℕ
pieces_from zero i = []
pieces_from (suc n) i = i ∷ pieces_from n (suc i)

unfoldable pub start_pieces : Geometry → ℕ → ℕ → List ℕ
start_pieces g start_piece end_piece =
    pieces_from (min (suc end_piece) g.piece_count - start_piece) start_piece

unfoldable pub last_pieces : Geometry → ℕ → ℕ → List ℕ
last_pieces g start_piece last_piece =
    if ltb last_piece g.piece_count
    then last_piece ∷ (if leb (suc start_piece) last_piece then (last_piece - 1) ∷ [] else [])
    else []

unfoldable pub set_now : List ℕ → List (ℕ × PiecePriority)
set_now [] = []
set_now (i ∷ is) = (i, ReadClass.now) ∷ set_now is

pub record DoneWait : Type 0 where
  pub before : Cache → Cache
  pub now : ℕ
  pub done : Bool

-- Each piece is waited for in turn, and a timeout is only logged. The waits are as many as the pieces.
unfoldable pub await_each : List DoneWait → List ℕ → ℕ → Cache → Cache
await_each [] is total c = c
await_each (x ∷ xs) [] total c = c
await_each (x ∷ xs) (i ∷ is) total c =
    let c₀ = x.before c in
    await_each xs is total (get_or_create c₀ x.now i (get_piece_size c₀.geometry i total)).0

-- The file of a torrent of `total` bytes: where it starts, and its length.
pub record FileSpan : Type 0 where
  pub total : ℕ
  pub offset : ℕ
  pub len : ℕ

-- The calls of `SetPriority`, in order.
unfoldable pub preload_pieces : Geometry → FileSpan → ℕ → List ℕ
preload_pieces g f size =
    let start_piece = f.offset / g.piece_len in
    let end_piece = (min (f.offset + size) (f.offset + f.len) - 1) / g.piece_len in
    let last_piece = (f.offset + f.len - 1) / g.piece_len in
    start_pieces g start_piece end_piece ++ last_pieces g start_piece last_piece

unfoldable pub preload : List DoneWait → Cache → FileSpan → ℕ → Cache × List (ℕ × PiecePriority)
preload waits c f size =
    let pieces = preload_pieces c.geometry f size in
    (await_each waits pieces f.total c, set_now pieces)

-- `WaitForPieces`: `true` if it returns without an error. `deadline` is fixed when the call starts.
unfoldable pub wait_for_pieces : List DoneWait → List ℕ → ℕ → ℕ → Cache → Cache × Option Bool
wait_for_pieces waits [] total deadline c = (c, some true)
wait_for_pieces [] (i ∷ is) total deadline c = (c, none)
wait_for_pieces (x ∷ xs) (i ∷ is) total deadline c =
    let c₀ = x.before c in
    let got = get_or_create c₀ x.now i (get_piece_size c₀.geometry i total) in
    let rest = wait_for_pieces xs is total deadline got.0 in
    let skipped = wait_for_pieces xs is total deadline c₀ in
    if leb c₀.geometry.piece_count i
    then skipped
    else (if leb deadline x.now
        then (got.0, some false)
        else (if x.done then rest else (got.0, some false)))
