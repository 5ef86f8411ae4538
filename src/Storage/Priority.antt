-- ===== src/Storage/Priority.antt =====
-- storage/cache.go `UpdatePriorities`: what the open readers of a torrent ask for, merged to one
-- priority a piece, and the `SetPriority` calls for the pieces of one file.
--
-- The map `desired` is a function, `none` for a missing key: the source compares and sets a missing
-- key as `PiecePriorityNone`. The list of readers is the order in which Go's map happens to be
-- visited.
pub mod Merge
pub mod Calls
use torrent_go.Prelude.{
  ℕ, zero, suc, ◌+◌, ◌-◌, ◌/◌, Bool, true, false, ◌&&◌, ltb, leb, ◌==◌, if◌then◌else◌, List, [],
  ◌∷◌,
}
use torrent_go.Storage.ReadClass.{
  PiecePriority, none, high, rank, ClassPolicy, policy, ahead_pieces_for,
}
use torrent_go.Storage.Window.{Reader, Geometry, curr_piece}

abbrev pub Desired : Type 0
Desired = ℕ → PiecePriority

-- `if desired[idx] < prio { desired[idx] = prio }`
abbrev pub raise : ℕ → PiecePriority → Desired → Desired
raise idx prio d j = if j == idx && ltb (rank (d j)) (rank prio) then prio else d j

-- A loop over `n` pieces from `lo` that raises those of the file, `fs` to `fe`.
unfoldable pub raise_range : ℕ → ℕ → PiecePriority → ℕ → ℕ → Desired → Desired
raise_range zero lo prio fs fe d = d
raise_range (suc n) lo prio fs fe d =
    raise_range n (lo + 1) prio fs fe (if leb fs lo && leb lo fe then raise lo prio d else d)

abbrev pub tail_pieces : ClassPolicy → ℕ → ℕ
tail_pieces pol piece_len =
    let n = pol.tail_boost_bytes / piece_len in
    if ltb 0 pol.tail_boost_bytes && ltb 0 piece_len then (if ltb 2 n then n else 2) else 2

-- The container index: the first two pieces of the file, and its tail.
unfoldable pub boost : ClassPolicy → ℕ → ℕ → ℕ → Desired → Desired
boost pol piece_len fs fe d =
    let tail = tail_pieces pol piece_len in
    if pol.head_foot_boost
    then raise_range (suc fe - (suc fe - tail)) (suc fe - tail) high fs fe
        (raise_range 2 fs high fs fe d)
    else d

unfoldable pub visit : Geometry → ℕ → ℕ → Reader → Desired → Desired
visit g fs fe r d =
    let pol = policy r.class in
    let curr = curr_piece g r in
    if r.closed
    then d
    else boost pol g.piece_len fs fe (
        raise_range (ahead_pieces_for pol g.piece_len) (curr + 1) pol.ahead_prio fs fe
          (raise_range 1 curr pol.cur_prio fs fe d))

unfoldable pub desired : Geometry → ℕ → ℕ → List Reader → Desired → Desired
desired g fs fe [] d = d
desired g fs fe (r ∷ rs) d = desired g fs fe rs (visit g fs fe r d)

-- The `SetPriority` calls, from `idx` on.
unfoldable pub set_priorities : ℕ → ℕ → Desired → List (ℕ × PiecePriority)
set_priorities zero idx d = []
set_priorities (suc n) idx d = (idx, d idx) ∷ set_priorities n (idx + 1) d

-- The loop runs from `fs` while `idx <= fe` and `idx < piece_count`.
unfoldable pub update_priorities : Bool → Geometry → List Reader → ℕ → ℕ → List (ℕ × PiecePriority)
update_priorities has_torrent g readers fs fe =
    let stop = if leb g.piece_count (suc fe) then g.piece_count else suc fe in
    if has_torrent then set_priorities (stop - fs) fs (desired g fs fe readers (λ _. none)) else []
