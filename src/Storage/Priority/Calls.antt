-- ===== src/Storage/Priority/Calls.antt =====
-- The priorities that reach the torrent client.
use torrent_go.Prelude.{
  ℕ, zero, suc, ◌+◌, ◌-◌, ◌≤◌, ◌<◌, ◌≡◌, ◌∙◌, true, false, ◌&&◌, ltb, leb, if◌then◌else◌, arith,
  List, some,
}
use torrent_go.Prelude.{none as nothing}
use torrent_go.Prelude.Assoc.{lookup}
use torrent_go.Storage.ReadClass.{PiecePriority, none, now, playback, rank, policy}
use torrent_go.Storage.Window.{Reader, Geometry, curr_piece}
use torrent_go.Storage.Window.Bounds.{Member}
use torrent_go.Storage.Priority.{Desired, desired, set_priorities, update_priorities}
use torrent_go.Storage.Priority.Merge.{claim_current, claim-le-desired}

set_priorities-lookup :
    (n idx : ℕ) (d : Desired) (j : ℕ)
    → lookup j (set_priorities n idx d)
      ≡ (if leb idx j && ltb j (idx + n) then some (d j) else nothing)
unfolding set_priorities
set_priorities-lookup zero idx d j = ground arith
set_priorities-lookup (suc n) idx d j = ground (arith, set_priorities-lookup n (idx + 1) d j)

-- Exactly the pieces of the file that the torrent has are set, each to the merged priority.
pub update_priorities-lookup :
    (g : Geometry) (rs : List Reader) (fs fe j : ℕ)
    → lookup j (update_priorities true g rs fs fe) ≡ (
        if leb fs j && (leb j fe && ltb j g.piece_count)
        then some (desired g fs fe rs (λ _. none) j)
        else nothing)
unfolding update_priorities
update_priorities-lookup g rs fs fe j =
    set_priorities-lookup (stop - fs) fs (desired g fs fe rs (λ _. none)) j ∙ ground arith
  where
    stop : ℕ
    stop = if leb g.piece_count (suc fe) then g.piece_count else suc fe

rank_top : (p : PiecePriority) → rank now ≤ rank p → p ≡ now
rank_top p h = ground arith

-- The piece that an open player reads, inside the file and the torrent, is always set to Now,
-- whichever other readers there are and in whichever order they are visited.
pub player_gets_now :
    (g : Geometry) (r : Reader) (rs : List Reader) (fs fe : ℕ)
    → Member r rs
    → r.class ≡ playback
    → r.closed ≡ false
    → fs ≤ curr_piece g r
    → curr_piece g r ≤ fe
    → curr_piece g r < g.piece_count
    → lookup (curr_piece g r) (update_priorities true g rs fs fe) ≡ some now
unfolding policy
player_gets_now g r rs fs fe m c o lo hi lt =
    let j = curr_piece g r in
    let top : rank now ≤ rank (policy r.class).cur_prio = rw c (omega arith) in
    let e : desired g fs fe rs (λ _. none) j ≡ now = rank_top _ (
      omega
        (arith, claim_current g fs fe r o lo hi, claim-le-desired g fs fe r rs (λ _. none) j m)) in
    update_priorities-lookup g rs fs fe j ∙ ground arith
