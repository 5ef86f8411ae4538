-- ===== src/Rendition/Lifecycle.antt =====
-- media/rendition/lifecycle.go: the states of a generation.
use torrent_go.Prelude.{ℕ, ◌<◌, ◌≡◌, Bool, true, false, if◌then◌else◌, Option, none, some, arith}

pub data GenerationState : Type 0 where
  discovered : GenerationState
  candidate_prepared : GenerationState
  primed : GenerationState
  committed : GenerationState
  running : GenerationState
  complete : GenerationState
  failed : GenerationState

abbrev pub valid : GenerationState → GenerationState → Bool
valid discovered candidate_prepared = true
valid candidate_prepared primed = true
valid primed committed = true
valid committed running = true
valid committed failed = true
valid running complete = true
valid running failed = true
valid _ _ = false

-- `none` for the error of an invalid transition, which leaves the state as it is.
unfoldable pub transition : GenerationState → GenerationState → Option GenerationState
transition state next = if valid state next then some next else none

abbrev rank : GenerationState → ℕ
rank discovered = 0
rank candidate_prepared = 1
rank primed = 2
rank committed = 3
rank running = 4
rank complete = 5
rank failed = 5

-- A generation only advances, so it never comes back to a state that it has left.
pub transition-advances :
    (s next t : GenerationState) → transition s next ≡ some t → rank s < rank t
unfolding transition
transition-advances s next t e = ground arith
