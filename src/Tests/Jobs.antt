-- ===== src/Tests/Jobs.antt =====
-- Extraction jobs.
use torrent_go.Prelude.{refl, false, [], ◌∷◌}
use torrent_go.Handlers.Executor.{
  ext_heavy, new_ext_executor, System, Step, Reachable, enter, look, with_ticket,
}
use torrent_go.Handlers.Executor.Slots.{IsFair, reachable-IsFair}

abbrev idle : System
idle = record { executor = new_ext_executor 2 1 1; tickets = [] }

-- One heavy job asks.
abbrev asking : System
asking = record idle { tickets = enter idle.executor ext_heavy ∷ [] }

-- It has the only slot, and another one asks.
abbrev working : System
working = with_ticket asking 0 (look asking.executor ext_heavy false)

abbrev crowded : System
crowded = record working { tickets = enter working.executor ext_heavy ∷ working.tickets }

-- The other one goes to sleep.
abbrev full : System
full = with_ticket crowded 0 (look crowded.executor ext_heavy false)

full-Reachable : Reachable 2 1 1 full
unfolding new_ext_executor enter look
full-Reachable =
    Reachable.after
      (Reachable.after
        (Reachable.after (Reachable.after Reachable.start (Step.enters ext_heavy))
          (Step.looks 0 ext_heavy false refl))
        (Step.enters ext_heavy))
      (Step.looks 0 ext_heavy false refl)

reachable-IsFair_example : IsFair (new_ext_executor 2 1 1).limits full
reachable-IsFair_example = reachable-IsFair 2 1 1 full-Reachable
