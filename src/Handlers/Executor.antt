-- ===== src/Handlers/Executor.antt =====
-- handlers/executor.go: admission of extraction jobs, with a limit for each class, as steps of jobs that
-- run at the same time.
--
-- The mutex makes each part of a call that holds it one step. A job stands in the list of tickets with
-- what it does: `sleeping` in `cond.Wait`, which releases the mutex, `waiting` for the mutex. A limit that is
-- not positive is 0.
pub mod Counting
pub mod Slots
use torrent_go.Prelude.{
  ℕ, zero, suc, ◌+◌, ◌-◌, ◌≡◌, Bool, true, false, leb, ◌==◌, if◌then◌else◌, Option, none, some,
  List, [], ◌∷◌, set, get_elem?,
}

pub data ExtClass : Type 0 where
  ext_window ext_heavy ext_analyze : ExtClass

abbrev pub code : ExtClass → ℕ
code ext_window = 0
code ext_heavy = 1
code ext_analyze = 2

abbrev pub Counts : Type 0
Counts = ExtClass → ℕ

abbrev pub with_count : ExtClass → ℕ → Counts → Counts
with_count cls n counts c = if code c == code cls then n else counts c

pub record ExtExecutor : Type 0 where
  pub inflight : Counts
  pub limits : Counts

abbrev class_limits : ℕ → ℕ → ℕ → Counts
class_limits window heavy analyze ext_window = window
class_limits window heavy analyze ext_heavy = heavy
class_limits window heavy analyze ext_analyze = analyze

unfoldable pub new_ext_executor : ℕ → ℕ → ℕ → ExtExecutor
new_ext_executor window heavy analyze = record {
  inflight = λ c. 0;
  limits = class_limits window heavy analyze;
}

-- A call of `Acquire` and what it returned. `held` has a slot that its release function gives back, once.
pub data Ticket : Type 0 where
  unlimited refused released : Ticket
  waiting sleeping held : ExtClass → Ticket

unfoldable pub enter : ExtExecutor → ExtClass → Ticket
enter e cls = if leb (e.limits cls) 0 then unlimited else waiting cls

-- A round of the loop of `Acquire`, under the mutex. `done` says that the context is.
unfoldable pub look : ExtExecutor → ExtClass → Bool → ExtExecutor × Ticket
look e cls done =
    if leb (e.limits cls) (e.inflight cls)
    then (e, if done then refused else sleeping cls)
    else (record e { inflight = with_count cls (suc (e.inflight cls)) e.inflight }, held cls)

abbrev pub woken : Ticket → Ticket
woken unlimited = unlimited
woken refused = refused
woken released = released
woken (waiting cls) = waiting cls
woken (sleeping cls) = waiting cls
woken (held cls) = held cls

unfoldable pub broadcast : List Ticket → List Ticket
broadcast [] = []
broadcast (t ∷ ts) = woken t ∷ broadcast ts

pub record System : Type 0 where
  pub executor : ExtExecutor
  pub tickets : List Ticket

abbrev pub with_ticket : System → ℕ → ExtExecutor × Ticket → System
with_ticket s i l = record { executor = l.0; tickets = set s.tickets i l.1 }

abbrev pub give_back : ExtExecutor → ExtClass → ExtExecutor
give_back e cls = record e { inflight = with_count cls (e.inflight cls - 1) e.inflight }

-- What jobs do: calls of `Acquire` and of release functions, and contexts that fire.
pub data Step : System → System → Type 0 where
  enters :
      {s : System} (cls : ExtClass)
      → Step s (record s { tickets = enter s.executor cls ∷ s.tickets })
  looks :
      {s : System} (i : ℕ) (cls : ExtClass) (done : Bool)
      → get_elem? s.tickets i ≡ some (waiting cls)
      → Step s (with_ticket s i (look s.executor cls done))
  releases :
      {s : System} (i : ℕ) (cls : ExtClass)
      → get_elem? s.tickets i ≡ some (held cls)
      → Step s (record {
        executor = give_back s.executor cls;
        tickets = broadcast (set s.tickets i released);
      })
  fires : {s : System} → Step s (record s { tickets = broadcast s.tickets })

-- The states that are reached from a new executor without jobs.
pub data Reachable (window heavy analyze : ℕ) : System → Type 0 where
  start :
      Reachable window heavy analyze
        (record { executor = new_ext_executor window heavy analyze; tickets = [] })
  after :
      {s t : System}
      → Reachable window heavy analyze s
      → Step s t
      → Reachable window heavy analyze t
