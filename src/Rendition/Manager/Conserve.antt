-- ===== src/Rendition/Manager/Conserve.antt =====
-- What a call of `Acquire` leaves behind: no token and no pipeline but those of its rendition.
use Prim.Native.String.{String}
use text.Mathlib.Text.{◌==◌}
use mathlib.Core.Path.{subst}
use torrent_go.Prelude.{
  ℕ, ◌+◌, ltb, ◌≡◌, refl, false, not, if◌then◌else◌, if_both, Option, none, some, List, [], ◌∷◌,
  arith,
}
use torrent_go.Rendition.Errors.{Err, can_fallback_before_commit}
use torrent_go.Rendition.Lifecycle.{
  GenerationState, transition, discovered, candidate_prepared, primed, committed,
}
use torrent_go.Rendition.Contract.{OutputContract, validate_output_contract}
use torrent_go.Rendition.Candidates.{
  ProviderKind, copy_kind, hardware_kind, cpu_kind, unknown_kind, PipelineCandidate, Config,
  candidates,
}
use torrent_go.Rendition.Manager.{
  Usage, Result, ok, fail, Select, sent, done, expired, PipelineOutput, Attempt, Lease, Try, next,
  stop, accept, ManagedRendition, release_admission, try_acquire, acquire_gate, admit, admit_kind,
  abandon, after, commit, prime, prepare, admitted, fall_back, try_candidate, settle,
  unless_skipped, skipped_cpu, contended, acquire_loop, acquire_valid, acquire, release,
  complete_output,
}

abbrev pub held : Lease → String → ℕ
held none k = 0
held (some j) k = if j == k then 1 else 0

-- From `u` to `v` the open pipelines grow by `n`, and the tokens by the one of the lease.
pub record Moves (u v : Usage) (n : ℕ) (lease : Lease) : Type 0 where
  pub pipelines_grow : v.pipelines ≡ u.pipelines + n
  pub tokens_grow : (k : String) → v.tokens k ≡ u.tokens k + held lease k

still : (u : Usage) → Moves u u 0 none
still u = record { pipelines_grow = omega arith; tokens_grow = λ k. omega arith }

release_admission-Moves :
    (u v : Usage) (n : ℕ) (lease : Lease)
    → Moves u v n lease
    → Moves u (release_admission v lease) n none
unfolding release_admission
release_admission-Moves u v n none m = m
release_admission-Moves u v n (some j) m = record {
  pipelines_grow = m.pipelines_grow;
  tokens_grow = λ k. let g = m.tokens_grow k in ground arith;
}

abandon-Moves : (u v : Usage) (lease : Lease) → Moves u v 1 lease → Moves u (abandon v lease) 0 none
abandon-Moves u v lease m =
    let r = release_admission-Moves u v 1 lease m in
    record { pipelines_grow = omega (arith, r.pipelines_grow); tokens_grow = r.tokens_grow }

abbrev pub LeaseMoves : Usage → Usage × Result Lease → Type 0
LeaseMoves u (v, ok lease) = Moves u v 0 lease
LeaseMoves u (v, fail err) = Moves u v 0 none

try_acquire-Moves :
    (u : Usage) (k : String) (limit : ℕ) (busy : Err) → LeaseMoves u (try_acquire u k limit busy)
try_acquire-Moves u k limit busy =
    if_both (LeaseMoves u) (ltb (u.tokens k) limit)
      (λ h. record { pipelines_grow = omega arith; tokens_grow = λ j. ground arith }) (λ h. still u)

acquire_gate-Moves :
    (s : Select) (u : Usage) (k : String) (limit : ℕ) (stopped timeout : Err)
    → LeaseMoves u (acquire_gate s u k limit stopped timeout)
acquire_gate-Moves sent u k limit stopped timeout = try_acquire-Moves u k limit timeout
acquire_gate-Moves done u k limit stopped timeout = still u
acquire_gate-Moves expired u k limit stopped timeout = still u

admit_kind-Moves :
    (kind : ProviderKind) (cfg : Config) (u : Usage) (s : Select) (c : PipelineCandidate)
    → LeaseMoves u (admit_kind kind cfg u s c)
admit_kind-Moves copy_kind cfg u s c = still u
admit_kind-Moves hardware_kind cfg u s c = try_acquire-Moves u _ _ _
admit_kind-Moves cpu_kind cfg u s c = acquire_gate-Moves s u _ _ _ _
admit_kind-Moves unknown_kind cfg u s c = still u

unfoldable pub TryMoves : Usage → Usage × Try → Type 0
TryMoves u (v, next err) = Moves u v 0 none
TryMoves u (v, stop err) = Moves u v 0 none
TryMoves u (v, accept r) = Moves u v 1 r.lease

stop-Moves : (u v : Usage) (err : Err) → Moves u v 0 none → TryMoves u (v, stop err)
unfolding TryMoves
stop-Moves u v err m = m

next-Moves : (u v : Usage) (err : Err) → Moves u v 0 none → TryMoves u (v, next err)
unfolding TryMoves
next-Moves u v err m = m

accept-Moves : (u v : Usage) (r : ManagedRendition) → Moves u v 1 r.lease → TryMoves u (v, accept r)
unfolding TryMoves
accept-Moves u v r m = m

pub after_both :
    (P : Usage × Try → Type 0) (o : Option GenerationState) (bad : Usage × Try)
    (continue : GenerationState → Usage × Try)
    → P bad
    → ((s : GenerationState) → P (continue s))
    → P (after o bad continue)
after_both P none bad continue p q = p
after_both P (some s) bad continue p q = q s

commit-Moves :
    (g : Result String) (u v : Usage) (c : PipelineCandidate) (out : PipelineOutput) (lease : Lease)
    (s : GenerationState)
    → Moves u v 1 lease
    → TryMoves u (commit g v c out lease s)
commit-Moves (fail err) u v c out lease s m = stop-Moves u _ _ (abandon-Moves u v lease m)
commit-Moves (ok g) u v c out lease s m =
    after_both (TryMoves u) (transition s committed) _ _
      (stop-Moves u _ _ (abandon-Moves u v lease m)) (λ t. accept-Moves u v _ m)

prime-Moves :
    (u v : Usage) (request : OutputContract) (c : PipelineCandidate) (a : Attempt)
    (out : PipelineOutput) (lease : Lease)
    → Moves u v 1 lease
    → TryMoves u (prime v request c a out lease)
unfolding prime
prime-Moves u v request c a out lease m =
    let gone = abandon-Moves u v lease m in
    after_both (TryMoves u) (transition discovered candidate_prepared) _ _ (stop-Moves u _ _ gone)
      (λ s.
        if_both (TryMoves u) (not (complete_output request out)) (λ h. next-Moves u _ _ gone)
          (λ h.
            after_both (TryMoves u) (transition s primed) _ _ (stop-Moves u _ _ gone)
              (λ t. commit-Moves a.generation_id u v c out lease t m)))

fall_back-Moves : (u v : Usage) (err : Err) → Moves u v 0 none → TryMoves u (v, fall_back err)
fall_back-Moves u v err m =
    if_both (λ (t : Try). TryMoves u (v, t)) (can_fallback_before_commit err)
      (λ h. next-Moves u v err m) (λ h. stop-Moves u v err m)

prepare-Moves :
    (p : Result PipelineOutput) (u v : Usage) (request : OutputContract) (c : PipelineCandidate)
    (a : Attempt) (lease : Lease)
    → Moves u v 0 lease
    → TryMoves u (prepare p v request c a lease)
prepare-Moves (fail err) u v request c a lease m =
    fall_back-Moves u _ err (release_admission-Moves u v 0 lease m)
prepare-Moves (ok out) u v request c a lease m =
    prime-Moves u _ request c a out lease
      (record { pipelines_grow = omega (arith, m.pipelines_grow); tokens_grow = m.tokens_grow })

admitted-Moves :
    (g : Usage × Result Lease) (u : Usage) (request : OutputContract) (c : PipelineCandidate)
    (a : Attempt)
    → LeaseMoves u g
    → TryMoves u (admitted g.1 g.0 request c a)
admitted-Moves (v, fail err) u request c a m = fall_back-Moves u v err m
admitted-Moves (v, ok lease) u request c a m = prepare-Moves a.prepared u v request c a lease m

try_candidate-Moves :
    (cfg : Config) (u : Usage) (request : OutputContract) (c : PipelineCandidate) (a : Attempt)
    → TryMoves u (try_candidate cfg u request c a)
unfolding try_candidate admit
try_candidate-Moves cfg u request c a =
    admitted-Moves _ u request c a (admit_kind-Moves (c.provider).kind cfg u a.select c)

abbrev pub ResultMoves : Usage → Usage × Result ManagedRendition → Type 0
ResultMoves u (v, fail err) = Moves u v 0 none
ResultMoves u (v, ok r) = Moves u v 1 r.lease

joined :
    (u v w : Usage) (n : ℕ) (lease : Lease)
    → Moves u v 0 none
    → Moves v w n lease
    → Moves u w n lease
joined u v w n lease m k = record {
  pipelines_grow = omega (arith, m.pipelines_grow, k.pipelines_grow);
  tokens_grow = λ j. omega (arith, m.tokens_grow j, k.tokens_grow j);
}

joined_result :
    (u v : Usage) (r : Usage × Result ManagedRendition)
    → Moves u v 0 none
    → ResultMoves v r
    → ResultMoves u r
joined_result u v (w, fail err) m k = joined u v w 0 none m k
joined_result u v (w, ok r) m k = joined u v w 1 r.lease m k

settle-Moves :
    (u : Usage) (r : Usage × Try) (rest : Err → Usage × Result ManagedRendition)
    → TryMoves u r
    → ((err : Err) → ResultMoves r.0 (rest err))
    → ResultMoves u (settle r.1 r.0 rest)
unfolding TryMoves
settle-Moves u (v, next err) rest m k = joined_result u v (rest err) m (k err)
settle-Moves u (v, stop err) rest m k = m
settle-Moves u (v, accept r) rest m k = m

unless_skipped-Moves :
    (o : Option Err) (u : Usage) (r : Usage × Result ManagedRendition)
    → ResultMoves u r
    → ResultMoves u (unless_skipped o u r)
unless_skipped-Moves none u r m = m
unless_skipped-Moves (some err) u r m = still u

acquire_loop-Moves :
    (cfg : Config) (request : OutputContract) (env : PipelineCandidate → Attempt)
    (cs : List PipelineCandidate) (last contention : Option Err) (u : Usage)
    → ResultMoves u (acquire_loop cfg request env cs last contention u)
unfolding acquire_loop
acquire_loop-Moves cfg request env [] last contention u = still u
acquire_loop-Moves cfg request env (c ∷ cs) last contention u =
    unless_skipped-Moves (skipped_cpu (c.provider).kind contention) u _ (
      settle-Moves u (try_candidate cfg u request c (env c)) _
        (try_candidate-Moves cfg u request c (env c))
        (λ err. acquire_loop-Moves cfg request env cs (some err) (contended c err contention) _))

acquire_valid-Moves :
    (o : Option String) (cfg : Config) (request : OutputContract)
    (env : PipelineCandidate → Attempt) (u : Usage)
    → ResultMoves u (acquire_valid o cfg request env u)
acquire_valid-Moves (some text) cfg request env u = still u
acquire_valid-Moves none cfg request env u =
    acquire_loop-Moves cfg request env (candidates cfg u.tokens) none none u

-- Nothing leaks: an `Acquire` that fails, on whichever path, leaves every gate and the open pipelines
-- as they were, and one that succeeds has opened one pipeline and holds the token of its lease alone.
pub acquire-Moves :
    (cfg : Config) (request : OutputContract) (env : PipelineCandidate → Attempt) (u : Usage)
    → ResultMoves u (acquire cfg request env u)
unfolding acquire
acquire-Moves cfg request env u =
    acquire_valid-Moves (validate_output_contract request) cfg request env u

-- Releasing a rendition, any number of times over, undoes what its `Acquire` did to the gates and
-- the pipelines, once.
pub release-Moves :
    (cfg : Config) (request : OutputContract) (env : PipelineCandidate → Attempt) (u v : Usage)
    (r : ManagedRendition)
    → acquire cfg request env u ≡ (v, ok r)
    → r.released ≡ false
    → let once = release r v in Moves u once.0 0 none × (release once.1 once.0 ≡ once)
unfolding release
release-Moves cfg request env u v r e live =
    let m : Moves u v 1 r.lease = subst (ResultMoves u) e (acquire-Moves cfg request env u) in
    rw live (abandon-Moves u v r.lease m, refl)
