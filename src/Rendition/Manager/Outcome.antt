-- ===== src/Rendition/Manager/Outcome.antt =====
-- What `Acquire` returns: a rendition of the contract that was asked for, or the right failure.
use Prim.Native.String.{String}
use mathlib.Core.Path.{subst}
use torrent_go.Prelude.{
  ◌≡◌, refl, Bool, true, false, not, ◌&&◌, if_both, Option, none, some, List, [], ◌∷◌, arith,
}
use torrent_go.Rendition.Errors.{Err, can_fallback_before_commit}
use torrent_go.Rendition.Lifecycle.{transition, primed, committed}
use torrent_go.Rendition.Contract.{
  OutputContract, validate_output_contract, same_contract, same_contract-eq,
}
use torrent_go.Rendition.Candidates.{PipelineCandidate, Config, candidates}
use torrent_go.Rendition.Manager.{
  Usage, Result, ok, fail, PipelineOutput, Attempt, Lease, Try, next, stop, accept,
  ManagedRendition, admit, commit, prime, prepare, admitted, fall_back, try_candidate, settle,
  unless_skipped, skipped_cpu, contended, acquire_loop, acquire_valid, acquire, complete_output,
}

-- A rendition that was just committed to the contract.
pub record IsFresh (request : OutputContract) (r : ManagedRendition) : Type 0 where
  pub same_output : (r.descriptor).output ≡ request
  pub is_committed : r.state ≡ committed
  pub no_error : r.terminal_err ≡ none
  pub is_live : r.released ≡ false

unfoldable TryFresh : OutputContract → Usage × Try → Type 0
TryFresh request (v, next err) = Unit
TryFresh request (v, stop err) = Unit
TryFresh request (v, accept r) = IsFresh request r

stop-Fresh : (request : OutputContract) (v : Usage) (err : Err) → TryFresh request (v, stop err)
unfolding TryFresh
stop-Fresh request v err = tt

next-Fresh : (request : OutputContract) (v : Usage) (err : Err) → TryFresh request (v, next err)
unfolding TryFresh
next-Fresh request v err = tt

complete_output-same :
    (request : OutputContract) (out : PipelineOutput)
    → not (complete_output request out) ≡ false
    → out.contract ≡ request
complete_output-same request out h =
    same_contract-eq out.contract request (left (same_contract out.contract request) _ h)
  where
    left : (a b : Bool) → not (a && b) ≡ false → a ≡ true
    left a b h = ground arith

commit-Fresh :
    (g : Result String) (request : OutputContract) (v : Usage) (c : PipelineCandidate)
    (out : PipelineOutput) (lease : Lease)
    → out.contract ≡ request
    → TryFresh request (commit g v c out lease primed)
unfolding TryFresh transition
commit-Fresh (fail err) request v c out lease e = tt
commit-Fresh (ok g) request v c out lease e = record {
  same_output = e;
  is_committed = refl;
  no_error = refl;
  is_live = refl;
}

prime-Fresh :
    (request : OutputContract) (v : Usage) (c : PipelineCandidate) (a : Attempt)
    (out : PipelineOutput) (lease : Lease)
    → TryFresh request (prime v request c a out lease)
unfolding prime transition
prime-Fresh request v c a out lease =
    if_both (TryFresh request) (not (complete_output request out)) (λ h. next-Fresh request _ _)
      (λ h. commit-Fresh a.generation_id request v c out lease (complete_output-same request out h))

fall_back-Fresh :
    (request : OutputContract) (v : Usage) (err : Err) → TryFresh request (v, fall_back err)
fall_back-Fresh request v err =
    if_both (λ (t : Try). TryFresh request (v, t)) (can_fallback_before_commit err)
      (λ h. next-Fresh request v err) (λ h. stop-Fresh request v err)

prepare-Fresh :
    (p : Result PipelineOutput) (request : OutputContract) (v : Usage) (c : PipelineCandidate)
    (a : Attempt) (lease : Lease)
    → TryFresh request (prepare p v request c a lease)
prepare-Fresh (fail err) request v c a lease = fall_back-Fresh request _ err
prepare-Fresh (ok out) request v c a lease = prime-Fresh request _ c a out lease

admitted-Fresh :
    (g : Result Lease) (request : OutputContract) (v : Usage) (c : PipelineCandidate) (a : Attempt)
    → TryFresh request (admitted g v request c a)
admitted-Fresh (fail err) request v c a = fall_back-Fresh request v err
admitted-Fresh (ok lease) request v c a = prepare-Fresh a.prepared request v c a lease

try_candidate-Fresh :
    (cfg : Config) (request : OutputContract) (u : Usage) (c : PipelineCandidate) (a : Attempt)
    → TryFresh request (try_candidate cfg u request c a)
unfolding try_candidate
try_candidate-Fresh cfg request u c a =
    let got = admit cfg u a.select c in admitted-Fresh got.1 request got.0 c a

abbrev ResultFresh : OutputContract → Usage × Result ManagedRendition → Type 0
ResultFresh request (v, fail err) = Unit
ResultFresh request (v, ok r) = IsFresh request r × (validate_output_contract request ≡ none)

settle-Fresh :
    (request : OutputContract) (r : Usage × Try) (rest : Err → Usage × Result ManagedRendition)
    → validate_output_contract request ≡ none
    → TryFresh request r
    → ((err : Err) → ResultFresh request (rest err))
    → ResultFresh request (settle r.1 r.0 rest)
unfolding TryFresh
settle-Fresh request (v, next err) rest w m k = k err
settle-Fresh request (v, stop err) rest w m k = tt
settle-Fresh request (v, accept r) rest w m k = (m, w)

unless_skipped-Fresh :
    (o : Option Err) (request : OutputContract) (u : Usage) (r : Usage × Result ManagedRendition)
    → ResultFresh request r
    → ResultFresh request (unless_skipped o u r)
unless_skipped-Fresh none request u r m = m
unless_skipped-Fresh (some err) request u r m = tt

acquire_loop-Fresh :
    (cfg : Config) (request : OutputContract) (env : PipelineCandidate → Attempt)
    (cs : List PipelineCandidate) (last contention : Option Err) (u : Usage)
    → validate_output_contract request ≡ none
    → ResultFresh request (acquire_loop cfg request env cs last contention u)
unfolding acquire_loop
acquire_loop-Fresh cfg request env [] last contention u w = tt
acquire_loop-Fresh cfg request env (c ∷ cs) last contention u w =
    unless_skipped-Fresh (skipped_cpu (c.provider).kind contention) request u _ (
      settle-Fresh request (try_candidate cfg u request c (env c)) _ w
        (try_candidate-Fresh cfg request u c (env c))
        (λ err. acquire_loop-Fresh cfg request env cs (some err) (contended c err contention) _ w))

acquire_valid-Fresh :
    (o : Option String) (cfg : Config) (request : OutputContract)
    (env : PipelineCandidate → Attempt) (u : Usage)
    → validate_output_contract request ≡ o
    → ResultFresh request (acquire_valid o cfg request env u)
acquire_valid-Fresh (some text) cfg request env u e = tt
acquire_valid-Fresh none cfg request env u e =
    acquire_loop-Fresh cfg request env (candidates cfg u.tokens) none none u e

-- A rendition that `Acquire` returns is committed, live and without an error, it has exactly the
-- contract that was asked for, and that contract was valid.
pub acquire-Fresh :
    (cfg : Config) (request : OutputContract) (env : PipelineCandidate → Attempt) (u v : Usage)
    (r : ManagedRendition)
    → acquire cfg request env u ≡ (v, ok r)
    → IsFresh request r × (validate_output_contract request ≡ none)
unfolding acquire
acquire-Fresh cfg request env u v r e =
    subst (ResultFresh request) e
      (acquire_valid-Fresh (validate_output_contract request) cfg request env u refl)
