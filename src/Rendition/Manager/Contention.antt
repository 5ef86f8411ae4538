-- ===== src/Rendition/Manager/Contention.antt =====
-- What `Acquire` does while every hardware device is busy: it does not fall back to the CPU.
use mathlib.Core.Path.{subst}
use torrent_go.Prelude.{
  ltb, ◌≡◌, refl, sym, ◌∙◌, ap, ◌⊎◌, inl, inr, false, Option, none, some, List, [], ◌∷◌,
}
use torrent_go.Rendition.Errors.{
  Err, resource_exhausted, failure_category_of, can_fallback_before_commit,
}
use torrent_go.Rendition.Contract.{OutputContract, validate_output_contract}
use torrent_go.Rendition.Candidates.{
  hardware_kind, cpu_kind, PipelineCandidate, Config, in_use, candidates,
}
use torrent_go.Rendition.Manager.{
  Usage, Result, fail, Select, Attempt, Lease, next, ManagedRendition, error_of, admit_kind, admit,
  admitted, fall_back, try_candidate, skipped_cpu, contended, acquire_loop, acquire,
}

-- A hardware candidate whose gate is full.
abbrev pub IsBusy : Config → Usage → PipelineCandidate → Type 0
IsBusy cfg u c =
    ((c.provider).kind ≡ hardware_kind)
    × (ltb (in_use u.tokens c) cfg.per_device_concurrency ≡ false)

-- Only busy hardware, and the CPU.
abbrev pub NoneFree : Config → Usage → List PipelineCandidate → Type 0
NoneFree cfg u [] = Unit
NoneFree cfg u (c ∷ cs) = (IsBusy cfg u c ⊎ ((c.provider).kind ≡ cpu_kind)) × NoneFree cfg u cs

abbrev busy : PipelineCandidate → Err
busy c = error_of c resource_exhausted "admission" "admission capacity is busy"

busy-category : (c : PipelineCandidate) → failure_category_of (busy c) ≡ resource_exhausted
unfolding failure_category_of
busy-category c = refl

abbrev pub Exhausted : Usage → Usage × Result ManagedRendition → Type 0
Exhausted u r = (err : Err) × (r ≡ (u, fail err)) × (failure_category_of err ≡ resource_exhausted)

admit-busy :
    (cfg : Config) (u : Usage) (s : Select) (c : PipelineCandidate)
    → IsBusy cfg u c
    → admit cfg u s c ≡ (u, fail (busy c))
unfolding admit
admit-busy cfg u s c (k, f) = ap (λ kind. admit_kind kind cfg u s c) k ∙ rw f refl

fall_back-busy : (c : PipelineCandidate) → fall_back (busy c) ≡ next (busy c)
unfolding can_fallback_before_commit failure_category_of
fall_back-busy c = refl

try_candidate-busy :
    (cfg : Config) (u : Usage) (request : OutputContract) (c : PipelineCandidate) (a : Attempt)
    → IsBusy cfg u c
    → try_candidate cfg u request c a ≡ (u, next (busy c))
unfolding try_candidate
try_candidate-busy cfg u request c a b =
    ap (λ (got : Usage × Result Lease). admitted got.1 got.0 request c a)
      (admit-busy cfg u a.select c b)
    ∙ ap (λ t. (u, t)) (fall_back-busy c)

contended-busy :
    (cfg : Config) (u : Usage) (c : PipelineCandidate) (o : Option Err)
    → IsBusy cfg u c
    → contended c (busy c) o ≡ some (busy c)
contended-busy cfg u c o (k, f) = rw (k, busy-category c) refl

not_skipped : (o : Option Err) → skipped_cpu hardware_kind o ≡ none
not_skipped none = refl
not_skipped (some err) = refl

module _ (cfg : Config) (request : OutputContract) (env : PipelineCandidate → Attempt)
    (u : Usage) where
  step-busy :
      (c : PipelineCandidate) (cs : List PipelineCandidate) (last contention : Option Err)
      → IsBusy cfg u c
      → acquire_loop cfg request env (c ∷ cs) last contention u
        ≡ acquire_loop cfg request env cs (some (busy c)) (some (busy c)) u
  unfolding acquire_loop
  step-busy c cs last contention b =
      rw
        (
          ap (λ kind. skipped_cpu kind contention) b.0 ∙ not_skipped contention,
          try_candidate-busy cfg u request c (env c) b,
          contended-busy cfg u c contention b,
        )
        refl

  skip_cpu :
      (c : PipelineCandidate) (cs : List PipelineCandidate) (last : Option Err) (err : Err)
      → (c.provider).kind ≡ cpu_kind
      → acquire_loop cfg request env (c ∷ cs) last (some err) u ≡ (u, fail err)
  unfolding acquire_loop
  skip_cpu c cs last err k = rw (ap (λ kind. skipped_cpu kind (some err)) k) refl

  loop-Exhausted :
      (cs : List PipelineCandidate) (last err : Err)
      → failure_category_of last ≡ resource_exhausted
      → failure_category_of err ≡ resource_exhausted
      → NoneFree cfg u cs
      → Exhausted u (acquire_loop cfg request env cs (some last) (some err) u)
  unfolding acquire_loop
  loop-Exhausted [] last err l e n = (last, refl, l)
  loop-Exhausted (c ∷ cs) last err l e (inl b, n) =
      subst (Exhausted u) (sym (step-busy c cs (some last) (some err) b))
        (loop-Exhausted cs (busy c) (busy c) (busy-category c) (busy-category c) n)
  loop-Exhausted (c ∷ cs) last err l e (inr k, n) = (err, skip_cpu c cs (some last) err k, e)

-- While every hardware candidate is busy, a valid request that starts with hardware fails as exhausted,
-- with no gate or pipeline touched: the CPU behind it is not used, however idle. The candidates are
-- hardware and CPU only.
pub busy_hardware_exhausts :
    (cfg : Config) (request : OutputContract) (env : PipelineCandidate → Attempt) (u : Usage)
    {c : PipelineCandidate} {cs : List PipelineCandidate}
    → validate_output_contract request ≡ none
    → candidates cfg u.tokens ≡ c ∷ cs
    → IsBusy cfg u c
    → NoneFree cfg u cs
    → Exhausted u (acquire cfg request env u)
unfolding acquire
busy_hardware_exhausts cfg request env u {c} {cs} v e b n =
    let all : acquire cfg request env u ≡ acquire_loop cfg request env (c ∷ cs) none none u =
      rw (v, e) refl in
    subst (Exhausted u) (sym (all ∙ step-busy cfg request env u c cs none none b))
      (loop-Exhausted cfg request env u cs (busy c) (busy c) (busy-category c) (busy-category c) n)
