-- ===== src/Rendition/Manager/Limits.antt =====
-- The limits of the gates.
use Prim.Native.String.{String}
use text.Mathlib.Text.{◌==◌}
use text.Mathlib.TextEquality.{eq_iff}
use torrent_go.Prelude.{
  ◌≤◌, ◌<◌, ltb, ltb→lt, ◌≡◌, sym, ap, not, Bool-cases, inl, inr, if_both, Option, none, some, List,
  [], ◌∷◌, arith,
}
use torrent_go.Rendition.Errors.{Err}
use torrent_go.Rendition.Identity.{identity_not_cpu}
use torrent_go.Rendition.Lifecycle.{
  GenerationState, transition, discovered, candidate_prepared, primed, committed,
}
use torrent_go.Rendition.Contract.{OutputContract, validate_output_contract}
use torrent_go.Rendition.Candidates.{
  ProviderKind, copy_kind, hardware_kind, cpu_kind, unknown_kind, Device, Provider,
  PipelineCandidate, Config, Tokens, key, candidates,
}
use torrent_go.Rendition.Manager.{
  Usage, Result, ok, fail, Select, sent, done, expired, PipelineOutput, Attempt, Lease, Try,
  ManagedRendition, release_admission, take_token, admit, admit_kind, abandon, commit, prime,
  prepare, admitted, try_candidate, settle, unless_skipped, skipped_cpu, contended, acquire_loop,
  acquire_valid, acquire, complete_output, next, stop, accept,
}
use torrent_go.Rendition.Manager.Conserve.{after_both}

-- No gate has more tokens in use than its limit.
pub record InLimits (cfg : Config) (t : Tokens) : Type 0 where
  pub cpu_limit : t "cpu" ≤ cfg.cpu_concurrency
  pub device_limit : (p : Provider) (d : Device) → t (key p d) ≤ cfg.per_device_concurrency

shrunk :
    (cfg : Config) (t s : Tokens) → InLimits cfg t → ((k : String) → s k ≤ t k) → InLimits cfg s
shrunk cfg t s l h = record {
  cpu_limit = omega (arith, h "cpu", l.cpu_limit);
  device_limit = λ p d. omega (arith, h (key p d), l.device_limit p d);
}

take_cpu-InLimits :
    (cfg : Config) (t : Tokens)
    → t "cpu" < cfg.cpu_concurrency
    → InLimits cfg t
    → InLimits cfg (take_token t "cpu")
take_cpu-InLimits cfg t h l = record {
  cpu_limit = h;
  device_limit = λ p d. elim (Bool-cases ("cpu" == key p d)) [
    | inl e ↦ absurd (identity_not_cpu p.name d.id (sym ((eq_iff "cpu" (key p d)).0 e)))
    | inr e ↦ rw e (l.device_limit p d)
  ];
}

take_device-InLimits :
    (cfg : Config) (t : Tokens) (p : Provider) (d : Device)
    → t (key p d) < cfg.per_device_concurrency
    → InLimits cfg t
    → InLimits cfg (take_token t (key p d))
take_device-InLimits cfg t p d h l = record {
  cpu_limit = elim (Bool-cases (key p d == "cpu")) [
    | inl e ↦ absurd (identity_not_cpu p.name d.id ((eq_iff (key p d) "cpu").0 e))
    | inr e ↦ rw e l.cpu_limit
  ];
  device_limit = λ q c. elim (Bool-cases (key p d == key q c)) [
    | inl e ↦
        let same : t (key p d) ≡ t (key q c) = ap t ((eq_iff (key p d) (key q c)).0 e) in
        rw e (omega (arith, same, h))
    | inr e ↦ rw e (l.device_limit q c)
  ];
}

module _ (cfg : Config) where
  admit_kind-InLimits :
      (kind : ProviderKind) (u : Usage) (s : Select) (c : PipelineCandidate)
      → InLimits cfg u.tokens
      → InLimits cfg ((admit_kind kind cfg u s c).0).tokens
  admit_kind-InLimits copy_kind u s c l = l
  admit_kind-InLimits hardware_kind u s c l =
      if_both (λ (r : Usage × Result Lease). InLimits cfg (r.0).tokens)
        (ltb (u.tokens (key c.provider c.device)) cfg.per_device_concurrency)
        (λ h. take_device-InLimits cfg u.tokens c.provider c.device (ltb→lt _ _ h) l) (λ h. l)
  admit_kind-InLimits cpu_kind u sent c l =
      if_both (λ (r : Usage × Result Lease). InLimits cfg (r.0).tokens)
        (ltb (u.tokens "cpu") cfg.cpu_concurrency)
        (λ h. take_cpu-InLimits cfg u.tokens (ltb→lt _ _ h) l) (λ h. l)
  admit_kind-InLimits cpu_kind u done c l = l
  admit_kind-InLimits cpu_kind u expired c l = l
  admit_kind-InLimits unknown_kind u s c l = l

  release_admission-InLimits :
      (u : Usage) (lease : Lease)
      → InLimits cfg u.tokens
      → InLimits cfg (release_admission u lease).tokens
  unfolding release_admission
  release_admission-InLimits u none l = l
  release_admission-InLimits u (some j) l = shrunk cfg u.tokens _ l (λ k. ground arith)

  unfoldable TryInLimits : Usage × Try → Type 0
  TryInLimits r = InLimits cfg (r.0).tokens

  gone :
      (u : Usage) (lease : Lease) (t : Try)
      → InLimits cfg u.tokens
      → TryInLimits (abandon u lease, t)
  unfolding TryInLimits
  gone u lease t l = release_admission-InLimits u lease l

  kept : (u : Usage) (t : Try) → InLimits cfg u.tokens → TryInLimits (u, t)
  unfolding TryInLimits
  kept u t l = l

  commit-InLimits :
      (g : Result String) (u : Usage) (c : PipelineCandidate) (out : PipelineOutput) (lease : Lease)
      (s : GenerationState)
      → InLimits cfg u.tokens
      → TryInLimits (commit g u c out lease s)
  commit-InLimits (fail err) u c out lease s l = gone u lease _ l
  commit-InLimits (ok g) u c out lease s l =
      after_both TryInLimits (transition s committed) _ _ (gone u lease _ l) (λ t. kept u _ l)

  prime-InLimits :
      (u : Usage) (request : OutputContract) (c : PipelineCandidate) (a : Attempt)
      (out : PipelineOutput) (lease : Lease)
      → InLimits cfg u.tokens
      → TryInLimits (prime u request c a out lease)
  unfolding prime
  prime-InLimits u request c a out lease l =
      after_both TryInLimits (transition discovered candidate_prepared) _ _ (gone u lease _ l) (λ s.
        if_both TryInLimits (not (complete_output request out)) (λ h. gone u lease _ l)
          (λ h.
            after_both TryInLimits (transition s primed) _ _ (gone u lease _ l)
              (λ t. commit-InLimits a.generation_id u c out lease t l)))

  prepare-InLimits :
      (p : Result PipelineOutput) (u : Usage) (request : OutputContract) (c : PipelineCandidate)
      (a : Attempt) (lease : Lease)
      → InLimits cfg u.tokens
      → TryInLimits (prepare p u request c a lease)
  prepare-InLimits (fail err) u request c a lease l =
      kept (release_admission u lease) _ (release_admission-InLimits u lease l)
  prepare-InLimits (ok out) u request c a lease l = prime-InLimits _ request c a out lease l

  admitted-InLimits :
      (g : Result Lease) (u : Usage) (request : OutputContract) (c : PipelineCandidate)
      (a : Attempt)
      → InLimits cfg u.tokens
      → TryInLimits (admitted g u request c a)
  admitted-InLimits (fail err) u request c a l = kept u _ l
  admitted-InLimits (ok lease) u request c a l = prepare-InLimits a.prepared u request c a lease l

  try_candidate-InLimits :
      (u : Usage) (request : OutputContract) (c : PipelineCandidate) (a : Attempt)
      → InLimits cfg u.tokens
      → TryInLimits (try_candidate cfg u request c a)
  unfolding try_candidate admit
  try_candidate-InLimits u request c a l =
      let got = admit cfg u a.select c in
      admitted-InLimits got.1 got.0 request c a
        (admit_kind-InLimits (c.provider).kind u a.select c l)

  abbrev ResultInLimits : Usage × Result ManagedRendition → Type 0
  ResultInLimits r = InLimits cfg (r.0).tokens

  settle-InLimits :
      (r : Usage × Try) (rest : Err → Usage × Result ManagedRendition)
      → TryInLimits r
      → ((err : Err) → InLimits cfg (r.0).tokens → ResultInLimits (rest err))
      → ResultInLimits (settle r.1 r.0 rest)
  unfolding TryInLimits
  settle-InLimits (v, next err) rest l k = k err l
  settle-InLimits (v, stop err) rest l k = l
  settle-InLimits (v, accept r) rest l k = l

  unless_skipped-InLimits :
      (o : Option Err) (u : Usage) (r : Usage × Result ManagedRendition)
      → InLimits cfg u.tokens
      → ResultInLimits r
      → ResultInLimits (unless_skipped o u r)
  unless_skipped-InLimits none u r l m = m
  unless_skipped-InLimits (some err) u r l m = l

  acquire_loop-InLimits :
      (request : OutputContract) (env : PipelineCandidate → Attempt) (cs : List PipelineCandidate)
      (last contention : Option Err) (u : Usage)
      → InLimits cfg u.tokens
      → ResultInLimits (acquire_loop cfg request env cs last contention u)
  unfolding acquire_loop
  acquire_loop-InLimits request env [] last contention u l = l
  acquire_loop-InLimits request env (c ∷ cs) last contention u l =
      unless_skipped-InLimits (skipped_cpu (c.provider).kind contention) u _ l (
        settle-InLimits (try_candidate cfg u request c (env c)) _
          (try_candidate-InLimits u request c (env c) l)
          (λ err m.
            acquire_loop-InLimits request env cs (some err) (contended c err contention) _ m))

acquire_valid-InLimits :
    (o : Option String) (cfg : Config) (request : OutputContract)
    (env : PipelineCandidate → Attempt) (u : Usage)
    → InLimits cfg u.tokens
    → ResultInLimits cfg (acquire_valid o cfg request env u)
acquire_valid-InLimits (some text) cfg request env u l = l
acquire_valid-InLimits none cfg request env u l =
    acquire_loop-InLimits cfg request env (candidates cfg u.tokens) none none u l

-- `Acquire` never takes more tokens than the limits allow: no device has more than
-- `PerDeviceConcurrency` pipelines and the CPU no more than `CPUConcurrency`, if that held before.
pub acquire-InLimits :
    (cfg : Config) (request : OutputContract) (env : PipelineCandidate → Attempt) (u : Usage)
    → InLimits cfg u.tokens
    → InLimits cfg ((acquire cfg request env u).0).tokens
unfolding acquire
acquire-InLimits cfg request env u l =
    acquire_valid-InLimits (validate_output_contract request) cfg request env u l
