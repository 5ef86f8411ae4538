-- ===== src/Rendition/Manager.antt =====
-- media/rendition/manager.go `Acquire` and media/rendition/admission.go: candidates are tried in turn,
-- each admitted by a gate, primed, checked and committed.
--
-- `Usage` is what a call changes: the tokens in use at each gate, and the pipelines that are open.
-- What the environment answers is an argument: what the `select` of a waiting admission picks, what
-- `Prepare` returns, and the random bytes. Calls run one at a time here, so a gate that is full is
-- still full when the wait ends.
pub mod Conserve
pub mod Outcome
pub mod Limits
pub mod Contention
use Prim.Native.String.{String}
use text.Mathlib.Text.{◌==◌}
use torrent_go.Prelude.{
  ℕ, zero, suc, ◌+◌, ◌-◌, ◌*◌, ◌/◌, ltb, Bool, true, false, not, ◌&&◌, if◌then◌else◌, Option, none,
  some, List, [], ◌∷◌,
}
use torrent_go.Prelude.Int.{ℤ, pos, negsuc, ◌-ℤ◌}
use torrent_go.Rendition.Errors.{
  Err, FailureCategory, other, new_failure, failure_category_of, can_fallback_before_commit,
  resource_exhausted, admission_timeout, cancelled, device_unavailable, invalid_output,
}
use torrent_go.Rendition.Lifecycle.{
  GenerationState, discovered, candidate_prepared, primed, committed, transition,
}
use torrent_go.Rendition.Contract.{OutputContract, validate_output_contract, same_contract}
use torrent_go.Rendition.Candidates.{
  ProviderKind, copy_kind, hardware_kind, cpu_kind, unknown_kind, PipelineCandidate, Config, Tokens,
  key, is_hardware, candidates,
}

pub record Usage : Type 0 where
  pub tokens : Tokens
  pub pipelines : ℕ

pub data Result (A : Type 0) : Type 0 where
  ok : A → Result A
  fail : Err → Result A

pub data Select : Type 0 where
  sent done expired : Select

pub record PipelineOutput : Type 0 where
  pub contract : OutputContract
  pub init : List ℕ
  pub extradata_fingerprint : String

-- What happens while one candidate is tried.
pub record Attempt : Type 0 where
  pub select : Select
  pub prepared : Result PipelineOutput
  pub generation_id : Result String

-- The gate whose token a call holds, `none` for a call that needs none.
abbrev pub Lease : Type 0
Lease = Option String

abbrev pub take_token : Tokens → String → Tokens
take_token t k j = if k == j then suc (t j) else t j

unfoldable pub release_admission : Usage → Lease → Usage
release_admission u none = u
release_admission u (some k) = record u {
  tokens = λ j. if k == j then u.tokens j - 1 else u.tokens j;
}

abbrev take_gate : Usage → String → Usage
take_gate u k = record u { tokens = take_token u.tokens k }

-- `tryAcquire`, `limit` tokens in all; a send to a full channel is not ready.
abbrev pub try_acquire : Usage → String → ℕ → Err → Usage × Result Lease
try_acquire u k limit busy =
    if ltb (u.tokens k) limit then (take_gate u k, ok (some k)) else (u, fail busy)

-- `acquire`, with a wait that is not 0.
abbrev pub acquire_gate : Select → Usage → String → ℕ → Err → Err → Usage × Result Lease
acquire_gate sent u k limit stopped timeout = try_acquire u k limit timeout
acquire_gate done u k limit stopped timeout = (u, fail stopped)
acquire_gate expired u k limit stopped timeout = (u, fail timeout)

-- An error of the candidate's.
abbrev pub error_of : PipelineCandidate → FailureCategory → String → String → Err
error_of c category stage cause =
    new_failure category (c.provider).name (c.device).id stage (other cause)

abbrev pub admit_kind :
    ProviderKind → Config → Usage → Select → PipelineCandidate → Usage × Result Lease
admit_kind copy_kind cfg u s c = (u, ok none)
admit_kind cpu_kind cfg u s c =
    acquire_gate s u "cpu" cfg.cpu_concurrency (error_of c cancelled "admission" "context is done")
      (error_of c admission_timeout "admission" "admission wait expired")
admit_kind hardware_kind cfg u s c =
    try_acquire u (key c.provider c.device) cfg.per_device_concurrency
      (error_of c resource_exhausted "admission" "admission capacity is busy")
admit_kind unknown_kind cfg u s c =
    (u, fail (error_of c device_unavailable "admission" "unknown provider kind"))

unfoldable pub admit : Config → Usage → Select → PipelineCandidate → Usage × Result Lease
admit cfg u s c = admit_kind (c.provider).kind cfg u s c

pub record Descriptor : Type 0 where
  pub generation : String
  pub output : OutputContract
  pub bandwidth : ℤ
  pub provider : String
  pub device_id : String
  pub extradata_fingerprint : String

pub record ManagedRendition : Type 0 where
  pub descriptor : Descriptor
  pub init : List ℕ
  pub state : GenerationState
  pub terminal_err : Option Err
  pub lease : Lease
  pub released : Bool

-- What a candidate comes to: the next one is tried, or the call stops.
pub data Try : Type 0 where
  next : Err → Try
  stop : Err → Try
  accept : ManagedRendition → Try

-- `n * 11 / 10`, rounded towards 0.
unfoldable pub bandwidth : ℤ → ℤ
bandwidth (pos n) = pos (n * 11 / 10)
bandwidth (negsuc n) = pos 0 -ℤ pos (suc n * 11 / 10)

-- `_ = pipeline.Close()` and `releaseAdmission()`.
abbrev pub abandon : Usage → Lease → Usage
abandon u lease = let v = release_admission u lease in record v { pipelines = v.pipelines - 1 }

-- `if err := lifecycle.transition(...); err != nil { ... return ... }`.
abbrev pub after :
    Option GenerationState → Usage × Try → (GenerationState → Usage × Try) → Usage × Try
after none failed continue = failed
after (some s) failed continue = continue s

abbrev is_empty : List ℕ → Bool
is_empty [] = true
is_empty (_ ∷ _) = false

abbrev pub complete_output : OutputContract → PipelineOutput → Bool
complete_output request out =
    same_contract out.contract request
    && (not (is_empty out.init) && not (out.extradata_fingerprint == ""))

abbrev rendition :
    PipelineCandidate → PipelineOutput → Lease → GenerationState → String → ManagedRendition
rendition c out lease s generation = record {
  descriptor = record {
    generation = generation;
    output = out.contract;
    bandwidth = bandwidth ((out.contract).rate_control).max_bitrate;
    provider = (c.provider).name;
    device_id = (c.device).id;
    extradata_fingerprint = out.extradata_fingerprint;
  };
  init = out.init;
  state = s;
  terminal_err = none;
  lease = lease;
  released = false;
}

abbrev pub invalid_step : PipelineCandidate → String → Try
invalid_step c stage = stop (error_of c invalid_output stage "invalid generation transition")

abbrev pub commit :
    Result String
    → Usage
    → PipelineCandidate
    → PipelineOutput
    → Lease
    → GenerationState
    → Usage × Try
commit (fail err) u c out lease s = (
  abandon u lease,
  stop (new_failure invalid_output (c.provider).name (c.device).id "commit" err),
)
commit (ok generation) u c out lease s =
    after (transition s committed) (abandon u lease, invalid_step c "commit")
      (λ t. (u, accept (rendition c out lease t generation)))

-- A pipeline that was prepared, under its lease.
unfoldable pub prime :
    Usage → OutputContract → PipelineCandidate → Attempt → PipelineOutput → Lease → Usage × Try
prime u request c a out lease =
    after (transition discovered candidate_prepared) (abandon u lease, invalid_step c "prepare")
      (λ s.
        if not (complete_output request out)
        then (
          abandon u lease,
          next (
              error_of c invalid_output "prime"
                "provider returned incomplete or mismatched primed output"),
        )
        else after (transition s primed) (abandon u lease, invalid_step c "prime")
            (λ t. commit a.generation_id u c out lease t))

-- `if canFallbackBeforeCommit(err) { continue }; return nil, err`.
abbrev pub fall_back : Err → Try
fall_back err = if can_fallback_before_commit err then next err else stop err

abbrev pub prepare :
    Result PipelineOutput
    → Usage
    → OutputContract
    → PipelineCandidate
    → Attempt
    → Lease
    → Usage × Try
prepare (fail err) u request c a lease = (release_admission u lease, fall_back err)
prepare (ok out) u request c a lease =
    prime (record u { pipelines = suc u.pipelines }) request c a out lease

abbrev pub admitted :
    Result Lease → Usage → OutputContract → PipelineCandidate → Attempt → Usage × Try
admitted (fail err) u request c a = (u, fall_back err)
admitted (ok lease) u request c a = prepare a.prepared u request c a lease

unfoldable pub try_candidate :
    Config → Usage → OutputContract → PipelineCandidate → Attempt → Usage × Try
try_candidate cfg u request c a =
    let got = admit cfg u a.select c in admitted got.1 got.0 request c a

abbrev is_exhausted : FailureCategory → Bool
is_exhausted resource_exhausted = true
is_exhausted _ = false

abbrev pub contended : PipelineCandidate → Err → Option Err → Option Err
contended c err contention =
    if is_hardware (c.provider).kind && is_exhausted (failure_category_of err)
    then some err
    else contention

abbrev is_cpu : ProviderKind → Bool
is_cpu cpu_kind = true
is_cpu _ = false

abbrev pub no_candidate : Option Err → Err
no_candidate (some err) = err
no_candidate none =
    new_failure device_unavailable "" "" "discover" (other "no video provider available")

-- `candidate.provider.Kind() == providerCPU && hardwareContention != nil`.
abbrev pub skipped_cpu : ProviderKind → Option Err → Option Err
skipped_cpu kind none = none
skipped_cpu kind (some err) = if is_cpu kind then some err else none

-- What a candidate came to, and the rest of the loop, which is told the failure.
abbrev pub settle :
    Try → Usage → (Err → Usage × Result ManagedRendition) → Usage × Result ManagedRendition
settle (next err) u rest = rest err
settle (stop err) u rest = (u, fail err)
settle (accept r) u rest = (u, ok r)

abbrev pub unless_skipped :
    Option Err → Usage → Usage × Result ManagedRendition → Usage × Result ManagedRendition
unless_skipped none u visited = visited
unless_skipped (some err) u visited = (u, fail err)

-- The loop of `Acquire`, with `lastFailure` and `hardwareContention`.
unfoldable pub acquire_loop :
    Config
    → OutputContract
    → (PipelineCandidate → Attempt)
    → List PipelineCandidate
    → Option Err
    → Option Err
    → Usage
    → Usage × Result ManagedRendition
acquire_loop cfg request env [] last contention u = (u, fail (no_candidate last))
acquire_loop cfg request env (c ∷ cs) last contention u =
    let r = try_candidate cfg u request c (env c) in
    unless_skipped (skipped_cpu (c.provider).kind contention) u (
      settle r.1 r.0
        (λ err. acquire_loop cfg request env cs (some err) (contended c err contention) r.0))

abbrev pub acquire_valid :
    Option String
    → Config
    → OutputContract
    → (PipelineCandidate → Attempt)
    → Usage
    → Usage × Result ManagedRendition
acquire_valid (some text) cfg request env u =
    (u, fail (new_failure invalid_output "" "" "validate" (other text)))
acquire_valid none cfg request env u =
    acquire_loop cfg request env (candidates cfg u.tokens) none none u

unfoldable pub acquire :
    Config
    → OutputContract
    → (PipelineCandidate → Attempt)
    → Usage
    → Usage × Result ManagedRendition
acquire cfg request env u = acquire_valid (validate_output_contract request) cfg request env u

-- `Release`, once.
unfoldable pub release : ManagedRendition → Usage → Usage × ManagedRendition
release r u = if r.released then (u, r) else (abandon u r.lease, record r { released = true })
