-- ===== src/Rendition/Errors.antt =====
-- media/rendition/errors.go: the classes of failure, and which of them let another candidate be tried.
use Prim.Native.String.{String}
use torrent_go.Prelude.{
  ◌≡◌, refl, Bool, true, false, if◌then◌else◌, Option, none, some, inl, inr, ◌⊎◌,
}

pub data FailureCategory : Type 0 where
  device_unavailable : FailureCategory
  source_capability : FailureCategory
  resource_exhausted : FailureCategory
  admission_timeout : FailureCategory
  source_io : FailureCategory
  cancelled : FailureCategory
  invalid_output : FailureCategory
  mux : FailureCategory

-- Go's error values: those the package tests for, any other one, one that wraps another, and a
-- `RenditionError`, with its provider, device, stage, generation and cause.
pub data Err : Type 0 where
  context_canceled : Err
  deadline_exceeded : Err
  eof : Err
  other : String → Err
  wrapped : String → Err → Err
  failure : FailureCategory → String → String → String → String → Err → Err

-- `newFailure`, with a cause.
abbrev pub new_failure : FailureCategory → String → String → String → Err → Err
new_failure category provider device stage cause = failure category provider device stage "" cause

-- `errors.As` for a `RenditionError`: the first of the chain, with its generation replaced.
abbrev pub as_failure : Err → String → Option Err
as_failure context_canceled g = none
as_failure deadline_exceeded g = none
as_failure eof g = none
as_failure (other s) g = none
as_failure (wrapped s e) g = as_failure e g
as_failure (failure c p d s h e) g = some (failure c p d s g e)

abbrev pub category_in : Err → Option FailureCategory
category_in context_canceled = none
category_in deadline_exceeded = none
category_in eof = none
category_in (other s) = none
category_in (wrapped s e) = category_in e
category_in (failure c p d s g e) = some c

-- `errors.Is(err, context.Canceled) || errors.Is(err, context.DeadlineExceeded)`.
abbrev pub is_context_error : Err → Bool
is_context_error context_canceled = true
is_context_error deadline_exceeded = true
is_context_error eof = false
is_context_error (other s) = false
is_context_error (wrapped s e) = is_context_error e
is_context_error (failure c p d s g e) = is_context_error e

-- `errors.Is(err, io.EOF)`.
unfoldable pub is_eof : Err → Bool
is_eof context_canceled = false
is_eof deadline_exceeded = false
is_eof eof = true
is_eof (other s) = false
is_eof (wrapped s e) = is_eof e
is_eof (failure c p d s g e) = is_eof e

abbrev pub category_or : Option FailureCategory → Err → FailureCategory
category_or (some c) err = c
category_or none err = if is_context_error err then cancelled else invalid_output

unfoldable pub failure_category_of : Err → FailureCategory
failure_category_of err = category_or (category_in err) err

abbrev pub generation_or : Option Err → Err → String → Err
generation_or (some copy) err generation = copy
generation_or none err generation =
    failure (if is_context_error err then cancelled else invalid_output) "" "" "segment" generation
      err

unfoldable pub with_generation : Err → String → Err
with_generation err generation = generation_or (as_failure err generation) err generation

abbrev pub can_fallback : FailureCategory → Bool
can_fallback device_unavailable = true
can_fallback source_capability = true
can_fallback resource_exhausted = true
can_fallback admission_timeout = true
can_fallback invalid_output = true
can_fallback mux = true
can_fallback source_io = false
can_fallback cancelled = false

unfoldable pub can_fallback_before_commit : Err → Bool
can_fallback_before_commit err = can_fallback (failure_category_of err)

abbrev pub generation_of : Err → Option String
generation_of (failure c p d s g e) = some g
generation_of _ = none

as_failure-category :
    (err : Err) (g : String)
    → ((as_failure err g ≡ none) × (category_in err ≡ none))
      ⊎ ((c : FailureCategory) × (p d s : String) × (e : Err) × (as_failure err g
            ≡ some (failure c p d s g e))
          × (category_in err ≡ some c))
as_failure-category context_canceled g = inl (refl, refl)
as_failure-category deadline_exceeded g = inl (refl, refl)
as_failure-category eof g = inl (refl, refl)
as_failure-category (other s) g = inl (refl, refl)
as_failure-category (wrapped s e) g = as_failure-category e g
as_failure-category (failure c p d s h e) g = inr (c, p, d, s, e, refl, refl)

-- Naming the generation of an error keeps its class, whatever the error wraps, and the result is
-- always a `RenditionError` of that generation.
pub with_generation-category :
    (err : Err) (g : String)
    → (failure_category_of (with_generation err g) ≡ failure_category_of err)
      × (generation_of (with_generation err g) ≡ some g)
unfolding failure_category_of with_generation
with_generation-category err g = elim (as_failure-category err g) [
  | inl (a, b) ↦ rw (a, b) (refl, refl)
  | inr (c, p, d, s, e, a, b) ↦ rw (a, b) (refl, refl)
]
