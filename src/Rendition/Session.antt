-- ===== src/Rendition/Session.antt =====
-- media/rendition/manager.go `managedRendition`: reading a generation until it ends or is released.
--
-- `pipelineMu` makes a `Segment` or a `Release` one step. A call takes what the pipeline's own
-- `Segment` returns; `used` of the result says that the pipeline was called.
use mathlib.Core.Path.{subst}
use torrent_go.Prelude.{
  ℕ, ◌≡◌, refl, sym, ap, ◌∙◌, ◌≢◌, ◌⊎◌, inl, inr, Bool, true, false, if◌then◌else◌, if_both, Option,
  none, some, List, arith,
}
use torrent_go.Rendition.Errors.{
  Err, FailureCategory, other, failure_category_of, with_generation, is_eof, cancelled,
  with_generation-category,
}
use torrent_go.Rendition.Lifecycle.{
  GenerationState, discovered, candidate_prepared, primed, committed, running, complete, failed,
  transition,
}
use torrent_go.Rendition.Manager.{ManagedRendition, Result, ok, fail}

pub record Served : Type 0 where
  pub rendition : ManagedRendition
  pub content : Option (List ℕ)
  pub err : Option Err
  pub used : Bool

abbrev pub released_err : Err
released_err = other "rendition: released"

unfoldable pub init : ManagedRendition → Result (List ℕ)
init r = if r.released then fail released_err else ok r.init

-- `_ = r.lifecycle.transition(...)`.
abbrev advance : GenerationState → Option GenerationState → GenerationState
advance s none = s
advance s (some t) = t

abbrev ending : Err → GenerationState
ending err = if is_eof err then complete else failed

abbrev is_cancelled : FailureCategory → Bool
is_cancelled cancelled = true
is_cancelled _ = false

abbrev pub ended_by : ManagedRendition → Err → Served
ended_by r err =
    if is_cancelled (failure_category_of err)
    then record { rendition = r; content = none; err = some err; used = true }
    else record {
      rendition = record r {
        terminal_err = some err;
        state = advance r.state (transition r.state (ending err));
      };
      content = none;
      err = some err;
      used = true;
    }

abbrev pub answered : Result (List ℕ) → ManagedRendition → Served
answered (ok segment) r = record { rendition = r; content = some segment; err = none; used = true }
answered (fail err) r = ended_by r (with_generation err (r.descriptor).generation)

abbrev pub started : Option GenerationState → ManagedRendition → Result (List ℕ) → Served
started none r answer = record {
  rendition = r;
  content = none;
  err = some (with_generation (other "invalid generation transition") (r.descriptor).generation);
  used = false;
}
started (some s) r answer = answered answer (record r { state = s })

abbrev pub segment_in : GenerationState → ManagedRendition → Result (List ℕ) → Served
segment_in failed r answer = record {
  rendition = r;
  content = none;
  err = r.terminal_err;
  used = false;
}
segment_in complete r answer = record {
  rendition = r;
  content = none;
  err = r.terminal_err;
  used = false;
}
segment_in committed r answer = started (transition r.state running) r answer
segment_in discovered r answer = answered answer r
segment_in candidate_prepared r answer = answered answer r
segment_in primed r answer = answered answer r
segment_in running r answer = answered answer r

unfoldable pub segment : ManagedRendition → Result (List ℕ) → Served
segment r answer =
    if r.released
    then record { rendition = r; content = none; err = some released_err; used = false }
    else segment_in r.state r answer

-- A generation is live, or has ended with an error that was kept.
abbrev pub Kept : GenerationState → Option Err → Type 0
Kept committed e = e ≡ none
Kept running e = e ≡ none
Kept complete e = e ≢ none
Kept failed e = e ≢ none
Kept discovered e = ⊥
Kept candidate_prepared e = ⊥
Kept primed e = ⊥

abbrev pub IsKept : ManagedRendition → Type 0
IsKept r = Kept r.state r.terminal_err

-- Either a segment or an error, never both and never neither.
abbrev pub OneOf : Option (List ℕ) → Option Err → Type 0
OneOf none none = ⊥
OneOf none (some err) = Unit
OneOf (some d) none = Unit
OneOf (some d) (some err) = ⊥

abbrev pub Answers : Served → Type 0
Answers s = IsKept s.rendition × OneOf s.content s.err

some_ne_none : (e : Err) → ◌≢◌ {A = Option Err} (some e) none
some_ne_none e p = absurd (cc)

no_segment : (e : Option Err) → e ≢ none → OneOf none e
no_segment none p = p refl
no_segment (some e) p = tt

ended-Kept :
    (b : Bool) (e : Err)
    → Kept (advance running (transition running (if b then complete else failed))) (some e)
unfolding transition
ended-Kept true e = some_ne_none e
ended-Kept false e = some_ne_none e

answered-Answers :
    (a : Result (List ℕ)) (r : ManagedRendition)
    → r.state ≡ running
    → r.terminal_err ≡ none
    → Answers (answered a r)
answered-Answers (ok d) r s n = rw s (n, tt)
answered-Answers (fail err) r s n =
    let e = with_generation err (r.descriptor).generation in
    if_both Answers (is_cancelled (failure_category_of e)) (λ h. (rw s n, tt))
      (λ h. (rw s (ended-Kept (is_eof e) e), tt))

segment_in-Answers :
    (s : GenerationState) (r : ManagedRendition) (a : Result (List ℕ))
    → r.state ≡ s
    → IsKept r
    → Answers (segment_in s r a)
unfolding transition
segment_in-Answers discovered r a e k = absurd (subst (λ s. Kept s r.terminal_err) e k)
segment_in-Answers candidate_prepared r a e k = absurd (subst (λ s. Kept s r.terminal_err) e k)
segment_in-Answers primed r a e k = absurd (subst (λ s. Kept s r.terminal_err) e k)
segment_in-Answers committed r a e k =
    let n : r.terminal_err ≡ none = subst (λ s. Kept s r.terminal_err) e k in
    rw e (answered-Answers a _ refl n)
segment_in-Answers running r a e k = answered-Answers a r e (subst (λ s. Kept s r.terminal_err) e k)
segment_in-Answers complete r a e k =
    (k, no_segment r.terminal_err (subst (λ s. Kept s r.terminal_err) e k))
segment_in-Answers failed r a e k =
    (k, no_segment r.terminal_err (subst (λ s. Kept s r.terminal_err) e k))

-- A rendition that is live, or has ended with an error that was kept, remains so through `Segment`,
-- which answers with a segment or with an error, whatever the pipeline answers.
pub segment-Answers :
    (r : ManagedRendition) (answer : Result (List ℕ)) → IsKept r → Answers (segment r answer)
unfolding segment
segment-Answers r answer k =
    if_both Answers r.released (λ h. (k, tt)) (λ h. segment_in-Answers r.state r answer refl k)

not_cancelled : (c : FailureCategory) → c ≢ cancelled → is_cancelled c ≡ false
not_cancelled c h = ground arith

-- A generation that has ended, and how.
abbrev Ended : GenerationState → Type 0
Ended s = (s ≡ complete) ⊎ (s ≡ failed)

if_false : (b : Bool) (s t : Served) → b ≡ false → (if b then s else t) ≡ t
if_false b s t h = rw h

segment_live :
    (r : ManagedRendition) (answer : Result (List ℕ))
    → r.released ≡ false
    → segment r answer ≡ segment_in r.state r answer
unfolding segment
segment_live r answer l = if_false r.released _ _ l

stopped_answers :
    (r : ManagedRendition) (answer : Result (List ℕ))
    → r.released ≡ false
    → Ended r.state
    → segment r answer
      ≡ record { rendition = r; content = none; err = r.terminal_err; used = false }
stopped_answers r answer l (inl e) = segment_live r answer l ∙ ap (λ s. segment_in s r answer) e
stopped_answers r answer l (inr e) = segment_live r answer l ∙ ap (λ s. segment_in s r answer) e

ending-Ended :
    (b : Bool) → Ended (advance running (transition running (if b then complete else failed)))
unfolding transition
ending-Ended true = inl refl
ending-Ended false = inr refl

-- What `Segment` makes of an error of the pipeline's that is not a cancellation.
abbrev Sticks : ManagedRendition → Err → Served → Type 0
Sticks r e s =
    (s.err ≡ some e)
    × ((s.rendition).terminal_err ≡ some e)
    × Ended (s.rendition).state
    × ((s.rendition).released ≡ r.released)

later_answers :
    (r : ManagedRendition) (e : Err) (s : Served) (answer : Result (List ℕ))
    → r.released ≡ false
    → Sticks r e s
    → segment s.rendition answer
      ≡ record { rendition = s.rendition; content = none; err = some e; used = false }
later_answers r e s answer l (_, t, d, m) =
    stopped_answers s.rendition answer (m ∙ l) d
    ∙ ap (λ o. record { rendition = s.rendition; content = none; err = o; used = false }) t

answered-Sticks :
    (r : ManagedRendition) (err : Err)
    → r.state ≡ running
    → is_cancelled (failure_category_of (with_generation err (r.descriptor).generation)) ≡ false
    → Sticks r (with_generation err (r.descriptor).generation) (answered (fail err) r)
answered-Sticks r err s h =
    let e = with_generation err (r.descriptor).generation in
    rw h (refl, refl, rw s (ending-Ended (is_eof e)), refl)

segment_in-Sticks :
    (s : GenerationState) (r : ManagedRendition) (err : Err)
    → r.state ≡ s
    → IsKept r
    → r.terminal_err ≡ none
    → is_cancelled (failure_category_of (with_generation err (r.descriptor).generation)) ≡ false
    → Sticks r (with_generation err (r.descriptor).generation) (segment_in s r (fail err))
unfolding transition
segment_in-Sticks discovered r err e k n h = absurd (subst (λ s. Kept s r.terminal_err) e k)
segment_in-Sticks candidate_prepared r err e k n h = absurd (subst (λ s. Kept s r.terminal_err) e k)
segment_in-Sticks primed r err e k n h = absurd (subst (λ s. Kept s r.terminal_err) e k)
segment_in-Sticks committed r err e k n h =
    rw e (answered-Sticks (record r { state = running }) err refl h)
segment_in-Sticks running r err e k n h = answered-Sticks r err e h
segment_in-Sticks complete r err e k n h = absurd (subst (λ s. Kept s r.terminal_err) e k n)
segment_in-Sticks failed r err e k n h = absurd (subst (λ s. Kept s r.terminal_err) e k n)

-- The first error of the pipeline's that is not a cancellation ends a generation for good: every later
-- call of `Segment` returns the same error, with the generation's name, without calling the pipeline.
-- The generation is live and not released before.
pub failure_sticks :
    (r : ManagedRendition) (err : Err) (answer : Result (List ℕ))
    → IsKept r
    → r.released ≡ false
    → r.terminal_err ≡ none
    → failure_category_of err ≢ cancelled
    → let first = (segment r (fail err)).rendition in
      segment first answer ≡ record {
        rendition = first;
        content = none;
        err = some (with_generation err (r.descriptor).generation);
        used = false;
      }
failure_sticks r err answer k l n h =
    let e = with_generation err (r.descriptor).generation in
    let same = (with_generation-category err (r.descriptor).generation).0 in
    let c = not_cancelled (failure_category_of e) (λ q. h (sym same ∙ q)) in
    later_answers r e (segment r (fail err)) answer l (
      subst (Sticks r e) (sym (segment_live r (fail err) l))
        (segment_in-Sticks r.state r err refl k n c))
