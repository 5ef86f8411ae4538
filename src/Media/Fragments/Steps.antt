-- ===== src/Media/Fragments/Steps.antt =====
-- What each packet that is written means for the streams: the next packet of its own, and nothing
-- for the others.
use torrent_go.Media.Fragments.{
  Sample, FragWriter, gap, with_gap, note_gap, flush, write, unless_failed, write_all, or_zero,
  final_dur,
}
use torrent_go.Prelude.{
  ℕ, zero, suc, ℕ_discrete, ◌≡◌, ◌≢◌, refl, sym, ap, ◌∙◌, Bool, true, false, ◌==◌, if◌then◌else◌,
  if_both, Bool-cases, Option-cases, inl, inr, Option, none, some, List, [], ◌∷◌, ◌++◌, arith,
}
use torrent_go.Prelude.Assoc.{lookup, insert, Distinct, lookup-insert, insert-Distinct}
use torrent_go.Prelude.Int.{ℤ, pos, negsuc, ◌-ℤ◌, leb_ℤ, ltb_ℤ}
use mathlib.Core.Path.{subst}
use mathlib.Core.List.{append_assoc, append-nil}

-- A muxer that takes every packet.
abbrev pub always : Sample → Bool
always p = true

-- The packets of one stream.
unfoldable pub of_stream : ℕ → List Sample → List Sample
of_stream s [] = []
of_stream s (p ∷ ps) = let rest = of_stream s ps in if p.stream == s then p ∷ rest else rest

-- The specification, which says in its own words what durations are right. A packet that is followed
-- by a later one lasts until then; one that is not keeps the duration that it came with.
abbrev pub lasting : Sample → Sample → Sample
lasting p q = if ltb_ℤ (pos 0) (q.dts -ℤ p.dts) then record p { duration = q.dts -ℤ p.dts } else p

abbrev pub next_dur : ℤ → Sample → Sample → ℤ
next_dur d p q = if ltb_ℤ (pos 0) (q.dts -ℤ p.dts) then q.dts -ℤ p.dts else d

-- The duration of the last packet, after the last time between two packets or 0.
abbrev pub closing : ℤ → ℤ → ℤ
closing (pos (suc n)) own = pos (suc n)
closing (pos zero) (pos (suc m)) = pos (suc m)
closing (pos zero) (pos zero) = pos 1
closing (pos zero) (negsuc m) = pos 1
closing (negsuc n) (pos (suc m)) = pos (suc m)
closing (negsuc n) (pos zero) = pos 1
closing (negsuc n) (negsuc m) = pos 1

-- What a stream's packets look like: each has the time to the next one where that is positive, and
-- the last one has the last such time. The first argument is the last such time so far.
unfoldable pub stamped : ℤ → List Sample → List Sample
stamped d [] = []
stamped d (p ∷ []) = record p { duration = closing d p.duration } ∷ []
stamped d (p ∷ q ∷ ps) = lasting p q ∷ stamped (next_dur d p q) (q ∷ ps)

pub final_dur-closing : (d : ℤ) (p : Sample) → final_dur d p ≡ closing d p.duration
final_dur-closing d p = closed d p.duration
  where
    closed :
        (d own : ℤ)
        → (if leb_ℤ d (pos 0) then (if leb_ℤ own (pos 0) then pos 1 else own) else d)
          ≡ closing d own
    closed (pos (suc n)) own = ground arith
    closed (pos zero) (pos (suc m)) = ground arith
    closed (pos zero) (pos zero) = ground arith
    closed (pos zero) (negsuc m) = ground arith
    closed (negsuc n) (pos (suc m)) = ground arith
    closed (negsuc n) (pos zero) = ground arith
    closed (negsuc n) (negsuc m) = ground arith

abbrev pub held_list : Option Sample → List Sample
held_list none = []
held_list (some p) = p ∷ []

-- A held packet belongs to the stream that it is held for.
pub record IsKeyed (fw : FragWriter) : Type 0 where
  pub distinct : Distinct fw.held
  pub keyed : (s : ℕ) (p : Sample) → lookup s fw.held ≡ some p → p.stream ≡ s

of_stream-append :
    (s : ℕ) (xs ys : List Sample) → of_stream s (xs ++ ys) ≡ of_stream s xs ++ of_stream s ys
unfolding of_stream
of_stream-append s [] ys = refl
of_stream-append s (x ∷ xs) ys = ground (arith, of_stream-append s xs ys)

abbrev pub view : List Sample → ℤ → Option Sample → List Sample → List Sample
view out d h rest = out ++ stamped d (held_list h ++ rest)

-- What the stream will have when `rest` follows.
unfoldable pub total_of : ℕ → FragWriter → List Sample → List Sample
total_of s fw rest =
    view (of_stream s fw.written) (or_zero (lookup s fw.last_dur)) (lookup s fw.held) rest

pub view_eq :
    (out out' : List Sample) (d d' : ℤ) (h h' : Option Sample) (rest : List Sample)
    → out ≡ out'
    → d ≡ d'
    → h ≡ h'
    → view out d h rest ≡ view out' d' h' rest
view_eq out out' d d' h h' rest a b c =
    ap (λ (x : List Sample). view x d h rest) a
    ∙ ap (λ (x : ℤ). view out' x h rest) b
    ∙ ap (λ (x : Option Sample). view out' d' x rest) c

stream_with_gap : (p q : Sample) → (with_gap p q).stream ≡ p.stream
stream_with_gap p q = ground arith

pub added_other :
    (s : ℕ) (xs : List Sample) (p : Sample)
    → p.stream ≢ s
    → of_stream s (xs ++ (p ∷ [])) ≡ of_stream s xs
unfolding of_stream
added_other s xs p n =
    of_stream-append s xs (p ∷ [])
    ∙ ap (λ (ys : List Sample). of_stream s xs ++ ys) (ground arith)
    ∙ append-nil (of_stream s xs)

pub added_same :
    (s : ℕ) (xs : List Sample) (p : Sample)
    → p.stream ≡ s
    → of_stream s (xs ++ (p ∷ [])) ≡ of_stream s xs ++ (p ∷ [])
unfolding of_stream
added_same s xs p e =
    of_stream-append s xs (p ∷ []) ∙ ap (λ (ys : List Sample). of_stream s xs ++ ys) (ground arith)

held_other :
    (s : ℕ) (p : Sample) (m : List (ℕ × Sample))
    → p.stream ≢ s
    → lookup s (insert p.stream p m) ≡ lookup s m
held_other s p m n = ground (arith, lookup-insert p.stream s p m)

dur_other :
    (s : ℕ) (prev p : Sample) (m : List (ℕ × ℤ))
    → p.stream ≢ s
    → or_zero (lookup s (note_gap prev p m)) ≡ or_zero (lookup s m)
dur_other s prev p m n =
    if_both (λ (l : List (ℕ × ℤ)). or_zero (lookup s l) ≡ or_zero (lookup s m))
      (ltb_ℤ (pos 0) (gap prev p))
      (λ c.
        let e : lookup s (insert p.stream (gap prev p) m) ≡ lookup s m =
          ground (arith, lookup-insert p.stream s (gap prev p) m) in
        ap or_zero e)
      (λ c. refl)

dur_same :
    (prev p : Sample) (m : List (ℕ × ℤ))
    → or_zero (lookup p.stream (note_gap prev p m)) ≡ next_dur (or_zero (lookup p.stream m)) prev p
dur_same prev p m = elim (Bool-cases (ltb_ℤ (pos 0) (gap prev p))) [
  | inl c ↦
      let e : lookup p.stream (insert p.stream (gap prev p) m) ≡ some (gap prev p) =
        ground (arith, lookup-insert p.stream p.stream (gap prev p) m) in
      rw c (ap or_zero e)
  | inr c ↦ rw c
]

-- A packet of another stream changes nothing.
flush_other :
    (o : Option Sample) (s : ℕ) (fw : FragWriter) (p : Sample) (rest : List Sample)
    → ((prev : Sample) → o ≡ some prev → prev.stream ≡ p.stream)
    → p.stream ≢ s
    → total_of s (flush always fw o p).0 rest ≡ total_of s fw rest
unfolding total_of
flush_other none s fw p rest k n = view_eq _ _ _ _ _ _ rest refl refl (held_other s p fw.held n)
flush_other (some prev) s fw p rest k n =
    view_eq _ _ _ _ _ _ rest
      (added_other s fw.written (with_gap prev p)
        (λ e. n (sym (k prev refl) ∙ sym (stream_with_gap prev p) ∙ e)))
      (dur_other s prev p fw.last_dur n) (held_other s p fw.held n)

-- A packet of the stream is the next one.
flush_same :
    (o : Option Sample) (fw : FragWriter) (p : Sample) (rest : List Sample)
    → lookup p.stream fw.held ≡ o
    → ((prev : Sample) → o ≡ some prev → prev.stream ≡ p.stream)
    → total_of p.stream (flush always fw o p).0 rest ≡ total_of p.stream fw (p ∷ rest)
unfolding total_of stamped
flush_same none fw p rest e k =
    let d = or_zero (lookup p.stream fw.last_dur) in
    let out = of_stream p.stream fw.written in
    let new : lookup p.stream (insert p.stream p fw.held) ≡ some p =
      ground (arith, lookup-insert p.stream p.stream p fw.held) in
    ap (λ (h : Option Sample). view out d h rest) new
    ∙ sym (ap (λ (h : Option Sample). view out d h (p ∷ rest)) e)
flush_same (some prev) fw p rest e k =
    let d = or_zero (lookup p.stream fw.last_dur) in
    let out = of_stream p.stream fw.written in
    let new : lookup p.stream (insert p.stream p fw.held) ≡ some p =
      ground (arith, lookup-insert p.stream p.stream p fw.held) in
    view_eq _ (out ++ (with_gap prev p ∷ [])) _ (next_dur d prev p) _ (some p) rest
      (added_same p.stream fw.written (with_gap prev p) (stream_with_gap prev p ∙ k prev refl))
      (dur_same prev p fw.last_dur) new
    ∙ append_assoc out (with_gap prev p ∷ []) (stamped (next_dur d prev p) (p ∷ rest))
    ∙ sym (ap (λ (h : Option Sample). view out d h (p ∷ rest)) e)

write-IsKeyed : (fw : FragWriter) (p : Sample) → IsKeyed fw → IsKeyed (write always fw p).0
unfolding write
write-IsKeyed fw p k = elim (Option-cases (lookup p.stream fw.held)) [
  | inl e ↦ rw e (record {
    keyed = λ s q h. ground (arith, lookup-insert p.stream s p fw.held, k.keyed s q);
    distinct = insert-Distinct p.stream p fw.held k.distinct;
  })
  | inr (prev, e) ↦ rw e (record {
    keyed = λ s q h. ground (arith, lookup-insert p.stream s p fw.held, k.keyed s q);
    distinct = insert-Distinct p.stream p fw.held k.distinct;
  })
]

always_ok : (fw : FragWriter) (p : Sample) → (write always fw p).1 ≡ true
unfolding write
always_ok fw p = elim (Option-cases (lookup p.stream fw.held)) [
  | inl e ↦ rw e
  | inr (prev, e) ↦ rw e
]

pub step_on :
    (r : FragWriter × Bool) (next : FragWriter → FragWriter × Bool)
    → r.1 ≡ true
    → unless_failed r next ≡ next r.0
step_on (fw, true) next e = refl
step_on (fw, false) next e = cc

own : (p : Sample) → of_stream p.stream (p ∷ []) ≡ p ∷ []
unfolding of_stream
own p = ground arith

not_own : (s : ℕ) (p : Sample) → p.stream ≢ s → of_stream s (p ∷ []) ≡ []
unfolding of_stream
not_own s p n = ground arith

write_total :
    (s : ℕ) (fw : FragWriter) (p : Sample) (rest : List Sample)
    → IsKeyed fw
    → total_of s (write always fw p).0 rest ≡ total_of s fw (of_stream s (p ∷ []) ++ rest)
unfolding write
write_total s fw p rest k = elim (ℕ_discrete p.stream s) [
  | yes e ↦ rw (← e) (
      flush_same (lookup p.stream fw.held) fw p rest refl (λ q. k.keyed p.stream q)
      ∙ sym (ap (λ (l : List Sample). total_of p.stream fw (l ++ rest)) (own p)))
  | no n ↦
      flush_other (lookup p.stream fw.held) s fw p rest (λ q. k.keyed p.stream q) n
      ∙ sym (ap (λ (l : List Sample). total_of s fw (l ++ rest)) (not_own s p n))
]

-- All packets of a segment.
pub record IsWritten (s : ℕ) (fw : FragWriter) (ps rest : List Sample) (r : FragWriter × Bool)
    : Type 0 where
  pub fine : r.1 ≡ true
  pub keyed : IsKeyed r.0
  pub same_total : total_of s r.0 rest ≡ total_of s fw (of_stream s ps ++ rest)

pub all-IsWritten :
    (s : ℕ) (ps : List Sample) (fw : FragWriter) (rest : List Sample)
    → IsKeyed fw
    → IsWritten s fw ps rest (write_all always fw ps)
unfolding write_all of_stream
all-IsWritten s [] fw rest k = record { fine = refl; keyed = k; same_total = refl }
all-IsWritten s (p ∷ ps) fw rest k =
    let r = write always fw p in
    let h = all-IsWritten s ps r.0 rest (write-IsKeyed fw p k) in
    let e = step_on r (λ w. write_all always w ps) (always_ok fw p) in
    subst (IsWritten s fw (p ∷ ps) rest) (sym e) (record {
      fine = h.fine;
      keyed = h.keyed;
      same_total =
          h.same_total
          ∙ write_total s fw p (of_stream s ps ++ rest) k
          ∙ ap (total_of s fw) (
              sym (append_assoc (of_stream s (p ∷ [])) (of_stream s ps) rest)
              ∙ ap (λ (l : List Sample). l ++ rest) (sym (of_stream-append s (p ∷ []) ps)));
    })
