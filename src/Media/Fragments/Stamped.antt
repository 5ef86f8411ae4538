-- ===== src/Media/Fragments/Stamped.antt =====
-- Each stream's packets reach the muxer in their order, each with the time to its successor.
use torrent_go.Media.Fragments.{
  Sample, FragWriter, new_frag_writer, write_all, or_zero, final_dur, finish_held, finish,
}
use torrent_go.Prelude.{
  ℕ, ℕ_discrete, ◌⊎◌, ◌≡◌, ◌≢◌, refl, sym, ap, ◌∙◌, Bool, true, inl, inr, Option, none, some, List,
  [], ◌∷◌, ◌++◌, arith,
}
use torrent_go.Prelude.Assoc.{lookup, erase, lookup-erase, erase-Distinct}
use torrent_go.Prelude.Int.{ℤ, pos}
use mathlib.Core.Path.{subst}
use mathlib.Core.List.{append-nil}
use torrent_go.Media.Fragments.Steps.{
  always, of_stream, stamped, view, total_of, view_eq, IsKeyed, added_other, added_same,
  final_dur-closing, all-IsWritten, step_on,
}

-- The stream is one of those that are finished.
abbrev pub Among : ℕ → List ℕ → Type 0
Among s [] = ⊥
Among s (k ∷ ks) = (k ≡ s) ⊎ Among s ks

record IsFinished (s : ℕ) (fw : FragWriter) (r : FragWriter × Bool) : Type 0 where
  fine : r.1 ≡ true
  keyed : IsKeyed r.0
  same_total : total_of s r.0 [] ≡ total_of s fw []

erased-IsKeyed :
    (fw : FragWriter) (k : ℕ) (out : List Sample)
    → IsKeyed fw
    → IsKeyed (record fw { held = erase k fw.held; written = out })
erased-IsKeyed fw k out h = record {
  distinct = erase-Distinct k fw.held h.distinct;
  keyed = λ s p e. ground (arith, lookup-erase k s fw.held h.distinct, h.keyed s p);
}

finish_own :
    (k : ℕ) (fw : FragWriter) (prev : Sample)
    → lookup k fw.held ≡ some prev
    → IsKeyed fw
    → total_of k (finish_held always fw k (some prev)).0 [] ≡ total_of k fw []
unfolding total_of stamped
finish_own k fw prev e h =
    let d = or_zero (lookup k fw.last_dur) in
    let out = of_stream k fw.written in
    let last : Sample = record prev { duration = final_dur d prev } in
    let gone : lookup k (erase k fw.held) ≡ none =
      ground (arith, lookup-erase k k fw.held h.distinct) in
    view_eq _ (out ++ (last ∷ [])) d d _ none [] (added_same k fw.written last (h.keyed k prev e))
      refl gone
    ∙ append-nil (out ++ (last ∷ []))
    ∙ ap (λ (x : ℤ). out ++ (record prev { duration = x } ∷ [])) (final_dur-closing d prev)
    ∙ sym (ap (λ (x : Option Sample). view out d x []) e)

held-IsFinished :
    (o : Option Sample) (k s : ℕ) (fw : FragWriter)
    → lookup k fw.held ≡ o
    → IsKeyed fw
    → IsFinished s fw (finish_held always fw k o)
unfolding total_of stamped
held-IsFinished none k s fw e h = record { fine = refl; keyed = h; same_total = refl }
held-IsFinished (some prev) k s fw e h = record {
  fine = refl;
  keyed = erased-IsKeyed fw k _ h;
  same_total = elim (ℕ_discrete k s) [
    | yes same ↦ rw (← same) (finish_own k fw prev e h)
    | no n ↦
        let other : prev.stream ≢ s = λ x. n (sym (h.keyed k prev e) ∙ x) in
        let kept : lookup s (erase k fw.held) ≡ lookup s fw.held =
          ground (arith, lookup-erase k s fw.held h.distinct) in
        view_eq _ _ _ _ _ _ [] (added_other s fw.written _ other) refl kept
  ];
}

finish-IsFinished :
    (s : ℕ) (order : List ℕ) (fw : FragWriter)
    → IsKeyed fw
    → IsFinished s fw (finish always fw order)
unfolding finish
finish-IsFinished s [] fw h = record { fine = refl; keyed = h; same_total = refl }
finish-IsFinished s (k ∷ order) fw h =
    let r = finish_held always fw k (lookup k fw.held) in
    let f = held-IsFinished (lookup k fw.held) k s fw refl h in
    let g = finish-IsFinished s order r.0 f.keyed in
    subst (IsFinished s fw) (sym (step_on r (λ w. finish always w order) f.fine))
      (record { fine = g.fine; keyed = g.keyed; same_total = g.same_total ∙ f.same_total })

-- Nothing is held for a stream after it was finished.
released :
    (o : Option Sample) (k s : ℕ) (fw : FragWriter)
    → lookup k fw.held ≡ o
    → IsKeyed fw
    → (k ≡ s) ⊎ (lookup s fw.held ≡ none)
    → lookup s (finish_held always fw k o).0.held ≡ none
released none k s fw e h (inl same) = rw (← same) e
released none k s fw e h (inr n) = n
released (some prev) k s fw e h c = ground (arith, lookup-erase k s fw.held h.distinct, c)

finished_none :
    (s : ℕ) (order : List ℕ) (fw : FragWriter)
    → IsKeyed fw
    → (lookup s fw.held ≡ none) ⊎ Among s order
    → lookup s (finish always fw order).0.held ≡ none
unfolding finish
finished_none s [] fw h (inl n) = n
finished_none s [] fw h (inr i) = elim i [ ]
finished_none s (k ∷ order) fw h c =
    let r = finish_held always fw k (lookup k fw.held) in
    let f = held-IsFinished (lookup k fw.held) k s fw refl h in
    let next : (lookup s r.0.held ≡ none) ⊎ Among s order = elim c [
      | inl n ↦ inl (released (lookup k fw.held) k s fw refl h (inr n))
      | inr (inl e) ↦ inl (released (lookup k fw.held) k s fw refl h (inl e))
      | inr (inr i) ↦ inr i
    ] in
    subst (λ (x : FragWriter × Bool). lookup s x.0.held ≡ none)
      (sym (step_on r (λ w. finish always w order) f.fine)) (finished_none s order r.0 f.keyed next)

-- With a muxer that takes every packet, no call fails, and at the end the muxer has each stream's
-- packets, all of them and in their order, each with the time to its successor as its duration where
-- that is positive, and the last one with the last such time, or else with its own positive duration
-- or 1. The finish may go through the streams in any order that has this one.
pub segment-stamped :
    (s : ℕ) (ps : List Sample) (order : List ℕ)
    → Among s order
    → let w = write_all always new_frag_writer ps in
      let r = finish always w.0 order in
      (w.1 ≡ true) × (r.1 ≡ true) × (of_stream s r.0.written ≡ stamped (pos 0) (of_stream s ps))
unfolding total_of of_stream stamped
segment-stamped s ps order i =
    let none_held : IsKeyed new_frag_writer = record {
      distinct = tt;
      keyed = λ k p e. absurd (ground arith);
    } in
    let h = all-IsWritten s ps new_frag_writer [] none_held in
    let w = write_all always new_frag_writer ps in
    let g = finish-IsFinished s order w.0 h.keyed in
    let r = finish always w.0 order in
    let empty = finished_none s order w.0 h.keyed (inr i) in
    let out = of_stream s r.0.written in
    let ended : total_of s r.0 [] ≡ out =
      ap (λ (x : Option Sample). view out (or_zero (lookup s r.0.last_dur)) x []) empty
      ∙ append-nil out in
    (
      h.fine,
      g.fine,
      sym ended ∙ g.same_total ∙ h.same_total ∙ ap (stamped (pos 0)) (append-nil (of_stream s ps)),
    )
