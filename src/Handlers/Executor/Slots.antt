-- ===== src/Handlers/Executor/Slots.antt =====
-- The slots of a class are taken by its jobs, and no job sleeps while one is free.
use torrent_go.Prelude.{
  ℕ, suc, ◌≤◌, ◌<◌, ◌≡◌, refl, sym, ap, ◌∙◌, ◌⊎◌, inl, inr, Bool, true, false, leb, ◌==◌, if_both,
  if_true, if_false, Bool-cases, some, ◌∷◌, set, get_elem?, arith,
}
use torrent_go.Handlers.Executor.{
  ExtClass, ext_window, ext_heavy, ext_analyze, code, Counts, with_count, ExtExecutor,
  new_ext_executor, Ticket, refused, released, waiting, sleeping, held, enter, look, broadcast,
  System, give_back, with_ticket, Step, Reachable,
}
use torrent_go.Handlers.Executor.Counting.{
  holds, sleeps, count, count-set, broadcast-holds, broadcast-sleeps,
}

code-injective : (a b : ExtClass) → (code a == code b) ≡ true → a ≡ b
code-injective ext_window ext_window e = refl
code-injective ext_window ext_heavy e = absurd (cc)
code-injective ext_window ext_analyze e = absurd (cc)
code-injective ext_heavy ext_window e = absurd (cc)
code-injective ext_heavy ext_heavy e = refl
code-injective ext_heavy ext_analyze e = absurd (cc)
code-injective ext_analyze ext_window e = absurd (cc)
code-injective ext_analyze ext_heavy e = absurd (cc)
code-injective ext_analyze ext_analyze e = refl

own : (c cls : ExtClass) → (code c == code cls) ≡ true → holds c (held cls) ≡ 1
own c cls q = if_true (code c == code cls) 1 0 q

other : (c cls : ExtClass) → (code c == code cls) ≡ false → holds c (held cls) ≡ 0
other c cls q = if_false (code c == code cls) 1 0 q

-- The slots of each class.
pub record IsFair (limits : Counts) (s : System) : Type 0 where
  pub same_limits : s.executor.limits ≡ limits
  pub counted : (c : ExtClass) → s.executor.inflight c ≡ count (holds c) s.tickets
  pub capped : (c : ExtClass) → s.executor.inflight c ≤ limits c
  pub awake : (c : ExtClass) → (count (sleeps c) s.tickets ≡ 0) ⊎ (limits c ≤ s.executor.inflight c)

-- A slot that was given back wakes every sleeper.
given_back :
    (limits : Counts) (s : System) (i : ℕ) (cls : ExtClass)
    → IsFair limits s
    → get_elem? s.tickets i ≡ some (held cls)
    → IsFair limits (record {
      executor = give_back s.executor cls;
      tickets = broadcast (set s.tickets i released);
    })
given_back limits s i cls h e = record {
  same_limits = h.same_limits;
  counted = λ c.
      let k = count-set (holds c) s.tickets i released e in
      let b = broadcast-holds c (set s.tickets i released) in
      if_both (λ (n : ℕ). n ≡ count (holds c) (broadcast (set s.tickets i released)))
        (code c == code cls)
        (λ q.
          let same = ap s.executor.inflight (code-injective c cls q) in
          omega (arith, k, b, own c cls q, h.counted c, same))
        (λ q. omega (arith, k, b, other c cls q, h.counted c));
  capped = λ c.
      if_both (λ (n : ℕ). n ≤ limits c) (code c == code cls)
        (λ q.
          let same = ap s.executor.inflight (code-injective c cls q) in
          omega (arith, same, h.capped c))
        (λ q. h.capped c);
  awake = λ c. inl (broadcast-sleeps c (set s.tickets i released));
}

-- A ticket without a slot that stands for a waiting one.
gone_on :
    (limits : Counts) (s : System) (i : ℕ) (cls : ExtClass) (t : Ticket)
    → IsFair limits s
    → get_elem? s.tickets i ≡ some (waiting cls)
    → ((c : ExtClass) → holds c t ≡ 0)
    → ((c : ExtClass) → (sleeps c t ≡ 0) ⊎ (limits c ≤ s.executor.inflight c))
    → IsFair limits (with_ticket s i (s.executor, t))
gone_on limits s i cls t h e none_held sleep = record {
  same_limits = h.same_limits;
  counted = λ c. omega (arith, count-set (holds c) s.tickets i t e, none_held c, h.counted c);
  capped = h.capped;
  awake = λ c. elim (h.awake c) [
    | inr full ↦ inr full
    | inl quiet ↦ elim (sleep c) [
      | inr full ↦ inr full
      | inl z ↦ inl (omega (arith, count-set (sleeps c) s.tickets i t e, z, quiet))
    ]
  ];
}

admitted :
    (limits : Counts) (s : System) (i : ℕ) (cls : ExtClass)
    → IsFair limits s
    → get_elem? s.tickets i ≡ some (waiting cls)
    → s.executor.inflight cls < limits cls
    → let n = suc (s.executor.inflight cls) in
      IsFair limits (
        with_ticket s i
          (record s.executor { inflight = with_count cls n s.executor.inflight }, held cls))
admitted limits s i cls h e free = record {
  same_limits = h.same_limits;
  counted = λ c.
      let k = count-set (holds c) s.tickets i (held cls) e in
      if_both (λ (n : ℕ). n ≡ count (holds c) (set s.tickets i (held cls))) (code c == code cls)
        (λ q.
          let same = ap s.executor.inflight (code-injective c cls q) in
          omega (arith, k, own c cls q, h.counted c, same))
        (λ q. omega (arith, k, other c cls q, h.counted c));
  capped = λ c.
      if_both (λ (n : ℕ). n ≤ limits c) (code c == code cls)
        (λ q. let same = ap limits (code-injective c cls q) in omega (arith, same, free))
        (λ q. h.capped c);
  awake = λ c. elim (h.awake c) [
    | inl quiet ↦ inl (omega (arith, count-set (sleeps c) s.tickets i (held cls) e, quiet))
    | inr full ↦ inr (
        if_both (λ (n : ℕ). limits c ≤ n) (code c == code cls)
          (λ q.
            let same = ap s.executor.inflight (code-injective c cls q) in omega (arith, same, full))
          (λ q. full))
  ];
}

leb→le : (a b : ℕ) → leb a b ≡ true → a ≤ b
leb→le a b h = ground arith

not_le : (a b : ℕ) → leb a b ≡ false → b < a
not_le a b h = ground arith

-- A job that goes to sleep saw no free slot.
looked :
    (limits : Counts) (s : System) (i : ℕ) (cls : ExtClass) (done : Bool)
    → IsFair limits s
    → get_elem? s.tickets i ≡ some (waiting cls)
    → IsFair limits (with_ticket s i (look s.executor cls done))
unfolding look
looked limits s i cls done h e =
    let limit = ap (λ (l : Counts). l cls) h.same_limits in
    if_both (λ (l : ExtExecutor × Ticket). IsFair limits (with_ticket s i l))
      (leb (s.executor.limits cls) (s.executor.inflight cls))
      (λ full.
        if_both (λ (t : Ticket). IsFair limits (with_ticket s i (s.executor, t))) done
          (λ d. gone_on limits s i cls refused h e (λ c. refl) (λ c. inl refl))
          (λ d.
            gone_on limits s i cls (sleeping cls) h e (λ c. refl)
              (λ c. elim (Bool-cases (code c == code cls)) [
                | inr q ↦ inl (if_false (code c == code cls) 1 0 q)
                | inl q ↦
                    let same = ap limits (code-injective c cls q) in
                    let used = ap s.executor.inflight (code-injective c cls q) in
                    let k = leb→le _ _ full in inr (omega (arith, same, used, limit, k))
              ])))
      (λ free. admitted limits s i cls h e (let k = not_le _ _ free in omega (arith, k, limit)))

-- A call that just began.
abbrev Idle : Ticket → Type 0
Idle t = (c : ExtClass) → (holds c t ≡ 0) × (sleeps c t ≡ 0)

enter-Idle : (e : ExtExecutor) (cls : ExtClass) → Idle (enter e cls)
unfolding enter
enter-Idle e cls = if_both Idle (leb (e.limits cls) 0) (λ h c. (refl, refl)) (λ h c. (refl, refl))

entered :
    (limits : Counts) (s : System) (t : Ticket)
    → IsFair limits s
    → Idle t
    → IsFair limits (record s { tickets = t ∷ s.tickets })
unfolding count
entered limits s t h idle = record {
  same_limits = h.same_limits;
  counted = λ c. let k = idle c in omega (arith, h.counted c, k.0);
  capped = h.capped;
  awake = λ c. elim (h.awake c) [
    | inl quiet ↦ inl (let k = idle c in omega (arith, quiet, k.1))
    | inr full ↦ inr full
  ];
}

step-IsFair : (limits : Counts) {s t : System} → IsFair limits s → Step s t → IsFair limits t
unfolding count
step-IsFair limits h (Step.enters {s = s} cls) =
    entered limits s (enter s.executor cls) h (enter-Idle s.executor cls)
step-IsFair limits h (Step.looks {s = s} i cls done e) = looked limits s i cls done h e
step-IsFair limits h (Step.releases {s = s} i cls e) = given_back limits s i cls h e
step-IsFair limits h (Step.fires {s = s}) = record {
  same_limits = h.same_limits;
  counted = λ c. h.counted c ∙ sym (broadcast-holds c s.tickets);
  capped = h.capped;
  awake = λ c. inl (broadcast-sleeps c s.tickets);
}

-- In every state that is reached, whatever jobs ask, wait, give up and release in whatever order: the slots
-- of a class that are in use are those that its jobs hold, no more than its limit, and no job of a class
-- sleeps while one of its slots is free.
pub reachable-IsFair :
    (window heavy analyze : ℕ) {s : System}
    → Reachable window heavy analyze s
    → IsFair (new_ext_executor window heavy analyze).limits s
unfolding new_ext_executor count
reachable-IsFair window heavy analyze Reachable.start = record {
  same_limits = refl;
  counted = λ c. refl;
  capped = λ c. omega arith;
  awake = λ c. inl refl;
}
reachable-IsFair window heavy analyze (Reachable.after r x) =
    step-IsFair _ (reachable-IsFair window heavy analyze r) x
