-- ===== src/Handlers/Executor/Counting.antt =====
-- The tickets of a class: those that hold a slot, and those that sleep.
use torrent_go.Prelude.{
  ℕ, zero, suc, ◌+◌, ◌≡◌, refl, ap, ◌==◌, if◌then◌else◌, some, List, [], ◌∷◌, set, get_elem?, arith,
}
use torrent_go.Handlers.Executor.{
  ExtClass, code, Ticket, unlimited, refused, released, waiting, sleeping, held, woken, broadcast,
}

-- 1 for a ticket that holds a slot of the class.
abbrev pub holds : ExtClass → Ticket → ℕ
holds c unlimited = 0
holds c refused = 0
holds c released = 0
holds c (waiting cls) = 0
holds c (sleeping cls) = 0
holds c (held cls) = if code c == code cls then 1 else 0

abbrev pub sleeps : ExtClass → Ticket → ℕ
sleeps c unlimited = 0
sleeps c refused = 0
sleeps c released = 0
sleeps c (waiting cls) = 0
sleeps c (sleeping cls) = if code c == code cls then 1 else 0
sleeps c (held cls) = 0

unfoldable pub count : (Ticket → ℕ) → List Ticket → ℕ
count f [] = 0
count f (t ∷ ts) = f t + count f ts

pub count-set :
    (f : Ticket → ℕ) (ts : List Ticket) (i : ℕ) (t : Ticket) {old : Ticket}
    → get_elem? ts i ≡ some old
    → count f (set ts i t) + f old ≡ count f ts + f t
unfolding count
count-set f [] i t e = cc
count-set f (x ∷ ts) zero t {old} e = let same : x ≡ old = cc e in omega (arith, ap f same)
count-set f (x ∷ ts) (suc i) t e = omega (arith, count-set f ts i t e)

pub broadcast-holds :
    (c : ExtClass) (ts : List Ticket) → count (holds c) (broadcast ts) ≡ count (holds c) ts
unfolding count broadcast
broadcast-holds c [] = refl
broadcast-holds c (t ∷ ts) = omega (arith, woken-holds t, broadcast-holds c ts)
  where
    woken-holds : (t : Ticket) → holds c (woken t) ≡ holds c t
    woken-holds unlimited = refl
    woken-holds refused = refl
    woken-holds released = refl
    woken-holds (waiting cls) = refl
    woken-holds (sleeping cls) = refl
    woken-holds (held cls) = refl

pub broadcast-sleeps : (c : ExtClass) (ts : List Ticket) → count (sleeps c) (broadcast ts) ≡ 0
unfolding count broadcast
broadcast-sleeps c [] = refl
broadcast-sleeps c (t ∷ ts) = omega (arith, woken-sleeps t, broadcast-sleeps c ts)
  where
    woken-sleeps : (t : Ticket) → sleeps c (woken t) ≡ 0
    woken-sleeps unlimited = refl
    woken-sleeps refused = refl
    woken-sleeps released = refl
    woken-sleeps (waiting cls) = refl
    woken-sleeps (sleeping cls) = refl
    woken-sleeps (held cls) = refl
