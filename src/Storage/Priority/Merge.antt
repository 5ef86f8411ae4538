-- ===== src/Storage/Priority/Merge.antt =====
-- Merging is a maximum, so the order of the readers does not count.
use mathlib.Core.Path.{fun_ext}
use mathlib.Core.List.{Perm, Permᴰ}
use mathlib.Core.Logic.{∥∥₁_elim}
use torrent_go.Prelude.{
  ℕ, zero, suc, ◌+◌, ◌-◌, ◌≤◌, ◌≡◌, refl, sym, ap, ◌∙◌, ◌⊎◌, inl, inr, false, ◌&&◌, ltb, leb,
  if◌then◌else◌, arith, List, [], ◌∷◌, Bool-cases,
}
use torrent_go.Storage.ReadClass.{
  PiecePriority, none, high, rank, ClassPolicy, policy, ahead_pieces_for,
}
use torrent_go.Storage.Window.{Reader, Geometry, curr_piece}
use torrent_go.Storage.Window.Bounds.{Member}
use torrent_go.Storage.Priority.{Desired, raise, raise_range, tail_pieces, boost, visit, desired}

abbrev pub higher : PiecePriority → PiecePriority → PiecePriority
higher a b = if ltb (rank a) (rank b) then b else a

PiecePriority-set : IsSet PiecePriority
PiecePriority-set = hlevel

rank_injective : (a b : PiecePriority) → rank a ≡ rank b → a ≡ b
rank_injective a b h = ground arith

higher_assoc : (a b c : PiecePriority) → higher (higher a b) c ≡ higher a (higher b c)
higher_assoc a b c = ground arith

higher_comm : (a b : PiecePriority) → higher a b ≡ higher b a
higher_comm a b = ground (arith, rank_injective a b)

-- What a loop of raises claims at `j`.
abbrev claimed : ℕ → ℕ → PiecePriority → ℕ → ℕ → ℕ → PiecePriority
claimed n lo prio fs fe j =
    if (leb lo j && ltb j (lo + n)) && (leb fs j && leb j fe) then prio else none

raise-claimed :
    (lo : ℕ) (prio : PiecePriority) (fs fe : ℕ) (d : Desired) (j : ℕ)
    → (if leb fs lo && leb lo fe then raise lo prio d else d) j
      ≡ higher (d j) (claimed 1 lo prio fs fe j)
raise-claimed lo prio fs fe d j = ground arith

claimed-suc :
    (n lo : ℕ) (prio : PiecePriority) (fs fe j : ℕ)
    → higher (claimed 1 lo prio fs fe j) (claimed n (lo + 1) prio fs fe j)
      ≡ claimed (suc n) lo prio fs fe j
claimed-suc n lo prio fs fe j = ground arith

raise_range-higher :
    (n lo : ℕ) (prio : PiecePriority) (fs fe : ℕ) (d : Desired) (j : ℕ)
    → raise_range n lo prio fs fe d j ≡ higher (d j) (claimed n lo prio fs fe j)
unfolding raise_range
raise_range-higher zero lo prio fs fe d j = ground arith
raise_range-higher (suc n) lo prio fs fe d j =
    raise_range-higher n (lo + 1) prio fs fe _ j
    ∙ rw (raise-claimed lo prio fs fe d j)
        (higher_assoc (d j) _ _ ∙ ap (higher (d j)) (claimed-suc n lo prio fs fe j))

-- What one reader asks for, whatever others do.
unfoldable pub claim : Geometry → ℕ → ℕ → Reader → Desired
claim g fs fe r = visit g fs fe r (λ _. none)

higher_none : (a : PiecePriority) → a ≡ higher a none
higher_none a = ground arith

none-higher : (a : PiecePriority) → higher none a ≡ a
none-higher a = ground arith

-- A function that merges by the maximum with a fixed claim merges with what it makes of nothing.
abbrev Merges : (Desired → Desired) → Type 0
Merges f = (d : Desired) (j : ℕ) → f d j ≡ higher (d j) (f (λ _. none) j)

raise_range-Merges :
    (n lo : ℕ) (prio : PiecePriority) (fs fe : ℕ) → Merges (raise_range n lo prio fs fe)
raise_range-Merges n lo prio fs fe d j =
    raise_range-higher n lo prio fs fe d j
    ∙ ap (higher (d j)) (sym (raise_range-higher n lo prio fs fe (λ _. none) j ∙ none-higher _))

compose-Merges : (f h : Desired → Desired) → Merges f → Merges h → Merges (λ d. f (h d))
compose-Merges f h mf mh d j =
    mf (h d) j
    ∙ ap (λ x. higher x (f (λ _. none) j)) (mh d j)
    ∙ higher_assoc (d j) _ _
    ∙ ap (higher (d j)) (sym (mf (h (λ _. none)) j))

boost-Merges : (pol : ClassPolicy) (piece_len fs fe : ℕ) → Merges (boost pol piece_len fs fe)
unfolding boost
boost-Merges pol piece_len fs fe d j = elim (Bool-cases pol.head_foot_boost) [
  | inl e ↦ rw e (
      compose-Merges _ (raise_range 2 fs high fs fe)
        (raise_range-Merges _ (suc fe - tail_pieces pol piece_len) high fs fe)
        (raise_range-Merges 2 fs high fs fe) d j)
  | inr e ↦ rw e (higher_none (d j))
]

visit-Merges : (g : Geometry) (fs fe : ℕ) (r : Reader) → Merges (visit g fs fe r)
unfolding visit
visit-Merges g fs fe r d j = elim (Bool-cases r.closed) [
  | inl e ↦ rw e (higher_none (d j))
  | inr e ↦ rw e (
      compose-Merges (boost pol g.piece_len fs fe) _ (boost-Merges pol g.piece_len fs fe)
        (compose-Merges
          (raise_range (ahead_pieces_for pol g.piece_len) (curr_piece g r + 1) pol.ahead_prio fs fe)
          (raise_range 1 (curr_piece g r) pol.cur_prio fs fe)
          (raise_range-Merges _ _ pol.ahead_prio fs fe) (raise_range-Merges 1 _ pol.cur_prio fs fe))
        d j)
]
  where
    pol : ClassPolicy
    pol = policy r.class

-- Each reader's claim is merged by the maximum.
pub visit-higher :
    (g : Geometry) (fs fe : ℕ) (r : Reader) (d : Desired) (j : ℕ)
    → visit g fs fe r d j ≡ higher (d j) (claim g fs fe r j)
unfolding claim
visit-higher g fs fe r d j = visit-Merges g fs fe r d j

higher_swap : (a b c : PiecePriority) → higher (higher a b) c ≡ higher (higher a c) b
higher_swap a b c = higher_assoc a b c ∙ ap (higher a) (higher_comm b c) ∙ sym (higher_assoc a c b)

visit_swap :
    (g : Geometry) (fs fe : ℕ) (r s : Reader) (d : Desired)
    → visit g fs fe r (visit g fs fe s d) ≡ visit g fs fe s (visit g fs fe r d)
visit_swap g fs fe r s d = fun_ext (λ j.
    rw
      (
        visit-higher g fs fe r (visit g fs fe s d) j,
        visit-higher g fs fe s d j,
        visit-higher g fs fe s (visit g fs fe r d) j,
        visit-higher g fs fe r d j,
      )
      (higher_swap (d j) _ _))

desired-permᴰ :
    (g : Geometry) (fs fe : ℕ) {rs ss : List Reader} (d : Desired)
    → Permᴰ rs ss
    → desired g fs fe rs d ≡ desired g fs fe ss d
unfolding desired
desired-permᴰ g fs fe d Permᴰ.nil = refl
desired-permᴰ g fs fe d (Permᴰ.cons {a = a} {b = b} e p) =
    desired-permᴰ g fs fe (visit g fs fe a d) p ∙ rw e
desired-permᴰ g fs fe d (Permᴰ.swap {a = a} {b = b} {l = l} e f) =
    ap (desired g fs fe l) (visit_swap g fs fe b a d) ∙ rw (e, f)
desired-permᴰ g fs fe d (Permᴰ.trans p q) = desired-permᴰ g fs fe d p ∙ desired-permᴰ g fs fe d q

-- The merged priorities do not depend on the order in which the map of readers is visited.
pub desired-perm :
    (g : Geometry) (fs fe : ℕ) {rs ss : List Reader} (j : ℕ)
    → Perm rs ss
    → desired g fs fe rs (λ _. none) j ≡ desired g fs fe ss (λ _. none) j
desired-perm g fs fe j p =
    ∥∥₁_elim p (PiecePriority-set _ _) (λ q. ap (λ f. f j) (desired-permᴰ g fs fe (λ _. none) q))

rank_le_higher : (a b : PiecePriority) → (rank a ≤ rank (higher a b)) × (rank b ≤ rank (higher a b))
rank_le_higher a b = ground arith

desired-grows :
    (g : Geometry) (fs fe : ℕ) (rs : List Reader) (d : Desired) (j : ℕ)
    → rank (d j) ≤ rank (desired g fs fe rs d j)
unfolding desired
desired-grows g fs fe [] d j = omega arith
desired-grows g fs fe (r ∷ rs) d j =
    let step : rank (d j) ≤ rank (visit g fs fe r d j) =
      rw (visit-higher g fs fe r d j) (rank_le_higher (d j) (claim g fs fe r j)).0 in
    omega (arith, desired-grows g fs fe rs (visit g fs fe r d) j)

-- A piece is asked for at least as urgently as any reader asks for it: no other reader can lower
-- what a player has claimed.
pub claim-le-desired :
    (g : Geometry) (fs fe : ℕ) (r : Reader) (rs : List Reader) (d : Desired) (j : ℕ)
    → Member r rs
    → rank (claim g fs fe r j) ≤ rank (desired g fs fe rs d j)
unfolding desired
claim-le-desired g fs fe r [] d j m = absurd m
claim-le-desired g fs fe r (s ∷ rs) d j (inl e) =
    let step : rank (claim g fs fe s j) ≤ rank (visit g fs fe s d j) =
      rw (visit-higher g fs fe s d j) (rank_le_higher (d j) (claim g fs fe s j)).1 in
    rw e (omega (arith, desired-grows g fs fe rs (visit g fs fe s d) j))
claim-le-desired g fs fe r (s ∷ rs) d j (inr m) =
    claim-le-desired g fs fe r rs (visit g fs fe s d) j m

higher-cases : (a b : PiecePriority) → (higher a b ≡ a) ⊎ (higher a b ≡ b)
higher-cases a b = ground arith

-- A piece's merged priority is what one of the readers asks for, or the one it had before: it is
-- never asked for more urgently than some reader needs it.
pub desired-attained :
    (g : Geometry) (fs fe : ℕ) (rs : List Reader) (d : Desired) (j : ℕ)
    → (desired g fs fe rs d j ≡ d j)
      ⊎ ((r : Reader) × Member r rs × (desired g fs fe rs d j ≡ claim g fs fe r j))
unfolding desired
desired-attained g fs fe [] d j = inl refl
desired-attained g fs fe (s ∷ rs) d j = elim (desired-attained g fs fe rs (visit g fs fe s d) j) [
  | inl e ↦ elim (higher-cases (d j) (claim g fs fe s j)) [
    | inl f ↦ inl (e ∙ visit-higher g fs fe s d j ∙ f)
    | inr f ↦ inr (s, inl refl, e ∙ visit-higher g fs fe s d j ∙ f)
  ]
  | inr (r, m, e) ↦ inr (r, inr m, e)
]

-- The piece at an open reader's position is claimed at least at its class's priority.
pub claim_current :
    (g : Geometry) (fs fe : ℕ) (r : Reader)
    → r.closed ≡ false
    → fs ≤ curr_piece g r
    → curr_piece g r ≤ fe
    → rank (policy r.class).cur_prio ≤ rank (claim g fs fe r (curr_piece g r))
unfolding claim visit
claim_current g fs fe r o lo hi =
    let j = curr_piece g r in
    let pol = policy r.class in
    let d₁ = raise_range 1 j pol.cur_prio fs fe (λ _. none) in
    let d₂ = raise_range (ahead_pieces_for pol g.piece_len) (j + 1) pol.ahead_prio fs fe d₁ in
    let e₁ : d₁ j ≡ pol.cur_prio =
      raise_range-higher 1 j pol.cur_prio fs fe (λ _. none) j ∙ ground arith in
    let e₂ =
      raise_range-Merges (ahead_pieces_for pol g.piece_len) (j + 1) pol.ahead_prio fs fe d₁ j in
    let e₃ = boost-Merges pol g.piece_len fs fe d₂ j in
    rw o (
      rw e₃ (
        rw e₂ (
          rw e₁ (
            omega (
              arith,
              rank_le_higher pol.cur_prio,
              rank_le_higher (
                  higher pol.cur_prio (
                    raise_range (ahead_pieces_for pol g.piece_len) (j + 1) pol.ahead_prio fs fe
                      (λ _. none) j)),
            )))))
