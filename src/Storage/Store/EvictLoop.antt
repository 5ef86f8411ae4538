-- ===== src/Storage/Store/EvictLoop.antt =====
-- The loop of the global eviction pass: what one step and what all steps do to a piece.
use torrent_go.Prelude.{
  ℕ, ◌≡◌, refl, sym, ap, ◌∙◌, ◌≢◌, Bool, true, false, ◌⊎◌, inl, inr, Option-cases, if_both, Option,
  none, some, List, [], ◌∷◌, arith, if◌then◌else◌, ◌==◌, ℕ_discrete,
}
use mathlib.Core.Path.{subst}
use torrent_go.Prelude.Assoc.{lookup, lookup-insert}
use torrent_go.Prelude.Sort.{Elem}
use torrent_go.Storage.MemPiece.{MemPiece, is_complete}
use torrent_go.Storage.Cache.{Cache, protected, evict_piece}
use torrent_go.Storage.Cache.Accounting.{IsBalanced}
use torrent_go.Storage.Cache.EvictOne.{evict_piece-subset, evict_piece-drops, evict_piece-protected}
use torrent_go.Storage.Store.{Store, Candidate, give_back, evict_at, evict_loop, fits}
use torrent_go.Storage.Store.Balance.{IsExact, evict_at-IsExact}

abbrev pub piece_of : Option Cache → ℕ → Option MemPiece
piece_of none k = none
piece_of (some c) k = lookup k c.pieces

-- The piece `k` of the torrent `h`, if it is resident.
abbrev pub piece_at : Store → ℕ → ℕ → Option MemPiece
piece_at s h k = piece_of (lookup h s.caches) k

abbrev pub guarded_by : Option Cache → ℕ → Bool
guarded_by none k = false
guarded_by (some c) k = protected c k

-- Does a reader of the torrent `h` protect its piece `k`?
abbrev pub guarded : Store → ℕ → ℕ → Bool
guarded s h k = guarded_by (lookup h s.caches) k

-- The pieces and readers after a cache has given bytes back are those of its new state.
pub give_back-lookup :
    (s : Store) (h : ℕ) (r : Cache × ℕ) (j : ℕ)
    → lookup j (give_back s h r).caches ≡ (if h == j then some r.0 else lookup j s.caches)
give_back-lookup s h r j =
    if_both (λ (t : Store). lookup j t.caches ≡ (if h == j then some r.0 else lookup j s.caches))
      (r.0).has_store (λ k. lookup-insert h j r.0 s.caches) (λ k. lookup-insert h j r.0 s.caches)

pub evict_at-lookup :
    (s : Store) (x : Candidate) (c : Cache) (j : ℕ)
    → lookup x.hash s.caches ≡ some c
    → lookup j (evict_at s x).caches
      ≡ (if x.hash == j then some (evict_piece c x.index x.piece).0 else lookup j s.caches)
unfolding evict_at
evict_at-lookup s x c j l = rw l (give_back-lookup s x.hash (evict_piece c x.index x.piece) j)

pub evict_at_missing :
    (s : Store) (x : Candidate) → lookup x.hash s.caches ≡ none → evict_at s x ≡ s
unfolding evict_at
evict_at_missing s x l = rw l

module _ (s : Store) (x : Candidate) (e : IsExact s) where
  -- What a relation of the old cache at `h` with the new one needs to hold of the whole step.
  pub evict_at-caches :
      (P : Option Cache → Option Cache → Type 0) (h : ℕ)
      → ((o : Option Cache) → P o o)
      → ((c : Cache) → IsBalanced c → P (some c) (some (evict_piece c x.index x.piece).0))
      → P (lookup h s.caches) (lookup h (evict_at s x).caches)
  evict_at-caches P h same step = elim (Option-cases (lookup x.hash s.caches)) [
    | inl l ↦ rw (evict_at_missing s x l) (same (lookup h s.caches))
    | inr (c, l) ↦ elim (ℕ_discrete x.hash h) [
      | yes q ↦
          let old : lookup h s.caches ≡ some c = ap (λ j. lookup j s.caches) (sym q) ∙ l in
          let new : lookup h (evict_at s x).caches ≡ some (evict_piece c x.index x.piece).0 =
            evict_at-lookup s x c h l ∙ ground arith in
          rw (old, new) (step c (e.caches_good x.hash c l).0)
      | no n ↦
          let new : lookup h (evict_at s x).caches ≡ lookup h s.caches =
            evict_at-lookup s x c h l ∙ ground arith in
          rw new (same (lookup h s.caches))
    ]
  ]

  pub evict_at-guarded : (h k : ℕ) → guarded (evict_at s x) h k ≡ guarded s h k
  evict_at-guarded h k =
      evict_at-caches (λ o n. guarded_by n k ≡ guarded_by o k) h (λ o. refl)
        (λ c b. evict_piece-protected c x.index k x.piece b)

  pub evict_at-subset :
      (h k : ℕ) (m : MemPiece) → piece_at (evict_at s x) h k ≡ some m → piece_at s h k ≡ some m
  evict_at-subset h k m =
      evict_at-caches (λ o n. piece_of n k ≡ some m → piece_of o k ≡ some m) h (λ o p. p)
        (λ c b. evict_piece-subset c x.index k x.piece m b.distinct)

  pub evict_at-drops :
      piece_at s x.hash x.index ≡ some x.piece
      → guarded s x.hash x.index ≡ false
      → is_complete x.piece ≡ true
      → piece_at (evict_at s x) x.hash x.index ≡ none
  evict_at-drops p u f = elim (Option-cases (lookup x.hash s.caches)) [
    | inl l ↦ absurd (ground arith)
    | inr (c, l) ↦
        let new : lookup x.hash (evict_at s x).caches ≡ some (evict_piece c x.index x.piece).0 =
          evict_at-lookup s x c x.hash l ∙ ground arith in
        rw new (
          evict_piece-drops c x.index x.piece (e.caches_good x.hash c l).0 (rw l at p) (rw l at u)
            f)
  ]

pub loop-subset :
    (xs : List Candidate) (s : Store) (h k : ℕ) (m : MemPiece)
    → IsExact s
    → piece_at (evict_loop xs s) h k ≡ some m
    → piece_at s h k ≡ some m
unfolding evict_loop
loop-subset [] s h k m e p = p
loop-subset (x ∷ xs) s h k m e p₀ =
    if_both (λ (t : Store). piece_at t h k ≡ some m → piece_at s h k ≡ some m) (fits s) (λ q p. p)
      (λ q p.
        evict_at-subset s x e h k m
          (loop-subset xs (evict_at s x) h k m (evict_at-IsExact s x e) p))
      p₀

abbrev pub Evictable : Store → Candidate → Type 0
Evictable s x = (guarded s x.hash x.index ≡ false) × (is_complete x.piece ≡ true)

pub loop-guarded :
    (xs : List Candidate) (s : Store) (h k : ℕ)
    → IsExact s
    → guarded (evict_loop xs s) h k ≡ guarded s h k
unfolding evict_loop
loop-guarded [] s h k e = refl
loop-guarded (x ∷ xs) s h k e =
    if_both (λ (t : Store). guarded t h k ≡ guarded s h k) (fits s) (λ q. refl)
      (λ q.
        loop-guarded xs (evict_at s x) h k (evict_at-IsExact s x e) ∙ evict_at-guarded s x e h k)

pub not_left :
    (s : Store) (y x : Candidate)
    → IsExact s
    → x ≡ y
    → Evictable s x
    → piece_at (evict_at s y) x.hash x.index ≢ some x.piece
not_left s y x e same v p =
    let p' : piece_at (evict_at s y) y.hash y.index ≡ some y.piece =
      subst (λ z. piece_at (evict_at s y) z.hash z.index ≡ some z.piece) same p in
    let v' : Evictable s y = subst (Evictable s) same v in
    let old = evict_at-subset s y e y.hash y.index y.piece p' in
    let gone = evict_at-drops s y e old v'.0 v'.1 in cc

pub loop-exhausts :
    (xs : List Candidate) (s : Store)
    → IsExact s
    → (fits (evict_loop xs s) ≡ true)
      ⊎ ((x : Candidate)
          → Elem x xs
          → Evictable s x
          → piece_at (evict_loop xs s) x.hash x.index ≢ some x.piece)
unfolding evict_loop
loop-exhausts [] s e = inr (λ x i v p. i)
loop-exhausts (y ∷ ys) s e =
    let t = evict_at s y in
    let et = evict_at-IsExact s y e in
    if_both
      (λ (r : Store).
        (fits r ≡ true)
        ⊎ ((x : Candidate)
            → Elem x (y ∷ ys)
            → Evictable s x
            → piece_at r x.hash x.index ≢ some x.piece))
      (fits s) (λ q. inl q)
      (λ q. elim (loop-exhausts ys t et) [
        | inl f ↦ inl f
        | inr f ↦ inr (λ x i v p. elim i [
          | inl same ↦ not_left s y x e same v (loop-subset ys t x.hash x.index x.piece et p)
          | inr j ↦ f x j (evict_at-guarded s y e x.hash x.index ∙ v.0, v.1) p
        ])
      ])
