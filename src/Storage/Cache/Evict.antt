-- ===== src/Storage/Cache/Evict.antt =====
-- What a local eviction pass (`EvictIfNeeded`) drops: only candidates, oldest first, until the cache
-- fits or none is left.
use torrent_go.Prelude.{
  ℕ, ◌≤◌, ◌≡◌, refl, sym, ap, ◌∙◌, ◌≢◌, Bool, true, false, ◌⊎◌, inl, inr, Option-cases, Bool-cases,
  if_both, none, some, List, [], ◌∷◌, arith, if◌then◌else◌, ◌==◌, ℕ_discrete,
}
use mathlib.Core.Path.{subst}
use torrent_go.Prelude.Int.{pos, leb_ℤ}
use torrent_go.Prelude.Assoc.{
  lookup, Absent, Distinct, In, lookup→In, In→lookup, Absent-In, Absent-of_not-In, lookup-erase,
  erase-Distinct,
}
use torrent_go.Storage.MemPiece.{MemPiece, is_complete}
use torrent_go.Storage.Cache.{
  Cache, protected, evictable, candidates, sort_by_access, drop_piece, clean_loop, clean_pieces,
  evict_if_needed,
}
use torrent_go.Storage.Cache.Candidates.{
  Entry, IsSorted, AllAtLeast-In, candidates-In, In-candidates, candidates-Distinct, sort-IsSorted,
  In-sort, sort-In, sort-Distinct,
}

-- Dropping a piece changes the map at its index only, and no other field but `filled`.
pub drop_piece-lookup :
    (c : Cache) (idx k : ℕ)
    → Distinct c.pieces
    → lookup k (drop_piece c idx).0.pieces ≡ (if idx == k then none else lookup k c.pieces)
unfolding drop_piece
drop_piece-lookup c idx k d = elim (Option-cases (lookup idx c.pieces)) [
  | inl e ↦ rw e (elim (ℕ_discrete idx k) [
    | yes p ↦
        let f : lookup k c.pieces ≡ none = ap (λ j. lookup j c.pieces) (sym p) ∙ e in ground arith
    | no p ↦ ground arith
  ])
  | inr (mp, e) ↦ rw e (lookup-erase idx k c.pieces d)
]

pub drop_piece-Distinct :
    (c : Cache) (idx : ℕ) → Distinct c.pieces → Distinct (drop_piece c idx).0.pieces
unfolding drop_piece
drop_piece-Distinct c idx d = elim (Option-cases (lookup idx c.pieces)) [
  | inl e ↦ rw e d
  | inr (mp, e) ↦ rw e (erase-Distinct idx c.pieces d)
]

abbrev fits : Cache → Bool
fits c = leb_ℤ c.filled (pos c.capacity)

-- The loop in steps: it stops when the cache fits, and drops the head otherwise.
abbrev After : Entry → List Entry → Cache → Cache
After e es c = (clean_loop es (drop_piece c e.0).0).0

clean_loop-step :
    (P : Cache → Type 0) (e : Entry) (es : List Entry) (c : Cache)
    → (fits c ≡ true → P c)
    → (fits c ≡ false → P (After e es c))
    → P (clean_loop (e ∷ es) c).0
unfolding clean_loop
clean_loop-step P e es c f g = if_both {A = Cache × ℕ} (λ r. P r.0) (fits c) f g

-- A piece that is no candidate stays.
clean_loop-keeps :
    (es : List Entry) (c : Cache) (k : ℕ)
    → Distinct c.pieces
    → Absent k es
    → lookup k (clean_loop es c).0.pieces ≡ lookup k c.pieces
unfolding clean_loop
clean_loop-keeps [] c k d a = refl
clean_loop-keeps (e ∷ es) c k d a =
    let c' = (drop_piece c e.0).0 in
    let ih = clean_loop-keeps es c' k (drop_piece-Distinct c e.0 d) a.1 in
    clean_loop-step (λ r. lookup k r.pieces ≡ lookup k c.pieces) e es c (λ h. refl)
      (λ h. ih ∙ drop_piece-lookup c e.0 k d ∙ ground arith)

-- What is left was there before.
clean_loop-subset :
    (es : List Entry) (c : Cache) (k : ℕ) (mp : MemPiece)
    → Distinct c.pieces
    → lookup k (clean_loop es c).0.pieces ≡ some mp
    → lookup k c.pieces ≡ some mp
unfolding clean_loop
clean_loop-subset [] c k mp d h = h
clean_loop-subset (e ∷ es) c k mp d h₀ =
    let c' = (drop_piece c e.0).0 in
    let ih = clean_loop-subset es c' k mp (drop_piece-Distinct c e.0 d) in
    clean_loop-step (λ r. lookup k r.pieces ≡ some mp → lookup k c.pieces ≡ some mp) e es c
      (λ h l. l) (λ h l. ground (arith, drop_piece-lookup c e.0 k d, ih l)) h₀

clean_loop-none :
    (es : List Entry) (c : Cache) (k : ℕ)
    → Distinct c.pieces
    → lookup k c.pieces ≡ none
    → lookup k (clean_loop es c).0.pieces ≡ none
clean_loop-none es c k d h = elim (Option-cases (lookup k (clean_loop es c).0.pieces)) [
  | inl e ↦ e
  | inr (mp, e) ↦ let old = clean_loop-subset es c k mp d e in absurd (cc)
]

drop_piece_self :
    (c : Cache) (k : ℕ) → Distinct c.pieces → lookup k (drop_piece c k).0.pieces ≡ none
drop_piece_self c k d = drop_piece-lookup c k k d ∙ ground arith

-- The loop ends because the cache fits, or has dropped every candidate.
clean_loop-exhausts :
    (es : List Entry) (c : Cache)
    → Distinct c.pieces
    → (fits (clean_loop es c).0 ≡ true)
      ⊎ ((e : Entry) → In e es → lookup e.0 (clean_loop es c).0.pieces ≡ none)
unfolding clean_loop
clean_loop-exhausts [] c d = inr (λ e i. absurd i)
clean_loop-exhausts (e ∷ es) c d =
    let c' = (drop_piece c e.0).0 in
    let d' = drop_piece-Distinct c e.0 d in
    let gone = clean_loop-none es c' e.0 d' (drop_piece_self c e.0 d) in
    let ih = clean_loop-exhausts es c' d' in
    clean_loop-step
      (λ r. (fits r ≡ true) ⊎ ((x : Entry) → In x (e ∷ es) → lookup x.0 r.pieces ≡ none)) e es c
      (λ h. inl h)
      (λ h. elim ih [
        | inl f ↦ inl f
        | inr f ↦ inr (λ x i. elim i [
          | inl p ↦ ap (λ y. lookup y.0 (After e es c).pieces) p ∙ gone
          | inr j ↦ f x j
        ])
      ])

Absent-ne : (k : ℕ) (x : Entry) (es : List Entry) → Absent k es → In x es → k ≢ x.0
Absent-ne k x es a i e = Absent-In x.0 x.1 es (subst (λ j. Absent j es) e a) i

-- What is dropped was used no later than any candidate that is left.
clean_loop-oldest :
    (es : List Entry) (c : Cache) (x y : Entry)
    → Distinct c.pieces
    → Distinct es
    → IsSorted es
    → In x es
    → lookup x.0 c.pieces ≡ some x.1
    → lookup x.0 (clean_loop es c).0.pieces ≡ none
    → In y es
    → lookup y.0 (clean_loop es c).0.pieces ≡ some y.1
    → x.1.accessed ≤ y.1.accessed
unfolding clean_loop
clean_loop-oldest [] c x y d ds s ix lx gone iy ly = absurd ix
clean_loop-oldest (e ∷ es) c x y d ds s ix lx gone iy ly =
    let c' = (drop_piece c e.0).0 in
    let d' = drop_piece-Distinct c e.0 d in
    let e_gone = clean_loop-none es c' e.0 d' (drop_piece_self c e.0 d) in
    clean_loop-step
      (λ r.
        lookup x.0 r.pieces ≡ none → lookup y.0 r.pieces ≡ some y.1 → x.1.accessed ≤ y.1.accessed)
      e es c (λ h g l. absurd (cc))
      (λ h g l. elim iy [
        | inl p ↦
            let n : lookup y.0 (After e es c).pieces ≡ none =
              ap (λ z. lookup z.0 (After e es c).pieces) p ∙ e_gone in
            absurd (cc)
        | inr jy ↦ elim ix [
          | inl p ↦ rw p (AllAtLeast-In e.1.accessed y es s.0 jy)
          | inr jx ↦
              let ne = Absent-ne e.0 x es ds.0 jx in
              let lx' : lookup x.0 c'.pieces ≡ some x.1 =
                drop_piece-lookup c e.0 x.0 d ∙ ground arith in
              clean_loop-oldest es c' x y d' ds.1 s.1 jx lx' g jy l
        ]
      ])
      gone ly

abbrev queue : Cache → List Entry
queue c = sort_by_access (candidates (protected c) c.pieces)

queue-Distinct : (c : Cache) → Distinct c.pieces → Distinct (queue c)
queue-Distinct c d = sort-Distinct _ (candidates-Distinct (protected c) c.pieces d)

-- An eviction is one run of the loop over the sorted candidates.
evict-loop :
    (P : Cache → Type 0) (c : Cache)
    → (fits c ≡ true → P c)
    → P (clean_loop (queue c) c).0
    → P (evict_if_needed c).0
unfolding evict_if_needed clean_pieces
evict-loop P c p q = if_both {A = Cache × ℕ} (λ r. P r.0) (fits c) p (λ h. q)

not_queued :
    (c : Cache) (k : ℕ) (mp : MemPiece)
    → Distinct c.pieces
    → lookup k c.pieces ≡ some mp
    → evictable (protected c) (k, mp) ≡ false
    → Absent k (queue c)
not_queued c k mp d l h = Absent-of_not-In k (queue c) (λ v i.
    let (old, ok) = In-candidates (protected c) (k, v) c.pieces (In-sort (k, v) _ i) in
    let same : v ≡ mp = ground (arith, In→lookup k v c.pieces d old) in
    let bad : evictable (protected c) (k, mp) ≡ true =
      ap (λ x. evictable (protected c) (k, x)) (sym same) ∙ ok in
    cc)

queued :
    (c : Cache) (k : ℕ) (mp : MemPiece)
    → lookup k c.pieces ≡ some mp
    → evictable (protected c) (k, mp) ≡ true
    → In (k, mp) (queue c)
queued c k mp l h =
    sort-In (k, mp) _ (candidates-In (protected c) (k, mp) c.pieces (lookup→In k mp c.pieces l) h)

-- A piece that a reader protects, or that is not complete, is never evicted.
pub evict-spares :
    (c : Cache) (k : ℕ) (mp : MemPiece)
    → Distinct c.pieces
    → lookup k c.pieces ≡ some mp
    → (protected c k ≡ true) ⊎ (is_complete mp ≡ false)
    → lookup k (evict_if_needed c).0.pieces ≡ some mp
evict-spares c k mp d l h =
    evict-loop (λ r. lookup k r.pieces ≡ some mp) c (λ h. l)
      (clean_loop-keeps (queue c) c k d (not_queued c k mp d l (ground arith)) ∙ l)

-- An eviction ends with the cache inside its capacity, or with no piece left that could be evicted.
pub evict-exhausts :
    (c : Cache)
    → Distinct c.pieces
    → (leb_ℤ (evict_if_needed c).0.filled (pos (evict_if_needed c).0.capacity) ≡ true)
      ⊎ ((k : ℕ) (mp : MemPiece)
          → lookup k (evict_if_needed c).0.pieces ≡ some mp
          → (protected c k ≡ true) ⊎ (is_complete mp ≡ false))
evict-exhausts c d =
    evict-loop
      (λ r.
        (fits r ≡ true)
        ⊎ ((k : ℕ) (mp : MemPiece)
            → lookup k r.pieces ≡ some mp
            → (protected c k ≡ true) ⊎ (is_complete mp ≡ false)))
      c (λ h. inl h)
      (elim (clean_loop-exhausts (queue c) c d) [
        | inl f ↦ inl f
        | inr all ↦ inr (λ k mp l. left k mp l all)
      ])
  where
    left :
        (k : ℕ) (mp : MemPiece)
        → lookup k (clean_loop (queue c) c).0.pieces ≡ some mp
        → ((e : Entry) → In e (queue c) → lookup e.0 (clean_loop (queue c) c).0.pieces ≡ none)
        → (protected c k ≡ true) ⊎ (is_complete mp ≡ false)
    left k mp l all = elim (Bool-cases (evictable (protected c) (k, mp))) [
      | inl h ↦
          let old = clean_loop-subset (queue c) c k mp d l in
          let gone = all (k, mp) (queued c k mp old h) in absurd (cc)
      | inr h ↦ ground arith
    ]

-- The least recently used go first: an evicted piece was accessed no later than any piece that could
-- have been evicted and was not.
pub evict-oldest :
    (c : Cache) (i j : ℕ) (mp mq : MemPiece)
    → Distinct c.pieces
    → lookup i c.pieces ≡ some mp
    → lookup i (evict_if_needed c).0.pieces ≡ none
    → lookup j (evict_if_needed c).0.pieces ≡ some mq
    → protected c j ≡ false
    → is_complete mq ≡ true
    → mp.accessed ≤ mq.accessed
evict-oldest c i j mp mq d li gone lj u f =
    evict-loop
      (λ r. lookup i r.pieces ≡ none → lookup j r.pieces ≡ some mq → mp.accessed ≤ mq.accessed) c
      (λ h g l. absurd (cc))
      (λ g l.
        let lj₀ = clean_loop-subset (queue c) c j mq d l in
        let qj = queued c j mq lj₀ (ground arith) in
        elim (Bool-cases (evictable (protected c) (i, mp))) [
          | inl h ↦
              clean_loop-oldest (queue c) c (i, mp) (j, mq) d (queue-Distinct c d) (sort-IsSorted _)
                (queued c i mp li h) li g qj l
          | inr h ↦
              let kept = clean_loop-keeps (queue c) c i d (not_queued c i mp d li h) in absurd (cc)
        ])
      gone lj
