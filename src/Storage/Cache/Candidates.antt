-- ===== src/Storage/Cache/Candidates.antt =====
-- The candidates of an eviction, sorted by last access: the same entries, oldest first.
use torrent_go.Prelude.{
  ℕ, ◌≤◌, ◌≡◌, sym, ◌≢◌, Bool, true, inl, inr, if_both, List, [], ◌∷◌, arith, leb,
}
use torrent_go.Prelude.Assoc.{Absent, Distinct, In}
use torrent_go.Storage.MemPiece.{MemPiece}
use torrent_go.Storage.Cache.{evictable, candidates, insert_by_access, sort_by_access}

abbrev pub Entry : Type 0
Entry = ℕ × MemPiece

module _ (safe : ℕ → Bool) where
  pub candidates-In :
      (e : Entry) (es : List Entry) → In e es → evictable safe e ≡ true → In e (candidates safe es)
  unfolding candidates
  candidates-In e [] i h = i
  candidates-In e (f ∷ es) i h = ground (arith, candidates-In e es)

  pub In-candidates :
      (e : Entry) (es : List Entry)
      → In e (candidates safe es)
      → In e es × (evictable safe e ≡ true)
  unfolding candidates
  In-candidates e [] i = absurd i
  In-candidates e (f ∷ es) i = ground (arith, In-candidates e es)

  candidates-Absent : (k : ℕ) (es : List Entry) → Absent k es → Absent k (candidates safe es)
  unfolding candidates
  candidates-Absent k [] a = a
  candidates-Absent k (f ∷ es) a = ground (arith, candidates-Absent k es a.1)

  pub candidates-Distinct : (es : List Entry) → Distinct es → Distinct (candidates safe es)
  unfolding candidates
  candidates-Distinct [] d = d
  candidates-Distinct (f ∷ es) d =
      ground (arith, candidates-Distinct es d.1, candidates-Absent f.0 es d.0)

-- Oldest first.
abbrev pub AllAtLeast : ℕ → List Entry → Type 0
AllAtLeast t [] = Unit {0}
AllAtLeast t (e ∷ es) = (t ≤ e.1.accessed) × AllAtLeast t es

abbrev pub IsSorted : List Entry → Type 0
IsSorted [] = Unit {0}
IsSorted (e ∷ es) = AllAtLeast e.1.accessed es × IsSorted es

AllAtLeast-le : (s t : ℕ) (es : List Entry) → s ≤ t → AllAtLeast t es → AllAtLeast s es
AllAtLeast-le s t [] h a = a
AllAtLeast-le s t (e ∷ es) h a = (omega arith, AllAtLeast-le s t es h a.1)

pub AllAtLeast-In :
    (t : ℕ) (e : Entry) (es : List Entry) → AllAtLeast t es → In e es → t ≤ e.1.accessed
AllAtLeast-In t e [] a i = absurd i
AllAtLeast-In t e (f ∷ es) a (inl p) = rw p a.0
AllAtLeast-In t e (f ∷ es) a (inr i) = AllAtLeast-In t e es a.1 i

insert-AllAtLeast :
    (t : ℕ) (e : Entry) (es : List Entry)
    → t ≤ e.1.accessed
    → AllAtLeast t es
    → AllAtLeast t (insert_by_access e es)
unfolding insert_by_access
insert-AllAtLeast t e [] h a = (h, tt)
insert-AllAtLeast t e (f ∷ es) h a = ground (arith, insert-AllAtLeast t e es h a.1)

insert-IsSorted : (e : Entry) (es : List Entry) → IsSorted es → IsSorted (insert_by_access e es)
unfolding insert_by_access
insert-IsSorted e [] s = (tt, tt)
insert-IsSorted e (f ∷ es) s =
    if_both IsSorted (leb e.1.accessed f.1.accessed)
      (λ h.
        let le : e.1.accessed ≤ f.1.accessed = ground arith in
        ((le, AllAtLeast-le e.1.accessed f.1.accessed es le s.0), s))
      (λ h. (insert-AllAtLeast f.1.accessed e es (ground arith) s.0, insert-IsSorted e es s.1))

pub sort-IsSorted : (es : List Entry) → IsSorted (sort_by_access es)
unfolding sort_by_access
sort-IsSorted [] = tt
sort-IsSorted (e ∷ es) = insert-IsSorted e (sort_by_access es) (sort-IsSorted es)

In-insert : (x e : Entry) (es : List Entry) → In x (insert_by_access e es) → In x (e ∷ es)
unfolding insert_by_access
In-insert x e [] i = i
In-insert x e (f ∷ es) i = ground (arith, In-insert x e es)

insert-In : (x e : Entry) (es : List Entry) → In x (e ∷ es) → In x (insert_by_access e es)
unfolding insert_by_access
insert-In x e [] i = i
insert-In x e (f ∷ es) i = ground (arith, insert-In x e es)

pub In-sort : (x : Entry) (es : List Entry) → In x (sort_by_access es) → In x es
unfolding sort_by_access
In-sort x [] i = i
In-sort x (e ∷ es) i = ground (arith, In-insert x e (sort_by_access es) i, In-sort x es)

pub sort-In : (x : Entry) (es : List Entry) → In x es → In x (sort_by_access es)
unfolding sort_by_access
sort-In x [] i = i
sort-In x (e ∷ es) (inl p) = insert-In x e (sort_by_access es) (inl p)
sort-In x (e ∷ es) (inr i) = insert-In x e (sort_by_access es) (inr (sort-In x es i))

insert-Absent :
    (k : ℕ) (e : Entry) (es : List Entry) → e.0 ≢ k → Absent k es → Absent k (insert_by_access e es)
unfolding insert_by_access
insert-Absent k e [] n a = (n, tt)
insert-Absent k e (f ∷ es) n a = ground (arith, insert-Absent k e es n a.1)

insert-Distinct :
    (e : Entry) (es : List Entry) → Absent e.0 es → Distinct es → Distinct (insert_by_access e es)
unfolding insert_by_access
insert-Distinct e [] a d = (tt, tt)
insert-Distinct e (f ∷ es) a d =
    ground (arith, insert-Distinct e es a.1 d.1, insert-Absent f.0 e es (λ p. a.0 (sym p)) d.0)

sort-Absent : (k : ℕ) (es : List Entry) → Absent k es → Absent k (sort_by_access es)
unfolding sort_by_access
sort-Absent k [] a = a
sort-Absent k (e ∷ es) a = insert-Absent k e (sort_by_access es) a.0 (sort-Absent k es a.1)

pub sort-Distinct : (es : List Entry) → Distinct es → Distinct (sort_by_access es)
unfolding sort_by_access
sort-Distinct [] d = d
sort-Distinct (e ∷ es) d =
    insert-Distinct e (sort_by_access es) (sort-Absent e.0 es d.0) (sort-Distinct es d.1)
