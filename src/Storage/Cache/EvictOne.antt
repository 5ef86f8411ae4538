-- ===== src/Storage/Cache/EvictOne.antt =====
-- One piece chosen by the global pass (`evictPiece`), checked again under the cache's lock.
use torrent_go.Prelude.{ℕ, ◌≡◌, ap, ◌∙◌, true, false, if_both, ℕ_discrete, ◌⊎◌, none, some, arith}
use torrent_go.Prelude.Assoc.{lookup, Distinct}
use torrent_go.Storage.MemPiece.{MemPiece, is_complete}
use torrent_go.Storage.Cache.{Cache, protected, evict_piece, still_evictable}
use torrent_go.Storage.Cache.Accounting.{IsBalanced, evict_piece-Frees}
use torrent_go.Storage.Cache.Evict.{drop_piece-lookup}

pub evict_piece-subset :
    (c : Cache) (idx k : ℕ) (mp m : MemPiece)
    → Distinct c.pieces
    → lookup k (evict_piece c idx mp).0.pieces ≡ some m
    → lookup k c.pieces ≡ some m
unfolding evict_piece
evict_piece-subset c idx k mp m d =
    if_both {A = Cache × ℕ} (λ r. lookup k r.0.pieces ≡ some m → lookup k c.pieces ≡ some m)
      c.closed (λ h e. e)
      (λ h.
        if_both {A = Cache × ℕ} (λ r. lookup k r.0.pieces ≡ some m → lookup k c.pieces ≡ some m)
          (still_evictable (lookup idx c.pieces) c idx mp)
          (λ q e. ground (arith, drop_piece-lookup c idx k d)) (λ q e. e))

-- A candidate that still stands is dropped.
pub evict_piece-drops :
    (c : Cache) (idx : ℕ) (mp : MemPiece)
    → IsBalanced c
    → lookup idx c.pieces ≡ some mp
    → protected c idx ≡ false
    → is_complete mp ≡ true
    → lookup idx (evict_piece c idx mp).0.pieces ≡ none
unfolding evict_piece
evict_piece-drops c idx mp b l u f =
    let still : still_evictable (lookup idx c.pieces) c idx mp ≡ true =
      rw l (rw (u, f) (ground arith)) in
    if_both {A = Cache × ℕ} (λ r. lookup idx r.0.pieces ≡ none) c.closed
      (λ h. let e : lookup idx c.pieces ≡ none = ap (lookup idx) (b.empty_closed h) in e)
      (λ h. rw still (drop_piece-lookup c idx idx b.distinct ∙ ground arith))

-- The readers' windows are those of the cache before.
pub evict_piece-protected :
    (c : Cache) (idx k : ℕ) (mp : MemPiece)
    → IsBalanced c
    → protected (evict_piece c idx mp).0 k ≡ protected c k
evict_piece-protected c idx k mp b =
    let f = evict_piece-Frees c idx mp b in rw (f.same_geometry, f.same_readers)

-- A protected or incomplete piece stays.
pub evict_piece-spares :
    (c : Cache) (idx k : ℕ) (mp m : MemPiece)
    → Distinct c.pieces
    → (protected c k ≡ true) ⊎ (is_complete m ≡ false)
    → lookup k c.pieces ≡ some m
    → lookup k (evict_piece c idx mp).0.pieces ≡ some m
unfolding evict_piece
evict_piece-spares c idx k mp m d v l =
    if_both {A = Cache × ℕ} (λ r. lookup k r.0.pieces ≡ some m) c.closed (λ h. l)
      (λ h.
        if_both {A = Cache × ℕ} (λ r. lookup k r.0.pieces ≡ some m)
          (still_evictable (lookup idx c.pieces) c idx mp)
          (λ q.
            drop_piece-lookup c idx k d
            ∙ elim (ℕ_discrete idx k) [ yes e ↦ absurd (refuses e q) | no n ↦ ground arith ])
          (λ q. l))
  where
    refuses : idx ≡ k → still_evictable (lookup idx c.pieces) c idx mp ≡ true → ⊥
    refuses e q =
        let here : lookup idx c.pieces ≡ some m = ap (λ j. lookup j c.pieces) e ∙ l in
        let same : protected c idx ≡ protected c k = ap (protected c) e in ground arith
