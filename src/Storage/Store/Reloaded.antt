-- ===== src/Storage/Store/Reloaded.antt =====
-- What a reload from disk leaves in its cache and in the store, and that the eviction it sets off can
-- spare the reloaded piece.
use mathlib.Core.Path.{subst}
use torrent_go.Prelude.{
  ℕ, ◌+◌, ◌≤◌, ◌≡◌, refl, sym, ap, ◌∙◌, true, false, not, ◌||◌, ltb, ◌==◌, if_both, if_true,
  if_false, inl, inr, ◌⊎◌, Bool, leb, Option, none, some, List, length, arith,
}
use torrent_go.Prelude.Assoc.{
  lookup, insert, total, total-insert, lookup-insert, insert-all, insert-Distinct,
}
use torrent_go.Prelude.Int.{pos, ◌+ℤ◌, ◌≤ℤ◌}
use torrent_go.Storage.MemPiece.{MemPiece, load_complete, has_data}
use torrent_go.Storage.Disk.{DiskBacking, DiskError, has, read_piece}
use torrent_go.Storage.Cache.{Cache, get_or_create, found_or_new}
use torrent_go.Storage.Cache.{update_filled, protected}
use torrent_go.Storage.Cache.Accounting.{held}
use torrent_go.Storage.Piece.{put_back, Hydrated, hydrate_from, load_read, is_ok}
use torrent_go.Storage.Piece.Parts.{update_filled_open, pos_add}
use torrent_go.Storage.Store.{Store, evict_after_complete, evict_global_if_needed, fits}
use torrent_go.Storage.Store.Balance.{Good, IsExact}
use torrent_go.Storage.Store.Evict.{evict_global-spares}
use torrent_go.Storage.Store.EvictLoop.{piece_of, piece_at, guarded_by, guarded}
use torrent_go.Storage.Store.PieceRead.{take_in, reloaded, piece_now, pointed}

-- What a reload leaves alone.
pub record Stays (c d : Cache) : Type 0 where
  pub same_store : d.has_store ≡ c.has_store
  pub same_protected : protected d ≡ protected c

pub created-Stays : (c : Cache) (now idx size : ℕ) → Stays c (get_or_create c now idx size).0
unfolding get_or_create
created-Stays c now idx size =
    if_both (λ (x : Cache × MemPiece). Stays c x.0) c.closed
      (λ h. record { same_store = refl; same_protected = refl }) (λ h. from (lookup idx c.pieces))
  where
    from : (o : Option MemPiece) → Stays c (found_or_new o c now idx size).0
    from none = record { same_store = refl; same_protected = refl }
    from (some mp) = record { same_store = refl; same_protected = refl }

-- A reload leaves the piece in the map of an open cache.
pub record IsReloaded (c : Cache) (idx size : ℕ) (h : Hydrated) : Type 0 where
  pub here : lookup idx h.cache.pieces ≡ some h.piece
  pub stays : Stays c h.cache
  pub few : h.loaded ≤ size

unloaded-IsReloaded :
    (c : Cache) (idx size : ℕ) (mp : MemPiece)
    → lookup idx c.pieces ≡ some mp
    → IsReloaded c idx size (record { cache = c; piece = mp; loaded = 0 })
unloaded-IsReloaded c idx size mp e = record {
  here = e;
  stays = record { same_store = refl; same_protected = refl };
  few = omega arith;
}

load_complete-few :
    (mp : MemPiece) (now : ℕ) (src : List ℕ) → (load_complete mp now src).1 ≤ length src
unfolding load_complete
load_complete-few mp now src = ground arith

load_read-IsReloaded :
    (got : List ℕ × Option DiskError) (c : Cache) (now idx : ℕ) (mp : MemPiece) (size : ℕ)
    → c.closed ≡ false
    → lookup idx c.pieces ≡ some mp
    → IsReloaded c idx size (load_read got c now idx mp size)
load_read-IsReloaded got c now idx mp size o e =
    let ld = load_complete mp now got.0 in
    let there : Cache = record c { pieces = insert idx ld.0 c.pieces } in
    let put : put_back c idx ld.0 ≡ there = if_false c.closed c there o in
    let found : lookup idx there.pieces ≡ some ld.0 =
      lookup-insert idx idx ld.0 c.pieces ∙ ground arith in
    if_both (IsReloaded c idx size) (not (is_ok got.1) || not (length got.0 == size))
      (λ k. unloaded-IsReloaded c idx size mp e)
      (λ k.
        let full : length got.0 ≡ size = ground arith in
        let n : ld.1 ≤ size = omega (arith, load_complete-few mp now got.0, full) in
        if_both
          (λ (x : Cache). IsReloaded c idx size (record { cache = x; piece = ld.0; loaded = ld.1 }))
          (ltb 0 ld.1)
          (λ q.
            let raised : (update_filled (put_back c idx ld.0) ld.1).0
                ≡ record there { filled = there.filled +ℤ pos ld.1 } =
              ap (λ (x : Cache). (update_filled x ld.1).0) put
              ∙ ap (λ (z : Cache × ℕ). z.0) (update_filled_open there ld.1 o) in
            subst
              (λ (x : Cache).
                IsReloaded c idx size (record { cache = x; piece = ld.0; loaded = ld.1 }))
              (sym raised)
              (record {
                here = found;
                stays = record { same_store = refl; same_protected = refl };
                few = n;
              }))
          (λ q.
            subst
              (λ (x : Cache).
                IsReloaded c idx size (record { cache = x; piece = ld.0; loaded = ld.1 }))
              (sym put)
              (record {
                here = found;
                stays = record { same_store = refl; same_protected = refl };
                few = n;
              })))

pub hydrate_from-IsReloaded :
    (o : Option DiskBacking) (ok : Bool) (c : Cache) (now idx : ℕ) (mp : MemPiece) (size : ℕ)
    → c.closed ≡ false
    → lookup idx c.pieces ≡ some mp
    → IsReloaded c idx size (hydrate_from o ok c now idx mp size)
hydrate_from-IsReloaded none ok c now idx mp size k e = unloaded-IsReloaded c idx size mp e
hydrate_from-IsReloaded (some d) ok c now idx mp size k e =
    if_both (IsReloaded c idx size) (has_data mp || not (has d idx))
      (λ q. unloaded-IsReloaded c idx size mp e)
      (λ q. load_read-IsReloaded (read_piece ok d idx size) c now idx mp size k e)

-- A store that takes a reload in stays exact.
pub take_in-IsExact :
    (s : Store) (hash : ℕ) (c : Cache) (h : Hydrated)
    → lookup hash s.caches ≡ some c
    → IsExact s
    → Good h.cache
    → held h.cache ≡ held c + h.loaded
    → IsExact (take_in s hash h)
take_in-IsExact s hash c h l x good sum =
    let grown : total held s.caches + h.loaded ≡ total held (insert hash h.cache s.caches) =
      let moved = rw l at (total-insert held hash h.cache s.caches) in omega (arith, moved, sum) in
    if_both IsExact h.cache.has_store
      (λ k. record {
        exact = ap (λ z. z +ℤ pos h.loaded) x.exact ∙ pos_add _ h.loaded _ grown;
        caches_good = insert-all Good hash h.cache s.caches good x.caches_good;
        distinct = insert-Distinct hash h.cache s.caches x.distinct;
      })
      (λ k. absurd (cc (k, good.1)))

-- The reloaded piece outlives the eviction that the reload sets off, if a reader protects it or the
-- budget has room for it.
module _ (s : Store) (hash idx : ℕ) (h : Hydrated) (x : IsExact (take_in s hash h))
    (store : h.cache.has_store ≡ true) (here : lookup idx h.cache.pieces ≡ some h.piece) where
  taken_in : take_in s hash h ≡ record s {
    caches = insert hash h.cache s.caches;
    global_filled = s.global_filled +ℤ pos h.loaded;
  }
  taken_in = if_true h.cache.has_store _ _ store

  taken_in-lookup : lookup hash (take_in s hash h).caches ≡ some h.cache
  taken_in-lookup =
      ap (λ (t : Store). lookup hash t.caches) taken_in
      ∙ lookup-insert hash hash h.cache s.caches
      ∙ ground arith

  taken_in-piece_at : piece_at (take_in s hash h) hash idx ≡ some h.piece
  taken_in-piece_at = ap (λ o. piece_of o idx) taken_in-lookup ∙ here

  evicts : evict_after_complete (take_in s hash h) hash ≡ evict_global_if_needed (take_in s hash h)
  unfolding evict_after_complete
  evicts = rw taken_in-lookup (if_true h.cache.has_store _ _ store)

  survives :
      (protected h.cache idx ≡ true) ⊎ (s.global_filled +ℤ pos h.loaded ≤ℤ pos s.global_capacity)
      → piece_at (evict_global_if_needed (take_in s hash h)) hash idx ≡ some h.piece
  unfolding evict_global_if_needed
  survives (inl p) =
      let safe : guarded (take_in s hash h) hash idx ≡ true =
        ap (λ o. guarded_by o idx) taken_in-lookup ∙ p in
      evict_global-spares (take_in s hash h) hash idx h.piece x (inl safe) taken_in-piece_at
  survives (inr r) =
      let t : Store = record s {
        caches = insert hash h.cache s.caches;
        global_filled = s.global_filled +ℤ pos h.loaded;
      } in
      let room : fits t ≡ true = ground arith in
      let fit : fits (take_in s hash h) ≡ true = ap fits taken_in ∙ room in
      if_both (λ (u : Store). piece_at u hash idx ≡ some h.piece)
        (leb (take_in s hash h).global_capacity 0 || fits (take_in s hash h))
        (λ q. taken_in-piece_at) (λ q. absurd (ground (arith, fit)))

  pub reloaded-piece_at :
      (protected h.cache idx ≡ true) ⊎ (s.global_filled +ℤ pos h.loaded ≤ℤ pos s.global_capacity)
      → piece_at (reloaded s hash h) hash idx ≡ some h.piece
  reloaded-piece_at p =
      if_both (λ (t : Store). piece_at t hash idx ≡ some h.piece) (ltb 0 h.loaded)
        (λ q. subst (λ (t : Store). piece_at t hash idx ≡ some h.piece) (sym evicts) (survives p))
        (λ q. taken_in-piece_at)

pub still_there :
    (o : Option Cache) (idx : ℕ) (mp : MemPiece)
    → piece_of o idx ≡ some mp
    → piece_now o idx mp ≡ mp
still_there none idx mp e = cc
still_there (some c) idx mp e =
    if_both (λ (m : MemPiece). m ≡ mp) c.closed (λ k. refl)
      (λ k. ap (λ p. pointed p mp) e ∙ if_true (mp.id == mp.id) mp _ (ground arith))
