-- ===== src/Storage/Reader/Steady.antt =====
-- A reader whose pieces are all in the cache, and what a round leaves of that.
use mathlib.Core.Path.{subst}
use torrent_go.Prelude.{
  ◌&&◌, ℕ, ◌<◌, ◌≡◌, refl, sym, ap, ◌∙◌, Bool, true, false, not, ◌||◌, ◌==◌, if◌then◌else◌, if_both,
  if_true, if_false, Bool-cases, inl, inr, Option, none, some, List, [], ◌∷◌, arith,
}
use torrent_go.Prelude.Assoc.{lookup, insert, lookup-insert}
use torrent_go.Storage.ReadClass.{PiecePriority}
use torrent_go.Storage.MemPiece.{MemPiece, read_at, has_range, has_data, is_complete}
use torrent_go.Storage.MemPiece.Chunk.{Downloads}
use torrent_go.Storage.Disk.{DiskBacking, has}
use torrent_go.Storage.Window.{Geometry}
use torrent_go.Storage.Cache.{Cache, get_or_create, found_or_new}
use torrent_go.Storage.Piece.{put_back, hydrate_if_needed, hydrate_from, Hydrated}
use torrent_go.Storage.Reader.{
  World, Wait, Round, Span, ready, wait, Fetched, same_piece, turn_to, fetch,
}
use torrent_go.Storage.Reader.Slices.{piece_bytes}
use torrent_go.Storage.Reader.Shared.{put_back-Sound}
use torrent_go.Storage.Reader.Worlds.{SoundWorld, with_cache, moved}

module _ (g : Geometry) (file : List ℕ) (start : ℕ) where
  -- The reader is open, and every piece of the torrent is in the cache and complete.
  pub record Steady (w : World) : Type 0 where
    pub sound_world : SoundWorld g file start w
    pub reader_open : w.reader.closed ≡ false
    pub cache_open : w.cache.closed ≡ false
    pub resident :
        (i : ℕ)
        → i < g.piece_count
        → (mp : MemPiece) × (lookup i w.cache.pieces ≡ some mp) × (is_complete mp ≡ true)

  abbrev pub KeepsSteady : (World → World) → Type 0
  KeepsSteady f = (w : World) → Steady w → Steady (f w)

  -- A round that looks at its piece at least once, and whose piece is not evicted.
  abbrev pub Quiet : List Wait → Bool → Type 0
  Quiet [] evicted = ⊥
  Quiet (x ∷ xs) evicted = KeepsSteady x.before × (evicted ≡ false)

  -- The other goroutines close nothing and evict nothing.
  abbrev pub AllQuiet : List Round → Type 0
  AllQuiet [] = Unit {0}
  AllQuiet (r ∷ rs) = (KeepsSteady r.before × Quiet r.waits r.evicted) × AllQuiet rs

  found :
      (w : World) (now idx size : ℕ) (mp : MemPiece)
      → Steady w
      → lookup idx w.cache.pieces ≡ some mp
      → get_or_create w.cache now idx size ≡ (w.cache, mp)
  unfolding get_or_create
  found w now idx size mp h e =
      if_false w.cache.closed _ (found_or_new (lookup idx w.cache.pieces) w.cache now idx size)
        h.cache_open
      ∙ ap (λ o. found_or_new o w.cache now idx size) e

  not_reloaded :
      (o : Option DiskBacking) (ok : Bool) (c : Cache) (now idx : ℕ) (mp : MemPiece) (size : ℕ)
      → has_data mp ≡ true
      → (hydrate_from o ok c now idx mp size).cache ≡ c
  not_reloaded none ok c now idx mp size h = refl
  not_reloaded (some d) ok c now idx mp size h =
      if_both (λ (x : Hydrated). x.cache ≡ c) (has_data mp || not (has d idx)) (λ k. refl)
        (λ k. absurd (ground arith))

  complete-has_data : (mp : MemPiece) → is_complete mp ≡ true → has_data mp ≡ true
  unfolding is_complete has_data
  complete-has_data mp h = ground arith

  pub complete-has_range :
      (mp : MemPiece) (off len : ℕ) → is_complete mp ≡ true → has_range mp off len ≡ true
  unfolding is_complete has_range
  complete-has_range mp off len h = ground arith

  read_at-is_complete :
      (mp : MemPiece) (now len off : ℕ) → is_complete (read_at mp now len off).0 ≡ is_complete mp
  unfolding is_complete read_at
  read_at-is_complete mp now len off = ground arith

  turned-Steady : (w : World) (idx : ℕ) → Steady w → Steady (turn_to w idx).0
  turned-Steady w idx h =
      if_both (λ (t : World × List (ℕ × PiecePriority)). Steady t.0)
        (same_piece w.reader.last_piece_idx idx) (λ e. h)
        (λ e. record {
          sound_world =
              moved g file start w (record w.reader { last_piece_idx = some idx }) refl
                h.sound_world;
          reader_open = h.reader_open;
          cache_open = h.cache_open;
          resident = h.resident;
        })

  pub fetched-Steady :
      (r : Round) (s : Span) (w : World)
      → s.idx < g.piece_count
      → Steady w
      → Steady (fetch r s w).world
  unfolding fetch hydrate_if_needed
  fetched-Steady r s w i h =
      let (mp, e, c) = h.resident s.idx i in
      let got = get_or_create w.cache r.now s.idx s.size in
      let reload : Cache × MemPiece → Cache =
        λ x. (hydrate_from x.0.disk (r.ok && not x.0.closed) x.0 r.now s.idx x.1 s.size).cache in
      let same : reload got ≡ w.cache =
        ap reload (found w r.now s.idx s.size mp h e)
        ∙ not_reloaded w.cache.disk (r.ok && not w.cache.closed) w.cache r.now s.idx mp s.size
            (complete-has_data mp c) in
      let kept = subst (λ k. Steady (record w { cache = k })) (sym same) h in
      if_both (λ (x : Fetched). Steady x.world) w.reader.closed (λ k. kept)
        (λ k. turned-Steady _ s.idx kept)

  -- The first look at a piece finds it.
  pub waited :
      (s : Span) (x : Wait) (xs : List Wait) (w : World) (mp : MemPiece)
      → Steady (x.before w)
      → lookup s.idx (x.before w).cache.pieces ≡ some mp
      → is_complete mp ≡ true
      → wait s (x ∷ xs) w ≡ ready (x.before w) mp
  unfolding wait
  waited s x xs w mp h e c =
      let w₀ = x.before w in
      let got = get_or_create w₀.cache x.now s.idx s.size in
      let f = found w₀ x.now s.idx s.size mp h e in
      if_true (has_range got.1 s.off s.len) (ready (record w₀ { cache = got.0 }) got.1) _ (
        ap (λ (y : Cache × MemPiece). has_range y.1 s.off s.len) f
        ∙ complete-has_range mp s.off s.len c)
      ∙ ap (λ (y : Cache × MemPiece). ready (record w₀ { cache = y.0 }) y.1) f

  -- The piece after the read, in the cache.
  pub read-Steady :
      (w : World) (idx now len off : ℕ) (mp : MemPiece)
      → Steady w
      → Downloads (piece_bytes g file idx) mp
      → is_complete mp ≡ true
      → Steady (record w { cache = put_back w.cache idx (read_at mp now len off).0 })
  read-Steady w idx now len off mp h d c =
      let m = (read_at mp now len off).0 in
      let sound =
        with_cache g file start w (put_back w.cache idx m)
          (put_back-Sound g file w.cache idx m h.sound_world.sound (Downloads.read now len off d))
          h.sound_world in
      let flat : put_back w.cache idx m ≡ record w.cache { pieces = insert idx m w.cache.pieces } =
        if_false w.cache.closed w.cache _ h.cache_open in
      record {
        sound_world = sound;
        reader_open = h.reader_open;
        cache_open = ap (λ (k : Cache). k.closed) flat ∙ h.cache_open;
        resident = λ i lt.
            let l : lookup i (put_back w.cache idx m).pieces
                ≡ (if idx == i then some m else lookup i w.cache.pieces) =
              ap (λ (k : Cache). lookup i k.pieces) flat ∙ lookup-insert idx i m w.cache.pieces in
            let (old, e, f) = h.resident i lt in
            elim (Bool-cases (idx == i)) [
              | inl q ↦
                  (m, l ∙ if_true (idx == i) (some m) _ q, read_at-is_complete mp now len off ∙ c)
              | inr q ↦ (old, l ∙ if_false (idx == i) (some m) _ q ∙ e, f)
            ];
      }
