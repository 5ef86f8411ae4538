-- ===== src/Storage/Reader/Worlds.antt =====
-- What the parts of a read keep of a cache and its reader.
use torrent_go.Prelude.{ℕ, ◌≡◌, refl, ◌∙◌, true, leb, if_both, some, List, [], ◌∷◌, length}
use torrent_go.Storage.MemPiece.{has_range}
use torrent_go.Storage.MemPiece.Chunk.{Downloads}
use torrent_go.Storage.ReadClass.{PiecePriority}
use torrent_go.Storage.Window.{Reader, Geometry}
use torrent_go.Storage.Cache.{Cache, get_or_create}
use torrent_go.Storage.Piece.{hydrate_if_needed}
use torrent_go.Storage.Reader.{
  World, Wait, Round, Span, Waited, ready, stopped, waiting, budget, Woken, notified, piece_done,
  close_signal, context_done, timer, after_select, wait, Fetched, same_piece, turn_to, fetch,
  with_reader,
}
use torrent_go.Storage.Reader.Slices.{piece_bytes}
use torrent_go.Storage.Reader.Shared.{Sound, get_or_create-SoundAt, hydrate-SoundAt}

module _ (g : Geometry) (file : List ℕ) (start : ℕ) where
  -- A sound cache, and a reader of the file that starts at `start`.
  pub record SoundWorld (w : World) : Type 0 where
    pub sound : Sound g file w.cache
    pub offset : w.reader.file_offset ≡ start

  abbrev pub Keeps : (World → World) → Type 0
  Keeps f = (w : World) → SoundWorld w → SoundWorld (f w)

  abbrev pub WaitsKeep : List Wait → Type 0
  WaitsKeep [] = Unit {0}
  WaitsKeep (x ∷ xs) = (Keeps x.before × Keeps x.during) × WaitsKeep xs

  -- The other goroutines keep the cache sound.
  abbrev pub RoundsKeep : List Round → Type 0
  RoundsKeep [] = Unit {0}
  RoundsKeep (r ∷ rs) = (Keeps r.before × WaitsKeep r.waits) × RoundsKeep rs

  pub with_cache :
      (w : World) (c : Cache) → Sound g file c → SoundWorld w → SoundWorld (record w { cache = c })
  with_cache w c s k = record { sound = s; offset = k.offset }

  pub moved :
      (w : World) (r : Reader)
      → r.file_offset ≡ w.reader.file_offset
      → SoundWorld w
      → SoundWorld (with_reader w r)
  moved w r e k = record {
    sound = record { shape = k.sound.shape; genuine = k.sound.genuine; on_disk = k.sound.on_disk };
    offset = e ∙ k.offset;
  }

  -- A wait leaves the world sound, and one that ends well ends with a piece that has the range.
  abbrev pub WaitedFor : Span → Waited → Type 0
  WaitedFor s (ready w mp) =
      SoundWorld w × Downloads (piece_bytes g file s.idx) mp × (has_range mp s.off s.len ≡ true)
  WaitedFor s (stopped w e) = SoundWorld w
  WaitedFor s (waiting w) = SoundWorld w

  select-WaitedFor :
      (s : Span) (x : Woken) (w : World) (rest : Waited)
      → SoundWorld w
      → WaitedFor s rest
      → WaitedFor s (after_select x w rest)
  select-WaitedFor s notified w rest k₀ h = if_both (WaitedFor s) w.reader.closed (λ k. k₀) (λ k. h)
  select-WaitedFor s piece_done w rest k₀ h =
      if_both (WaitedFor s) w.reader.closed (λ k. k₀) (λ k. h)
  select-WaitedFor s close_signal w rest k₀ h = k₀
  select-WaitedFor s context_done w rest k₀ h = k₀
  select-WaitedFor s timer w rest k₀ h = k₀

  pub wait-WaitedFor :
      (s : Span) (xs : List Wait) (w : World)
      → s.size ≡ length (piece_bytes g file s.idx)
      → WaitsKeep xs
      → SoundWorld w
      → WaitedFor s (wait s xs w)
  unfolding wait
  wait-WaitedFor s [] w z k h = h
  wait-WaitedFor s (x ∷ xs) w z ((kb, kd), k) h =
      let w₀ = x.before w in
      let h₀ = kb w h in
      let got = get_or_create w₀.cache x.now s.idx s.size in
      let (sound, d) = get_or_create-SoundAt g file w₀.cache x.now s.idx s.size z h₀.sound in
      let w₁ = record w₀ { cache = got.0 } in
      let h₁ = with_cache w₀ got.0 sound h₀ in
      if_both (WaitedFor s) (has_range got.1 s.off s.len) (λ r. (h₁, d, r))
        (λ r.
          if_both (WaitedFor s) (leb (budget w₁.reader x.now w₁.reader.wait_deadline) 0) (λ b. h₁)
            (λ b.
              select-WaitedFor s x.woken (x.during w₁) (wait s xs (x.during w₁)) (kd w₁ h₁)
                (wait-WaitedFor s xs (x.during w₁) z k (kd w₁ h₁))))

  turn_to-SoundWorld : (w : World) (idx : ℕ) → SoundWorld w → SoundWorld (turn_to w idx).0
  turn_to-SoundWorld w idx h =
      if_both (λ (t : World × List (ℕ × PiecePriority)). SoundWorld t.0)
        (same_piece w.reader.last_piece_idx idx) (λ e. h)
        (λ e. moved w (record w.reader { last_piece_idx = some idx }) refl h)

  pub fetch-SoundWorld :
      (r : Round) (s : Span) (w : World)
      → s.size ≡ length (piece_bytes g file s.idx)
      → SoundWorld w
      → SoundWorld (fetch r s w).world
  unfolding fetch
  fetch-SoundWorld r s w z h =
      let got = get_or_create w.cache r.now s.idx s.size in
      let (c, d) = get_or_create-SoundAt g file w.cache r.now s.idx s.size z h.sound in
      let f = hydrate_if_needed r.ok got.0 r.now s.idx got.1 s.size in
      let (c', d') = hydrate-SoundAt g file r.ok got.0 r.now s.idx got.1 s.size z c d in
      let h₁ = with_cache w f.cache c' h in
      if_both (λ (x : Fetched). SoundWorld x.world) w.reader.closed (λ k. h₁)
        (λ k. turn_to-SoundWorld (record w { cache = f.cache }) s.idx h₁)
