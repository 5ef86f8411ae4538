-- ===== src/Handlers/HeaderCache/Fill.antt =====
-- The prefetch puts bytes of the file into the headers, and keeps the cache sound.
use torrent_go.Handlers.HeaderCache.{
  FileHeaders, new_reader, has_start, has_end, with_start, with_end, start_max, end_min, read_start,
  read_end, Prefetch, prefetch_start, prefetch_end, preload_headers,
}
use torrent_go.Handlers.HeaderCache.Part.{AreHeaders}
use torrent_go.Prelude.{
  ℕ, ◌+◌, ◌-◌, ◌≤◌, ◌≡◌, refl, ap, ◌∙◌, Bool, true, false, ◌&&◌, ltb, if_both, none, List, length,
  take, drop, arith,
}
use torrent_go.Storage.Cache.{Cache, register_reader, unregister_reader}
use torrent_go.Storage.ReadClass.{PiecePriority, cold_probe}
use torrent_go.Storage.Reader.{World, Round, seek, close_reader, at_pos}
use torrent_go.Storage.Reader.Bytes.{read-IsPart}
use torrent_go.Storage.Reader.Shared.{Sound}
use torrent_go.Storage.Reader.Slices.{IsLaidOut}
use torrent_go.Storage.Reader.Worlds.{SoundWorld, RoundsKeep, moved}
use torrent_go.Storage.Window.{Geometry}

module _ (g : Geometry) (file : List ℕ) (start : ℕ) where
  new_reader-SoundWorld :
      (id : ℕ) (c : Cache) (size : ℕ)
      → Sound g file c
      → SoundWorld g file start (new_reader id c start size cold_probe none)
  unfolding new_reader register_reader
  new_reader-SoundWorld id c size h = record {
    sound = record { shape = h.shape; genuine = h.genuine; on_disk = h.on_disk };
    offset = refl;
  }

  close-Sound : (w : World) → SoundWorld g file start w → Sound g file (close_reader w).0.cache
  unfolding close_reader unregister_reader
  close-Sound w h =
      if_both (λ (x : World × List (ℕ × PiecePriority)). Sound g file x.0.cache) w.reader.closed
        (λ c. h.sound)
        (λ c. record {
          shape = h.sound.shape;
          genuine = h.sound.genuine;
          on_disk = h.sound.on_disk;
        })

  -- Bytes of the file from a position on.
  abbrev BytesFrom : ℕ → List ℕ → Type 0
  BytesFrom p out = out ≡ take (length out) (drop (start + p) file)

  start_bytes :
      (rs : List Round) (n : ℕ) (w : World)
      → IsLaidOut g file
      → RoundsKeep g file start rs
      → SoundWorld g file start w
      → start + w.reader.file_size ≤ length file
      → let (out, c) = read_start rs (length file) n w in
        BytesFrom w.reader.pos out × Sound g file c
  start_bytes rs n w l k h i =
      let part = read-IsPart g file start rs n w l k h i in (part.bytes, close-Sound _ part.kept)

  -- A new reader is open, so its seek succeeds.
  end_bytes :
      (rs : List Round) (p n : ℕ) (id : ℕ) (c : Cache) (size : ℕ)
      → IsLaidOut g file
      → RoundsKeep g file start rs
      → Sound g file c
      → start + size ≤ length file
      → let (out, c') =
          read_end rs (length file) p n (new_reader id c start size cold_probe none) in
        BytesFrom p out × Sound g file c'
  unfolding seek new_reader
  end_bytes rs p n id c size l k h i =
      let w = new_reader id c start size cold_probe none in
      let w' = at_pos w p in
      start_bytes rs n w' l k
        (moved g file start w w'.reader refl (new_reader-SoundWorld id c size h)) i

  with_start-AreHeaders :
      (h : FileHeaders) (out : List ℕ)
      → AreHeaders g file start h
      → BytesFrom 0 out
      → AreHeaders g file start (with_start h out)
  with_start-AreHeaders h out a e =
      if_both (AreHeaders g file start)
        (ltb 0 (length out) && ltb (length h.start_bytes) (length out))
        (λ c. record {
          first = e ∙ ap (λ (k : ℕ). take (length out) (drop k file)) (omega arith);
          last = a.last;
        })
        (λ c. a)

  with_end-AreHeaders :
      (h : FileHeaders) (p : ℕ) (out : List ℕ)
      → AreHeaders g file start h
      → BytesFrom p out
      → AreHeaders g file start (with_end h p out)
  with_end-AreHeaders h p out a e =
      if_both (AreHeaders g file start)
        (ltb 0 (length out) && ltb (length h.end_bytes) (length out))
        (λ c. record { first = a.first; last = e }) (λ c. a)

  -- What other requests do to the headers and to the cache keeps both right.
  pub record KeepsRight (p : Prefetch) : Type 0 where
    pub start_kept : RoundsKeep g file start p.start_rounds
    pub end_kept : RoundsKeep g file start p.end_rounds
    pub between_start_kept :
        (h : FileHeaders) → AreHeaders g file start h → AreHeaders g file start (p.between_start h)
    pub between_end_kept :
        (h : FileHeaders) → AreHeaders g file start h → AreHeaders g file start (p.between_end h)

  abbrev pub AreRight : FileHeaders × Cache → Type 0
  AreRight (h, c) = AreHeaders g file start h × Sound g file c

  start-AreRight :
      (p : Prefetch) (size : ℕ) (b : Bool) (h : FileHeaders) (c : Cache)
      → IsLaidOut g file
      → KeepsRight p
      → start + size ≤ length file
      → AreRight (h, c)
      → AreRight (prefetch_start p (length file) start size b (h, c))
  unfolding new_reader
  start-AreRight p size true h c l k i r = r
  start-AreRight p size false h c l k i r =
      let w = new_reader p.start_id c start size cold_probe none in
      let (out, sound) =
        start_bytes p.start_rounds (start_max size) w l k.start_kept
          (new_reader-SoundWorld p.start_id c size r.1) i in
      (with_start-AreHeaders _ _ (k.between_start_kept h r.0) out, sound)

  end-AreRight :
      (p : Prefetch) (size : ℕ) (b : Bool) (h : FileHeaders) (c : Cache)
      → IsLaidOut g file
      → KeepsRight p
      → start + size ≤ length file
      → AreRight (h, c)
      → AreRight (prefetch_end p (length file) start size b (h, c))
  end-AreRight p size true h c l k i r = r
  end-AreRight p size false h c l k i r =
      let (out, sound) =
        end_bytes p.end_rounds (end_min size) (size - end_min size) p.end_id c size l k.end_kept r.1
          i in
      (with_end-AreHeaders _ (end_min size) _ (k.between_end_kept h r.0) out, sound)

  -- After a prefetch the headers are bytes of the file and the cache is sound, if they were so before
  -- and the other requests keep them so, and if the file lies inside the torrent. This holds also
  -- when a read fails or is cut short.
  pub preload_headers-AreRight :
      (p : Prefetch) (size : ℕ) (h : FileHeaders) (c : Cache)
      → IsLaidOut g file
      → KeepsRight p
      → start + size ≤ length file
      → AreHeaders g file start h
      → Sound g file c
      → AreRight (preload_headers p (length file) start size (h, c))
  unfolding preload_headers
  preload_headers-AreRight p size h c l k i a s =
      if_both AreRight (has_start h size && has_end h size) (λ b. (a, s))
        (λ b.
          let (a', s') = start-AreRight p size (has_start h size) h c l k i (a, s) in
          end-AreRight p size (has_end h size) _ _ l k i (a', s'))
