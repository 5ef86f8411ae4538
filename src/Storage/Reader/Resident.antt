-- ===== src/Storage/Reader/Resident.antt =====
-- A read of pieces that are all in the cache returns.
use mathlib.Core.Path.{subst}
use torrent_go.Prelude.{
  ℕ, suc, ◌+◌, ◌-◌, ◌≤◌, ◌<◌, ◌≡◌, refl, sym, ap, ◌∙◌, Bool, true, false, ◌||◌, leb, if_both, min,
  none, some, List, [], ◌∷◌, length, take, drop, arith,
}
use torrent_go.Storage.MemPiece.{read_at}
use torrent_go.Storage.Window.{Geometry}
use torrent_go.Storage.Piece.{put_back}
use torrent_go.Storage.Reader.{
  World, Wait, Round, Span, span, wait, Status, returned, unfinished, Result, fetch, at_pos, go_on,
  after_read, after_wait, after_fetch, read_loop, at_end, finish, read,
}
use torrent_go.Storage.Reader.Slices.{IsLaidOut}
use torrent_go.Storage.Reader.Worlds.{RoundsKeep, moved}
use torrent_go.Storage.Reader.Ranges.{Fits, span-Fits, read_whole, span_at}
use torrent_go.Storage.Reader.Bytes.{read_loop-IsRead}
use torrent_go.Storage.Reader.Steady.{
  Steady, Quiet, AllQuiet, complete-has_range, fetched-Steady, waited, read-Steady,
}

module _ (g : Geometry) (file : List ℕ) (start : ℕ) where
  -- The loop after a round returns well, with at most `k` bytes left to read.
  abbrev Returns : ℕ → (ℕ → ℕ → World → Result) → Type 0
  Returns k next =
      (want p : ℕ) (w : World)
      → Steady g file start w
      → want ≤ k
      → start + p + want ≤ length file
      → (next want p w).status ≡ returned none

  go_on_ends :
      (next : ℕ → ℕ → World → Result) (k want p : ℕ) (w : World) (out : List ℕ)
      → Returns k next
      → Steady g file start w
      → 0 < length out
      → length out ≤ want
      → want ≤ suc k
      → start + p + want ≤ length file
      → (go_on next want p w out).status ≡ returned none
  go_on_ends next k want p w [] n h pos_ le b i = refl
  go_on_ends next k want p w (x ∷ xs) n h pos_ le b i =
      let m = length (x ∷ xs) in
      n (want - m) (p + m) (at_pos w (p + m))
        (record {
          sound_world = moved g file start w (record w.reader { pos = p + m }) refl h.sound_world;
          reader_open = h.reader_open;
          cache_open = h.cache_open;
          resident = h.resident;
        })
        (omega arith) (omega arith)

  wait_ends :
      (next : ℕ → ℕ → World → Result) (k want p : ℕ) (r : Round) (s : Span) (xs : List Wait)
      (w : World)
      → Returns k next
      → Fits g file start p want s
      → 0 < want
      → want ≤ suc k
      → start + p + want ≤ length file
      → Quiet g file start xs r.evicted
      → Steady g file start w
      → (after_wait next r s want p (wait s xs w)).status ≡ returned none
  wait_ends next k want p r s [] w n f some_ b i q h = absurd q
  wait_ends next k want p r s (x ∷ xs) w n f some_ b i (kb, kept) h =
      let w₀ = x.before w in
      let h₀ = kb w h in
      let (mp, e, c) = h₀.resident s.idx f.in_torrent in
      let d = h₀.sound_world.sound.genuine s.idx mp e in
      let got = read_at mp r.read_now s.len s.off in
      let w' = record w₀ { cache = put_back w₀.cache s.idx got.0 } in
      let (bytes, size, fine) =
        read_whole g file start r s want p mp f some_ d
          (complete-has_range g file start mp s.off s.len c) in
      let last : (after_read next want p w' got.1 got.2).status ≡ returned none =
        ap (λ o. (after_read next want p w' got.1 o).status) fine
        ∙ go_on_ends next k want p w' got.1 n
            (read-Steady g file start w₀ s.idx r.read_now s.len s.off mp h₀ d c)
            (omega (arith, size, f.some_bytes some_)) (omega (arith, size, f.wanted)) b i in
      ap (λ y. (after_wait next r s want p y).status) (waited g file start s x xs w mp h₀ e c)
      ∙ rw kept last

  round_ends :
      (next : ℕ → ℕ → World → Result) (k want p : ℕ) (r : Round) (s : Span) (w : World)
      → Returns k next
      → Fits g file start p want s
      → 0 < want
      → want ≤ suc k
      → start + p + want ≤ length file
      → Quiet g file start r.waits r.evicted
      → Steady g file start w
      → (after_fetch next r s want p (fetch r s w)).status ≡ returned none
  round_ends next k want p r s w n f some_ b i q h =
      let h' = fetched-Steady g file start r s w f.in_torrent h in
      let x = (fetch r s w).world in
      if_both (λ (y : Result). y.status ≡ returned none) x.reader.closed
        (λ c. absurd (cc h'.reader_open))
        (λ c. wait_ends next k want p r s r.waits x n f some_ b i q h')

  loop_ends :
      (rs : List Round) (want p : ℕ) (w : World)
      → IsLaidOut g file
      → AllQuiet g file start rs
      → Steady g file start w
      → want ≤ length rs
      → start + p + want ≤ length file
      → (read_loop rs (length file) want p w).status ≡ returned none
  unfolding read_loop
  loop_ends [] want p w l q h b i =
      if_both (λ (x : Status). x ≡ returned none) (leb want 0) (λ c. refl)
        (λ c. absurd (ground arith))
  loop_ends (r ∷ rs) want p w l ((kb, kw), q) h b i =
      let w₀ = r.before w in
      let h₀ = kb w h in
      let s = span w₀.cache.geometry (length file) (w₀.reader.file_offset + p) want in
      if_both (λ (x : Result). x.status ≡ returned none) (leb want 0 || leb s.len 0) (λ c. refl)
        (λ c.
          let some_ : 0 < want = ground arith in
          let fits =
            subst (Fits g file start p want) (span_at g file start want p w₀ h₀.sound_world)
              (span-Fits g file start p want l (omega arith)) in
          round_ends (λ (n q : ℕ) (v : World). read_loop rs (length file) n q v) (length rs) want p
            r s w₀ (λ n p' v hv bn ip. loop_ends rs n p' v l q hv bn ip) fits some_ b i kw h₀)

  not_at_end : (b : Bool) (r : Result) → b ≡ false → at_end b r ≡ r
  not_at_end true r e = absurd (cc)
  not_at_end false r e = refl

  finished :
      (size p : ℕ) (s : Status) (r : Result)
      → s ≡ returned none
      → 0 < length r.content
      → finish size p s r ≡ r
  finished size p unfinished r e some_ = refl
  finished size p (returned (some x)) r e some_ = refl
  finished size p (returned none) r e some_ = not_at_end _ r (ground arith)

  -- A read of a torrent that is all in the cache returns without an error and reads all that was asked
  -- for, up to the end of the file, after at most as many rounds as it reads bytes. The reader is open, its
  -- position is inside its file and the file inside the torrent; the other goroutines keep the pieces
  -- sound, close nothing and evict nothing.
  pub resident_read :
      (rs : List Round) (want : ℕ) (w : World)
      → IsLaidOut g file
      → RoundsKeep g file start rs
      → AllQuiet g file start rs
      → Steady g file start w
      → w.reader.pos < w.reader.file_size
      → start + w.reader.file_size ≤ length file
      → min want (w.reader.file_size - w.reader.pos) ≤ length rs
      → let n = min want (w.reader.file_size - w.reader.pos) in
        let r = read rs (length file) want w in
        (r.status ≡ returned none) × (r.content ≡ take n (drop (start + w.reader.pos) file))
  unfolding read
  resident_read rs want w l k q h lt i b =
      let r = w.reader in
      let n = min want (r.file_size - r.pos) in
      let loop = read_loop rs (length file) n r.pos w in
      let Whole : Result → Type 0 =
        λ x. (x.status ≡ returned none) × (x.content ≡ take n (drop (start + r.pos) file)) in
      let inside : start + r.pos + n ≤ length file = omega (arith, lt) in
      let done = loop_ends rs n r.pos w l q h b inside in
      let part = read_loop-IsRead g file start rs n r.pos w l k h.sound_world inside in
      if_both Whole r.closed (λ c. absurd (cc h.reader_open))
        (λ c.
          if_both Whole (leb r.file_size r.pos) (λ d. absurd (ground arith))
            (λ d.
              if_both Whole (leb n 0)
                (λ z.
                  let none_left : 0 ≡ n = ground arith in
                  (refl, ap (λ j. take j (drop (start + r.pos) file)) none_left))
                (λ z.
                  let size = part.full done in
                  let some_ : 0 < n = ground arith in
                  subst Whole
                    (sym (
                      finished r.file_size r.pos loop.status loop done
                        (omega (arith, size, some_))))
                    (done, part.exact ∙ ap (λ j. take j (drop (start + r.pos) file)) size))))
