-- ===== src/Storage/Reader/Bytes.antt =====
-- What a reader gets: the bytes of its file, whatever the other goroutines do to the cache meanwhile.
use mathlib.Core.Path.{subst}
use torrent_go.Prelude.{
  ℕ, ◌+◌, ◌-◌, ◌≤◌, ◌<◌, ◌≡◌, ◌≢◌, ◌⊎◌, refl, sym, ap, ◌∙◌, Bool, true, false, ◌||◌, leb, if_both,
  Bool-cases, inl, inr, min, none, some, List, [], ◌∷◌, ◌++◌, length, take, drop, length-take,
  length-append, arith,
}
use torrent_go.Storage.MemPiece.{MemPiece, read_at, release_and_size}
use torrent_go.Storage.MemPiece.Chunk.{Downloads}
use torrent_go.Storage.ReadClass.{PiecePriority}
use torrent_go.Storage.Window.{Geometry}
use torrent_go.Storage.Piece.{put_back}
use torrent_go.Storage.Reader.{
  World, Round, Span, span, reader_closed, end_of_file, Waited, ready, stopped, waiting, wait,
  Status, returned, unfinished, Result, stop, joined, fetch, at_pos, go_on, after_read, after_wait,
  after_fetch, read_loop, at_end, finish, read,
}
use torrent_go.Storage.Reader.Slices.{IsLaidOut, take-append, drop-drop}
use torrent_go.Storage.Reader.Shared.{put_back-Sound}
use torrent_go.Storage.Reader.Worlds.{
  SoundWorld, WaitsKeep, RoundsKeep, with_cache, moved, WaitedFor, wait-WaitedFor, fetch-SoundWorld,
}
use torrent_go.Storage.Reader.Ranges.{Fits, span-Fits, read_whole, span_at}

nothing_left : (want n : ℕ) → (leb want 0 || leb n 0) ≡ true → (0 < want → 0 < n) → 0 ≡ want
nothing_left want n c f = elim (Bool-cases (leb want 0)) [
  | inl a ↦ ground arith
  | inr a ↦ let k = f (ground arith) in absurd (ground arith)
]

status-cases : (s : Status) → (s ≡ returned none) ⊎ (s ≢ returned none)
status-cases unfinished = inr (λ e. absurd (cc))
status-cases (returned none) = inl refl
status-cases (returned (some x)) = inr (λ e. absurd (cc))

module _ (g : Geometry) (file : List ℕ) (start : ℕ) where
  -- What is read of `want` bytes from `p` of the reader's file on.
  pub record IsRead (p want : ℕ) (r : Result) : Type 0 where
    pub exact : r.content ≡ take (length r.content) (drop (start + p) file)
    pub bounded : length r.content ≤ want
    pub full : r.status ≡ returned none → length r.content ≡ want
    pub kept : SoundWorld g file start r.world

  stop-IsRead :
      (p want : ℕ) (w : World) (s : Status)
      → SoundWorld g file start w
      → (s ≡ returned none → 0 ≡ want)
      → IsRead p want (stop w s)
  stop-IsRead p want w s k h = record { exact = refl; bounded = omega arith; full = h; kept = k }

  -- A part that was read, and the rest.
  joined-IsRead :
      (p want : ℕ) (out : List ℕ) (r : Result)
      → out ≡ take (length out) (drop (start + p) file)
      → length out ≤ want
      → IsRead (p + length out) (want - length out) r
      → IsRead p want (joined out [] 0 r)
  joined-IsRead p want out r e b h =
      let m = length out in
      let xs = drop (start + p) file in
      let all : length (out ++ r.content) ≡ m + length r.content = length-append out r.content in
      let room : m ≤ length xs = omega (arith, ap length e, length-take m xs) in
      let sum : start + p + m ≡ start + (p + m) = omega arith in
      let later : drop (start + (p + m)) file ≡ drop m xs =
        ap (λ k. drop k file) (sym sum) ∙ sym (drop-drop m (start + p) file) in
      record {
        exact =
            ap (λ t. t ++ r.content) e
            ∙ ap (λ t. take m xs ++ t) (h.exact ∙ ap (take (length r.content)) later)
            ∙ take-append m (length r.content) xs room
            ∙ ap (λ k. take k xs) (sym all);
        bounded = omega (arith, all, h.bounded, b);
        full = λ done. omega (arith, all, h.full done, b);
        kept = h.kept;
      }

  -- What a round does besides reading bytes does not matter.
  noted-IsRead :
      (p want : ℕ) (calls : List (ℕ × PiecePriority)) (n : ℕ) (r : Result)
      → IsRead p want r
      → IsRead p want (joined [] calls n r)
  noted-IsRead p want calls n r h = record {
    exact = h.exact;
    bounded = h.bounded;
    full = h.full;
    kept = h.kept;
  }

  abbrev Next : (ℕ → ℕ → World → Result) → Type 0
  Next next =
      (want p : ℕ) (w : World)
      → SoundWorld g file start w
      → start + p + want ≤ length file
      → IsRead p want (next want p w)

  go_on-IsRead :
      (next : ℕ → ℕ → World → Result) (want p : ℕ) (w : World) (out : List ℕ)
      → Next next
      → SoundWorld g file start w
      → start + p + want ≤ length file
      → 0 < length out
      → length out ≤ want
      → out ≡ take (length out) (drop (start + p) file)
      → IsRead p want (go_on next want p w out)
  go_on-IsRead next want p w [] n h i some_ b e = absurd (omega arith)
  go_on-IsRead next want p w (x ∷ xs) n h i some_ b e =
      let m = length (x ∷ xs) in
      joined-IsRead p want (x ∷ xs) _ e b (
        n (want - m) (p + m) (at_pos w (p + m))
          (moved g file start w (record w.reader { pos = p + m }) refl h) (omega arith))

  ready-IsRead :
      (next : ℕ → ℕ → World → Result) (r : Round) (s : Span) (want p : ℕ) (w : World)
      (mp : MemPiece)
      → Next next
      → Fits g file start p want s
      → 0 < want
      → start + p + want ≤ length file
      → WaitedFor g file start s (ready w mp)
      → IsRead p want (after_wait next r s want p (ready w mp))
  unfolding read_at release_and_size
  ready-IsRead next r s want p w mp n f some_ i (h, d, range) = elim (Bool-cases r.evicted) [
    | inl t ↦ rw t (n want p w h i)
    | inr t ↦
        let got = read_at mp r.read_now s.len s.off in
        let w' = record w { cache = put_back w.cache s.idx got.0 } in
        let (bytes, size, fine) = read_whole g file start r s want p mp f some_ d range in
        let h' =
          with_cache g file start w w'.cache
            (put_back-Sound g file w.cache s.idx got.0 h.sound
              (Downloads.read r.read_now s.len s.off d))
            h in
        rw t (
          subst (λ e. IsRead p want (after_read next want p w' got.1 e)) (sym fine)
            (go_on-IsRead next want p w' got.1 n h' i (omega (arith, size, f.some_bytes some_))
              (omega (arith, size, f.wanted)) bytes))
  ]

  wait-IsRead :
      (next : ℕ → ℕ → World → Result) (r : Round) (s : Span) (want p : ℕ) (x : Waited)
      → Next next
      → Fits g file start p want s
      → 0 < want
      → start + p + want ≤ length file
      → WaitedFor g file start s x
      → IsRead p want (after_wait next r s want p x)
  wait-IsRead next r s want p (waiting w) n f some_ i h =
      stop-IsRead p want w unfinished h (λ e. absurd (cc))
  wait-IsRead next r s want p (stopped w e) n f some_ i h =
      stop-IsRead p want w (returned (some e)) h (λ e. absurd (cc))
  wait-IsRead next r s want p (ready w mp) n f some_ i h =
      ready-IsRead next r s want p w mp n f some_ i h

  round-IsRead :
      (next : ℕ → ℕ → World → Result) (r : Round) (s : Span) (want p : ℕ) (w : World)
      → Next next
      → Fits g file start p want s
      → 0 < want
      → start + p + want ≤ length file
      → WaitsKeep g file start r.waits
      → SoundWorld g file start w
      → IsRead p want (after_fetch next r s want p (fetch r s w))
  round-IsRead next r s want p w n f some_ i k h =
      let x = fetch r s w in
      let h' = fetch-SoundWorld g file start r s w f.sized h in
      noted-IsRead p want x.calls x.loaded _ (
        if_both (IsRead p want) x.world.reader.closed
          (λ c. stop-IsRead p want x.world (returned (some reader_closed)) h' (λ e. absurd (cc)))
          (λ c.
            wait-IsRead next r s want p (wait s r.waits x.world) n f some_ i
              (wait-WaitedFor g file start s r.waits x.world f.sized k h')))

  pub read_loop-IsRead :
      (rs : List Round) (want p : ℕ) (w : World)
      → IsLaidOut g file
      → RoundsKeep g file start rs
      → SoundWorld g file start w
      → start + p + want ≤ length file
      → IsRead p want (read_loop rs (length file) want p w)
  unfolding read_loop
  read_loop-IsRead [] want p w l k h i = stop-IsRead p want w _ h (
      if_both (λ (s : Status). s ≡ returned none → 0 ≡ want) (leb want 0) (λ c e. ground arith)
        (λ c e. absurd (cc)))
  read_loop-IsRead (r ∷ rs) want p w l ((kb, kw), k) h i =
      let w₀ = r.before w in
      let h₀ = kb w h in
      let s = span w₀.cache.geometry (length file) (w₀.reader.file_offset + p) want in
      let same : span g (length file) (start + p) want ≡ s = span_at g file start want p w₀ h₀ in
      let fits = λ (c : 0 < want).
        subst (Fits g file start p want) same (span-Fits g file start p want l (omega arith)) in
      if_both (IsRead p want) (leb want 0 || leb s.len 0)
        (λ c.
          stop-IsRead p want w (returned none) h
            (λ e. nothing_left want s.len c (λ b. (fits b).some_bytes b)))
        (λ c.
          let some_ : 0 < want = ground arith in
          round-IsRead (λ (n q : ℕ) (v : World). read_loop rs (length file) n q v) r s want p w₀
            (λ n q v. read_loop-IsRead rs n q v l k) (fits some_) some_ i kw h₀)

  at_end-IsRead :
      (p want : ℕ) (b : Bool) (r : Result) → IsRead p want r → IsRead p want (at_end b r)
  at_end-IsRead p want true r h = record {
    exact = h.exact;
    bounded = h.bounded;
    full = λ e. absurd (cc);
    kept = h.kept;
  }
  at_end-IsRead p want false r h = h

  finish-IsRead :
      (p want size q : ℕ) (s : Status) (r : Result)
      → IsRead p want r
      → IsRead p want (finish size q s r)
  finish-IsRead p want size q unfinished r h = h
  finish-IsRead p want size q (returned (some e)) r h = h
  finish-IsRead p want size q (returned none) r h = at_end-IsRead p want _ r h

  -- The bytes at `p`, and all that are wanted unless the call does not return well. The world is left
  -- sound.
  pub record IsPart (p want : ℕ) (r : Result) : Type 0 where
    pub bytes : r.content ≡ take (length r.content) (drop (start + p) file)
    pub at_most : length r.content ≤ want
    pub ended : (length r.content ≡ want) ⊎ (r.status ≢ returned none)
    pub kept : SoundWorld g file start r.world

  IsRead-IsPart : (p want : ℕ) (r : Result) → IsRead p want r → IsPart p want r
  IsRead-IsPart p want r h = record {
    bytes = h.exact;
    at_most = h.bounded;
    ended = elim (status-cases r.status) [ inl e ↦ inl (h.full e) | inr n ↦ inr n ];
    kept = h.kept;
  }

  -- A call of `Read` gets bytes of the reader's file, from its position on and in order, whatever the
  -- other goroutines do at the points where the locks are free: evictions, downloads, reloads, seeks.
  -- If it returns without an error, it has filled the buffer or reached the end of the file. The
  -- others keep each piece in the cache a state of a download of its part of the torrent, and so does
  -- the call; the file lies inside the torrent.
  pub read-IsPart :
      (rs : List Round) (want : ℕ) (w : World)
      → IsLaidOut g file
      → RoundsKeep g file start rs
      → SoundWorld g file start w
      → start + w.reader.file_size ≤ length file
      → IsPart w.reader.pos
          (min want (w.reader.file_size - w.reader.pos))
          (read rs (length file) want w)
  unfolding read
  read-IsPart rs want w l k h i =
      let r = w.reader in
      let n = min want (r.file_size - r.pos) in
      IsRead-IsPart r.pos n (read rs (length file) want w) (
        if_both (IsRead r.pos n) r.closed
          (λ c. stop-IsRead r.pos n w (returned (some reader_closed)) h (λ e. absurd (cc)))
          (λ c.
            if_both (IsRead r.pos n) (leb r.file_size r.pos)
              (λ d. stop-IsRead r.pos n w (returned (some end_of_file)) h (λ e. absurd (cc)))
              (λ d.
                if_both (IsRead r.pos n) (leb n 0)
                  (λ z. stop-IsRead r.pos n w (returned none) h (λ e. ground arith))
                  (λ z.
                    let inside : start + r.pos + n ≤ length file = ground arith in
                    let loop = read_loop rs (length file) n r.pos w in
                    finish-IsRead r.pos n r.file_size r.pos loop.status loop
                      (read_loop-IsRead rs n r.pos w l k h inside)))))
