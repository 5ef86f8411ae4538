-- ===== src/Handlers/HeaderCache/Part.antt =====
-- Reads through the header cache give the file's bytes, like reads of the torrent.
use torrent_go.Handlers.HeaderCache.{
  FileHeaders, CachingReader, seek_error, CachingStatus, done, CachingResult, status_of, advanced,
  after_seek, read_below, read_with, read_caching,
}
use torrent_go.Prelude.{
  ℕ, ◌+◌, ◌-◌, ◌≤◌, ◌≡◌, ◌≢◌, ◌⊎◌, refl, sym, ap, ◌∙◌, ◌&&◌, leb, if_both, inl, inr, min, Option,
  none, some, List, [], length, take, drop, length-take, length-drop, arith,
}
use torrent_go.Storage.Reader.{
  World, Round, Status, returned, unfinished, seek_closed, Sought, seek, at_pos,
}
use torrent_go.Storage.Reader.Bytes.{read-IsPart}
use torrent_go.Storage.Reader.Slices.{IsLaidOut, drop-drop, slice-take}
use torrent_go.Storage.Reader.Worlds.{SoundWorld, RoundsKeep, moved}
use torrent_go.Storage.Window.{Geometry}

module _ (g : Geometry) (file : List ℕ) (start : ℕ) where
  -- The headers are bytes of the file that starts at `start` of the torrent.
  pub record AreHeaders (h : FileHeaders) : Type 0 where
    pub first : h.start_bytes ≡ take (length h.start_bytes) (drop start file)
    pub last : h.end_bytes ≡ take (length h.end_bytes) (drop (start + h.end_offset) file)

  abbrev pub AreNone : Option FileHeaders → Type 0
  AreNone none = Unit {0}
  AreNone (some h) = AreHeaders h

  -- The bytes at the position, which moves behind them, and all that are wanted unless the call does
  -- not return well.
  pub record IsNext (cr : CachingReader) (n : ℕ) (r : CachingResult) : Type 0 where
    pub bytes : r.content ≡ take (length r.content) (drop (start + cr.pos) file)
    pub at_most : length r.content ≤ n
    pub moved_on : r.reader.pos ≡ cr.pos + length r.content
    pub ended : (length r.content ≡ n) ⊎ (r.status ≢ done none)

  nothing-IsNext :
      (cr : CachingReader) (n : ℕ) (w : World) (s : CachingStatus)
      → (n ≡ 0) ⊎ (s ≢ done none)
      → IsNext cr n (advanced cr w [] s)
  nothing-IsNext cr n w s h = record {
    bytes = refl;
    at_most = omega arith;
    moved_on = refl;
    ended = elim h [ inl e ↦ inl (omega arith) | inr e ↦ inr e ];
  }

  -- A part of kept bytes that begin at `from` of the file.
  kept-IsNext :
      (kept : List ℕ) (from p n : ℕ) (cr : CachingReader) (w : World)
      → kept ≡ take (length kept) (drop (start + from) file)
      → from + p ≡ cr.pos
      → p + n ≤ length kept
      → IsNext cr n (advanced cr w (take n (drop p kept)) (done none))
  kept-IsNext kept from p n cr w e q h =
      let whole : length (take n (drop p kept)) ≡ n =
        omega (arith, length-take n (drop p kept), length-drop p kept) in
      let part : take n (drop p kept) ≡ take n (drop (start + cr.pos) file) =
        ap (λ (xs : List ℕ). take n (drop p xs)) e
        ∙ slice-take n p (length kept) (drop (start + from) file) h
        ∙ ap (take n)
            (drop-drop p (start + from) file ∙ ap (λ (k : ℕ). drop k file) (omega (arith, q))) in
      record {
        bytes = part ∙ ap (λ (k : ℕ). take k (drop (start + cr.pos) file)) (sym whole);
        at_most = omega arith;
        moved_on = refl;
        ended = inl whole;
      }

  status_of-done : (s : Status) → status_of s ≡ done none → s ≡ returned none
  status_of-done unfinished e = cc
  status_of-done (returned none) e = refl
  status_of-done (returned (some x)) e = cc

  below-IsNext :
      (rs : List Round) (n : ℕ) (cr : CachingReader) (w : World)
      → IsLaidOut g file
      → RoundsKeep g file start rs
      → SoundWorld g file start w
      → start + w.reader.file_size ≤ length file
      → cr.pos + n ≤ w.reader.file_size
      → IsNext cr n (read_below rs (length file) n cr w)
  unfolding seek
  below-IsNext rs n cr w l k h i fits =
      let w' = at_pos w cr.pos in
      let part = read-IsPart g file start rs n w' l k (moved g file start w w'.reader refl h) i in
      let wanted : min n (w.reader.file_size - cr.pos) ≡ n = omega arith in
      if_both (λ (s : Sought). IsNext cr n (after_seek rs (length file) n cr s.err s.world))
        w.reader.closed
        (λ c. nothing-IsNext cr n w (done (some (seek_error seek_closed))) (inr (λ e. absurd (cc))))
        (λ c. record {
          bytes = part.bytes;
          at_most = omega (arith, part.at_most, wanted);
          moved_on = refl;
          ended = elim part.ended [
            | inl e ↦ inl (e ∙ wanted)
            | inr e ↦ inr (λ x. e (status_of-done _ x))
          ];
        })

  with-IsNext :
      (headers : Option FileHeaders) (rs : List Round) (n : ℕ) (cr : CachingReader) (w : World)
      → AreNone headers
      → IsNext cr n (read_below rs (length file) n cr w)
      → IsNext cr n (read_with headers rs (length file) n cr w)
  with-IsNext none rs n cr w a below = below
  with-IsNext (some h) rs n cr w a below =
      if_both (IsNext cr n) (leb (cr.pos + n) (length h.start_bytes))
        (λ c.
          kept-IsNext h.start_bytes 0 cr.pos n cr w
            (a.first ∙ ap (λ (k : ℕ). take (length h.start_bytes) (drop k file)) (omega arith))
            (omega arith) (ground arith))
        (λ c.
          if_both (IsNext cr n)
            (leb h.end_offset cr.pos && leb (cr.pos + n) (h.end_offset + length h.end_bytes))
            (λ d.
              kept-IsNext h.end_bytes h.end_offset (cr.pos - h.end_offset) n cr w a.last
                (ground arith) (ground arith))
            (λ d. below))

  -- A read through the header cache gets bytes of the file, from the position on and in order, and
  -- moves the position behind them, be they from the headers or from the torrent; if it returns
  -- without an error, it has filled the buffer or reached the end of the file. The headers are bytes
  -- of the file, the reader below has the same size and keeps to a sound cache, and the file lies
  -- inside the torrent.
  pub read_caching-IsNext :
      (headers : Option FileHeaders) (rs : List Round) (want : ℕ) (cr : CachingReader) (w : World)
      → AreNone headers
      → IsLaidOut g file
      → RoundsKeep g file start rs
      → SoundWorld g file start w
      → start + w.reader.file_size ≤ length file
      → cr.file_size ≡ w.reader.file_size
      → IsNext cr
          (min want (cr.file_size - cr.pos))
          (read_caching headers rs (length file) want cr w)
  unfolding read_caching
  read_caching-IsNext headers rs want cr w a l k h i e =
      let n = min want (cr.file_size - cr.pos) in
      if_both (IsNext cr n) (leb cr.file_size cr.pos)
        (λ c. nothing-IsNext cr n w _ (inr (λ x. absurd (cc))))
        (λ c.
          if_both (IsNext cr n) (leb n 0)
            (λ z. nothing-IsNext cr n w (done none) (inl (ground arith)))
            (λ z. with-IsNext headers rs n cr w a (below-IsNext rs n cr w l k h i (ground arith))))
