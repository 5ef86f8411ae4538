-- ===== src/Storage/Reader/Ranges.antt =====
-- The range that a round of a read asks for, and the bytes in it.
use torrent_go.Prelude.{
  ℕ, ◌+◌, ◌≤◌, ◌<◌, ◌≡◌, sym, ap, ◌∙◌, true, none, List, length, take, drop, length-take,
  length-drop, arith,
}
use torrent_go.Storage.MemPiece.{MemPiece, read_at, has_range}
use torrent_go.Storage.MemPiece.Chunk.{Downloads}
use torrent_go.Storage.MemPiece.Content.{read_at-ready}
use torrent_go.Storage.Window.{Geometry}
use torrent_go.Storage.Reader.{World, Round, Span, span}
use torrent_go.Storage.Reader.Slices.{
  piece_bytes, IsLaidOut, span-in_torrent, span-size, span-inside, span-some, span-slice,
}
use torrent_go.Storage.Reader.Worlds.{SoundWorld}

module _ (g : Geometry) (file : List ℕ) (start : ℕ) where
  -- A range of a piece that is a part of what is wanted.
  pub record Fits (p want : ℕ) (s : Span) : Type 0 where
    pub in_torrent : s.idx < g.piece_count
    pub sized : s.size ≡ length (piece_bytes g file s.idx)
    pub inside : s.off + s.len ≤ length (piece_bytes g file s.idx)
    pub wanted : s.len ≤ want
    pub some_bytes : 0 < want → 0 < s.len
    pub slice :
        take s.len (drop s.off (piece_bytes g file s.idx)) ≡ take s.len (drop (start + p) file)

  pub span-Fits :
      (p want : ℕ)
      → IsLaidOut g file
      → start + p < length file
      → Fits p want (span g (length file) (start + p) want)
  unfolding span
  span-Fits p want l i = record {
    in_torrent = span-in_torrent g file l (start + p) want i;
    sized = span-size g file l (start + p) want i;
    inside = span-inside g file l (start + p) want i;
    wanted = omega arith;
    some_bytes = span-some g file l (start + p) want i;
    slice = span-slice g file l (start + p) want i;
  }

  -- A range that is ready is read in full.
  pub read_whole :
      (r : Round) (s : Span) (want p : ℕ) (mp : MemPiece)
      → Fits p want s
      → 0 < want
      → Downloads (piece_bytes g file s.idx) mp
      → has_range mp s.off s.len ≡ true
      → let got = read_at mp r.read_now s.len s.off in
        (got.1 ≡ take (length got.1) (drop (start + p) file))
        × (length got.1 ≡ s.len)
        × (got.2 ≡ none)
  read_whole r s want p mp f some_ d range =
      let src = piece_bytes g file s.idx in
      let (bytes, fine) =
        read_at-ready src r.read_now s.off s.len d (f.some_bytes some_) f.inside range in
      let size : length (read_at mp r.read_now s.len s.off).1 ≡ s.len =
        ap length bytes
        ∙ length-take s.len (drop s.off src)
        ∙ omega (arith, f.inside, length-drop s.off src) in
      (bytes ∙ f.slice ∙ ap (λ k. take k (drop (start + p) file)) (sym size), size, fine)

  -- The range that a round computes.
  pub span_at :
      (want p : ℕ) (w : World)
      → SoundWorld g file start w
      → span g (length file) (start + p) want
        ≡ span w.cache.geometry (length file) (w.reader.file_offset + p) want
  span_at want p w h =
      ap (λ x. span x (length file) (start + p) want) (sym h.sound.shape)
      ∙ ap (λ x. span w.cache.geometry (length file) (x + p) want) (sym h.offset)
