-- ===== src/Storage/MemPiece/Content.antt =====
-- What a reader gets: the bytes of a piece that its bitmap of written blocks vouches for.
use torrent_go.Prelude.{
  ℕ, suc, ◌+◌, ◌-◌, ◌/◌, ◌≤◌, ◌<◌, ◌≡◌, refl, sym, ◌∙◌, ap, true, false, ltb, arith, none, some,
  List, length, inl, inr, get_elem?, get_or, take, drop, length-take, length-drop, length-replicate,
  leb, Bool-cases, Option-cases,
}
use mathlib.Core.Path.{subst}
use torrent_go.Storage.MemPiece.{
  MemPiece, is_resident, block_size, new_mem_piece, buffer, all_written, read_at, write_at,
  mark_complete, release_and_size, load_complete, has_range,
}
use torrent_go.Storage.MemPiece.Lists.{slice_ext}
use torrent_go.Storage.MemPiece.Chunk.{
  IsChunk, Downloads, Agrees, get_or-replicate, all_written-range, splice-length, splice-whole,
  splice-marked, write_at-chunk,
}

write-Agrees :
    (src : List ℕ) (m : MemPiece) (now off len : ℕ)
    → IsChunk (length src) off len
    → Agrees src m
    → Agrees src (write_at m now (take len (drop off src)) off).0
write-Agrees src m now off len c a =
    let b = buffer m m.bytes in
    rw (write_at-chunk src m now off len a.buffer_length c) (record {
      sized = a.sized;
      buffer_length = splice-length src b off len a.buffer_length c;
      whole = λ h.
          let e : b ≡ src = ap (buffer m) (a.whole h) in
          ap some (splice-whole src b off len a.buffer_length c e);
      marked = λ k h m'.
          splice-marked src b off len a.buffer_length c m.written_blocks k h (a.marked k h) m';
    })

verify-Agrees :
    (src : List ℕ) (m : MemPiece) (now : ℕ)
    → m.bytes ≡ some src
    → Agrees src m
    → Agrees src (mark_complete m now)
unfolding mark_complete
verify-Agrees src m now e a = record {
  sized = a.sized;
  buffer_length = a.buffer_length;
  whole = λ h. e;
  marked = λ k h m'. let f : buffer m m.bytes ≡ src = ap (buffer m) e in ap (λ l. get_elem? l k) f;
}

accessed-Agrees :
    (src : List ℕ) (m : MemPiece) (now : ℕ)
    → Agrees src m
    → Agrees src (record m { accessed = now })
accessed-Agrees src m now a = record {
  sized = a.sized;
  buffer_length = a.buffer_length;
  whole = a.whole;
  marked = a.marked;
}

read_at-accessed :
    (m : MemPiece) (now len off : ℕ)
    → (read_at m now len off).0 ≡ record m { accessed = (read_at m now len off).0.accessed }
unfolding read_at
read_at-accessed m now len off = ground arith

read-Agrees :
    (src : List ℕ) (m : MemPiece) (now len off : ℕ)
    → Agrees src m
    → Agrees src (read_at m now len off).0
read-Agrees src m now len off a =
    subst (Agrees src) (sym (read_at-accessed m now len off)) (accessed-Agrees src m _ a)

release-Agrees : (src : List ℕ) (m : MemPiece) → Agrees src m → Agrees src (release_and_size m).0
unfolding release_and_size
release-Agrees src m a = record {
  sized = a.sized;
  buffer_length = length-replicate m.size 0 ∙ a.sized;
  whole = λ h. cc;
  marked = λ k h m'. cc;
}

load-Agrees :
    (src : List ℕ) (m : MemPiece) (now : ℕ) → Agrees src m → Agrees src (load_complete m now src).0
unfolding load_complete
load-Agrees src m now a = elim (Bool-cases (is_resident m.bytes)) [
  | inl e ↦ rw e a
  | inr e ↦
      rw e (record {
        sized = a.sized;
        buffer_length = refl;
        whole = λ h. refl;
        marked = λ k h m'. refl;
      })
]

Downloads-Agrees : (src : List ℕ) {m : MemPiece} → Downloads src m → Agrees src m
unfolding new_mem_piece
Downloads-Agrees src (Downloads.fresh id now) = record {
  sized = refl;
  buffer_length = length-replicate (length src) 0;
  whole = λ h. cc;
  marked = λ k h m'. cc (get_or-replicate ((length src + 16383) / block_size) (k / block_size));
}
Downloads-Agrees src (Downloads.write {m = m} now off len d c) =
    write-Agrees src m now off len c (Downloads-Agrees src d)
Downloads-Agrees src (Downloads.verify {m = m} now d e) =
    verify-Agrees src m now e (Downloads-Agrees src d)
Downloads-Agrees src (Downloads.read {m = m} now len off d) =
    read-Agrees src m now len off (Downloads-Agrees src d)
Downloads-Agrees src (Downloads.release {m = m} d) = release-Agrees src m (Downloads-Agrees src d)
Downloads-Agrees src (Downloads.load {m = m} now d) = load-Agrees src m now (Downloads-Agrees src d)

-- A range that is ready is resident, and the buffer holds the bytes of `src` there.
has_range-resident :
    (src : List ℕ) (m : MemPiece) (off len : ℕ)
    → Agrees src m
    → 0 < len
    → has_range m off len ≡ true
    → (b : List ℕ) × (m.bytes ≡ some b)
      × ((k : ℕ) → off ≤ k → k < off + len → k < length src → get_elem? b k ≡ get_elem? src k)
unfolding has_range
has_range-resident src m off len a pos h = elim (Option-cases m.bytes) [
  | inl e ↦ absurd (ground arith)
  | inr (b, e) ↦ (
    b,
    e,
    λ k lo hi top. elim (Bool-cases m.complete) [
      | inl done ↦ let same : b ≡ src = cc (a.whole done) in ap (λ l. get_elem? l k) same
      | inr partial ↦
          let n = suc ((off + len - 1) / block_size) - off / block_size in
          let all : all_written n (off / block_size) m.written_blocks ≡ true = ground arith in
          let one : get_or m.written_blocks (k / block_size) false ≡ true =
            all_written-range n (off / block_size) (k / block_size) m.written_blocks all
              (omega arith) (omega arith) in
          let f : buffer m m.bytes ≡ b = ap (buffer m) e in
          ap (λ l. get_elem? l k) (sym f) ∙ a.marked k top one
    ],
  )
]

-- What a reader gets: in every state of a piece whose content is `src`, a non-empty range inside the
-- piece that `HasRange` reports ready is read in full, without an error, and with the bytes of `src`.
pub read_at-ready :
    (src : List ℕ) {m : MemPiece} (now off len : ℕ)
    → Downloads src m
    → 0 < len
    → off + len ≤ length src
    → has_range m off len ≡ true
    → ((read_at m now len off).1 ≡ take len (drop off src)) × ((read_at m now len off).2 ≡ none)
unfolding read_at
read_at-ready src {m} now off len d pos inside h =
    let a = Downloads-Agrees src d in
    let (b, e, agree) = has_range-resident src m off len a pos h in
    let f : buffer m m.bytes ≡ b = ap (buffer m) e in
    let same : length b ≡ length src = ap length (sym f) ∙ a.buffer_length in
    let bytes : take len (drop off b) ≡ take len (drop off src) =
      slice_ext off len b src same (λ k lo hi. agree k lo hi (omega arith)) in
    let full : length (take len (drop off b)) ≡ len =
      omega (arith, length-take len (drop off b), length-drop off b) in
    let t : leb (length b) off ≡ false = ground arith in
    let u : ltb len len ≡ false = ground arith in rw (e, t) (bytes, rw (full, u))
