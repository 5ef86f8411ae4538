-- ===== src/Storage/MemPiece/Chunk.antt =====
-- What a write of one chunk does to the bytes and the marks of a piece.
use torrent_go.Prelude.{
  ℕ, zero, suc, ◌+◌, ◌-◌, ◌/◌, ◌%◌, ◌≤◌, ◌<◌, ◌≡◌, refl, ◌∙◌, ap, Bool, true, false, ltb, arith,
  min, none, some, List, [], ◌∷◌, length, ◌⊎◌, inl, inr, get_elem?, get_or, set, take, drop,
  replicate, length-take, length-drop, dec_lt, leb,
}
use torrent_go.Storage.MemPiece.{
  MemPiece, block_size, new_mem_piece, buffer, splice, mark_blocks, all_written, read_at, write_at,
  mark_complete, release_and_size, load_complete,
}
use torrent_go.Storage.MemPiece.Lists.{
  get_elem?-splice_inside, get_elem?-splice_below, get_elem?-splice_above, length-splice, ext,
  get_elem?-take, get_elem?-drop,
}

-- A block-aligned part of the piece, which ends at a block's end or at the piece's end.
pub record IsChunk (total off len : ℕ) : Type 0 where
  pub aligned : off % block_size ≡ 0
  pub some_bytes : 0 < len
  pub inside : off + len ≤ total
  pub ends : (len % block_size ≡ 0) ⊎ (off + len ≡ total)

-- The states of a piece whose content is `src`, if what is written is chunks of `src`, and if the
-- client marks a piece complete only when its resident bytes have passed the hash check.
pub data Downloads (src : List ℕ) : MemPiece → Type 0 where
  fresh : (id now : ℕ) → Downloads src (new_mem_piece id now (length src))
  write :
      {m : MemPiece} (now off len : ℕ)
      → Downloads src m
      → IsChunk (length src) off len
      → Downloads src (write_at m now (take len (drop off src)) off).0
  verify :
      {m : MemPiece} (now : ℕ)
      → Downloads src m
      → m.bytes ≡ some src
      → Downloads src (mark_complete m now)
  read :
      {m : MemPiece} (now len off : ℕ) → Downloads src m → Downloads src (read_at m now len off).0
  release : {m : MemPiece} → Downloads src m → Downloads src (release_and_size m).0
  load : {m : MemPiece} (now : ℕ) → Downloads src m → Downloads src (load_complete m now src).0

pub record Agrees (src : List ℕ) (m : MemPiece) : Type 0 where
  pub sized : m.size ≡ length src
  pub buffer_length : length (buffer m m.bytes) ≡ length src
  pub whole : m.complete ≡ true → m.bytes ≡ some src
  pub marked :
      (k : ℕ)
      → k < length src
      → get_or m.written_blocks (k / block_size) false ≡ true
      → get_elem? (buffer m m.bytes) k ≡ get_elem? src k

pub get_or-replicate : (n i : ℕ) → get_or (replicate n false) i false ≡ false
get_or-replicate zero i = refl
get_or-replicate (suc n) zero = refl
get_or-replicate (suc n) (suc i) = get_or-replicate n i

pub get_or-set :
    (bs : List Bool) (i j : ℕ)
    → get_or (set bs i true) j false ≡ true
    → (get_or bs j false ≡ true) ⊎ (j ≡ i)
get_or-set [] i j h = inl h
get_or-set (b ∷ bs) zero zero h = inr refl
get_or-set (b ∷ bs) zero (suc j) h = inl h
get_or-set (b ∷ bs) (suc i) zero h = inl h
get_or-set (b ∷ bs) (suc i) (suc j) h = ground (arith, get_or-set bs i j h)

-- Only blocks of the written range are marked.
pub mark_blocks-range :
    (n i j : ℕ) (bs : List Bool)
    → get_or (mark_blocks n i bs) j false ≡ true
    → (get_or bs j false ≡ true) ⊎ ((i ≤ j) × (j < i + n))
unfolding mark_blocks
mark_blocks-range zero i j bs h = inl h
mark_blocks-range (suc n) i j bs h =
    ground (arith, mark_blocks-range n (i + 1) j (set bs i true), get_or-set bs i j)

pub all_written-range :
    (n i j : ℕ) (bs : List Bool)
    → all_written n i bs ≡ true
    → i ≤ j
    → j < i + n
    → get_or bs j false ≡ true
unfolding all_written
all_written-range zero i j bs h lo hi = absurd (omega arith)
all_written-range (suc n) i j bs h lo hi = ground (arith, all_written-range n (i + 1) j bs)

-- A byte whose block a chunk marks lies in the chunk.
pub chunk-covers :
    (total off len k : ℕ)
    → IsChunk total off len
    → k < total
    → off / block_size ≤ k / block_size
    → k / block_size ≤ (off + len - 1) / block_size
    → (off ≤ k) × (k < off + len)
chunk-covers total off len k c h lo hi = omega arith

module _ (src b : List ℕ) (off len : ℕ) (same : length b ≡ length src)
    (c : IsChunk (length src) off len) where
  abbrev pub chunk : List ℕ
  chunk = take len (drop off src)

  pub length-chunk : length chunk ≡ len
  length-chunk = omega (arith, length-take len (drop off src), length-drop off src)

  -- Inside the chunk the buffer gets the bytes of `src`; outside it stays as it was.
  pub splice-inside :
      (k : ℕ) → off ≤ k → k < off + len → get_elem? (splice off len chunk b) k ≡ get_elem? src k
  splice-inside k lo hi =
      let e : off + (k - off) ≡ k = omega arith in
      get_elem?-splice_inside off len chunk b k (omega arith) (omega (arith, length-chunk)) lo hi
      ∙ get_elem?-take len (drop off src) (k - off) (omega arith)
      ∙ get_elem?-drop off src (k - off)
      ∙ ap (get_elem? src) e

  pub splice-agrees :
      (k : ℕ)
      → get_elem? b k ≡ get_elem? src k
      → get_elem? (splice off len chunk b) k ≡ get_elem? src k
  splice-agrees k h = elim (dec_lt k off) [
    | yes below ↦ get_elem?-splice_below off len chunk b k (omega arith) below ∙ h
    | no p ↦ elim (dec_lt k (off + len)) [
      | yes inside ↦ splice-inside k (omega arith) inside
      | no q ↦
          get_elem?-splice_above off len chunk b k (omega arith) (omega (arith, length-chunk))
            (omega arith)
          ∙ h
    ]
  ]

  pub splice-length : length (splice off len chunk b) ≡ length src
  splice-length = length-splice off len chunk b (omega arith) (omega (arith, length-chunk)) ∙ same

  pub splice-whole : b ≡ src → splice off len chunk b ≡ src
  splice-whole e =
      ext (splice off len chunk b) src splice-length
        (λ k p. splice-agrees k (ap (λ l. get_elem? l k) e))

  pub splice-marked :
      (w : List Bool) (k : ℕ)
      → k < length src
      → (get_or w (k / block_size) false ≡ true → get_elem? b k ≡ get_elem? src k)
      → get_or
          (mark_blocks (suc ((off + len - 1) / block_size) - off / block_size) (off / block_size) w)
          (k / block_size)
          false
        ≡ true
      → get_elem? (splice off len chunk b) k ≡ get_elem? src k
  splice-marked w k h old m =
      elim (mark_blocks-range (suc ((off + len - 1) / block_size) - off / block_size)
        (off / block_size) (k / block_size) w m) [
          | inl e ↦ splice-agrees k (old e)
          | inr (lo, hi) ↦
              let (a, z) = chunk-covers (length src) off len k c h lo (omega arith) in
              splice-inside k a z
        ]

-- A write of a chunk in closed form: it is never short.
pub write_at-chunk :
    (src : List ℕ) (m : MemPiece) (now off len : ℕ)
    → length (buffer m m.bytes) ≡ length src
    → IsChunk (length src) off len
    → write_at m now (take len (drop off src)) off ≡ (
      record m {
        accessed = now;
        bytes = some (splice off len (take len (drop off src)) (buffer m m.bytes));
        accounted = m.accounted + len;
        written_blocks =
            mark_blocks
              (suc ((off + len - 1) / block_size) - off / block_size)
              (off / block_size)
              m.written_blocks;
        notify = suc m.notify;
      },
      len,
      none,
    )
unfolding write_at
write_at-chunk src m now off len same c =
    let e : length (take len (drop off src)) ≡ len =
      length-chunk src (buffer m m.bytes) off len same c in
    let f : leb (length (buffer m m.bytes)) off ≡ false = ground arith in
    let g : min len (length (buffer m m.bytes) - off) ≡ len = omega arith in
    let l : ltb len len ≡ false = ground arith in simp (f, e, g, l)
