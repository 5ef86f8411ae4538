-- ===== src/Storage/Disk/Pieces.antt =====
-- Pieces on disk: what is written survives a restart, and is what is read.
use mathlib.Core.List.{append-nil}
use native.Mathlib.Nat.{mul-le-mul_right}
use torrent_go.Prelude.{
  ℕ, zero, suc, ◌+◌, ◌-◌, ◌*◌, ◌≤◌, ◌<◌, ◌≡◌, refl, ap, ◌∙◌, ◌≢◌, ◌⊎◌, inl, inr, Bool, true, false,
  ltb, Bool-cases, none, some, List, [], ◌∷◌, ◌++◌, length, get_or, set, take, drop, arith, dec_lt,
  replicate, length-set, length-take, length-drop,
}
use torrent_go.Storage.MemPiece.Lists.{
  take_all, get_elem?-splice_inside, get_elem?-splice_below, get_elem?-splice_above, slice_ext,
  length-splice, get_elem?-drop, get_elem?-take, ext,
}
use torrent_go.Storage.Disk.{
  DiskBacking, write_file, write_piece, read_piece, save_bitmap, has, new_disk_backing, load_bitmap,
  pack,
}
use torrent_go.Storage.Disk.Bitmap.{unpack-pack}

-- A write inside the file overwrites a range.
write_file-splice :
    (f p : List ℕ) (off : ℕ)
    → off + length p ≤ length f
    → write_file f off p ≡ take off f ++ (take (length p) p ++ drop (off + length p) f)
write_file-splice f p off h =
    let z : off - length f ≡ 0 = omega arith in rw (z, take_all p, append-nil f) refl

module _ (f p : List ℕ) (off : ℕ) (h : off + length p ≤ length f) where
  length-write_file : length (write_file f off p) ≡ length f
  length-write_file =
      ap length (write_file-splice f p off h) ∙ length-splice off (length p) p f h (omega arith)

  -- The range that was written reads back.
  read_written : take (length p) (drop off (write_file f off p)) ≡ p
  read_written =
      ext (take (length p) (drop off (write_file f off p))) p
        (omega (
          arith,
          length-take (length p) (drop off (write_file f off p)),
          length-drop off (write_file f off p),
          length-write_file,
        ))
        (λ k lt.
          let inside : k < length p =
            omega (arith, length-take (length p) (drop off (write_file f off p))) in
          let back : off + k - off ≡ k = omega arith in
          get_elem?-take (length p) (drop off (write_file f off p)) k inside
          ∙ get_elem?-drop off (write_file f off p) k
          ∙ rw (write_file-splice f p off h) (
              get_elem?-splice_inside off (length p) p f (off + k) (omega arith) (omega arith)
                (omega arith) (omega arith)
              ∙ rw back))

  -- A range apart from it is as it was.
  read_apart :
      (at n : ℕ)
      → (at + n ≤ off) ⊎ (off + length p ≤ at)
      → take n (drop at (write_file f off p)) ≡ take n (drop at f)
  read_apart at n away = slice_ext at n (write_file f off p) f length-write_file (λ k lo hi.
      rw (write_file-splice f p off h) (elim away [
        | inl below ↦ get_elem?-splice_below off (length p) p f k (omega arith) (omega arith)
        | inr above ↦
            get_elem?-splice_above off (length p) p f k (omega arith) (omega arith) (omega arith)
      ]))

truncate_same : (n : ℕ) (f : List ℕ) → length f ≡ n → take n f ++ replicate (n - length f) 0 ≡ f
truncate_same n f e =
    let z : n - length f ≡ 0 = omega arith in rw (z, append-nil (take n f)) (rw (← e) (take_all f))

-- A disk backing with its file at full length and a mark for each piece.
pub record IsSound (total : ℕ) (d : DiskBacking) : Type 0 where
  pub file_length : length d.file ≡ total
  pub have_length : length d.have ≡ d.piece_count

pub write_piece-IsSound :
    (ok_data ok_map : Bool) (total : ℕ) (d : DiskBacking) (idx : ℕ) (p : List ℕ)
    → idx * d.piece_len + length p ≤ total
    → IsSound total d
    → IsSound total (write_piece ok_data ok_map d idx p).0
unfolding write_piece save_bitmap
write_piece-IsSound ok_data ok_map total d idx p h s = ground (
  arith,
  length-write_file d.file p (idx * d.piece_len) (omega arith),
  length-set d.have idx true,
)

-- Opening the files of a torrent again, after its bitmap was saved, gives back the whole state: the
-- same pieces are present, and the data file is as it was. The file has the torrent's length, and
-- there is a mark for each piece.
pub restart :
    (total : ℕ) (d : DiskBacking)
    → IsSound total d
    → new_disk_backing true d.file (save_bitmap true d).bitmap d.piece_len total d.piece_count
      ≡ some (save_bitmap true d)
unfolding new_disk_backing save_bitmap load_bitmap pack
restart total d s =
    rw (truncate_same total d.file s.file_length, unpack-pack d.piece_count d.have s.have_length)

pub get_or-set_same :
    (xs : List Bool) (i : ℕ) → i < length xs → get_or (set xs i true) i false ≡ true
get_or-set_same [] i h = absurd (omega arith)
get_or-set_same (x ∷ xs) zero h = refl
get_or-set_same (x ∷ xs) (suc i) h = get_or-set_same xs i (omega arith)

get_or-set_other :
    (xs : List Bool) (i j : ℕ) → i ≢ j → get_or (set xs i true) j false ≡ get_or xs j false
get_or-set_other [] i j h = refl
get_or-set_other (x ∷ xs) zero zero h = absurd (h refl)
get_or-set_other (x ∷ xs) zero (suc j) h = refl
get_or-set_other (x ∷ xs) (suc i) zero h = refl
get_or-set_other (x ∷ xs) (suc i) (suc j) h = get_or-set_other xs i j (λ e. h (ap suc e))

-- A piece that was written, with its bitmap, reads back in full.
read-write_piece :
    (total : ℕ) (d : DiskBacking) (idx : ℕ) (p : List ℕ)
    → IsSound total d
    → idx < d.piece_count
    → idx * d.piece_len + length p ≤ total
    → read_piece true (write_piece true true d idx p).0 idx (length p) ≡ (p, none)
unfolding read_piece write_piece save_bitmap has
read-write_piece total d idx p s lt h =
    let inside : ltb idx (length d.have) ≡ true = ground arith in
    let marked : get_or (set d.have idx true) idx false ≡ true =
      get_or-set_same d.have idx (omega arith) in
    let marked_inside : ltb idx (length (set d.have idx true)) ≡ true =
      ground (arith, length-set d.have idx true) in
    let bytes = read_written d.file p (idx * d.piece_len) (omega arith) in
    let full : ltb (length p) (length p) ≡ false = ground arith in
    rw (inside, marked, marked_inside, bytes) (rw full)

pieces_apart : (l i j m n : ℕ) → i ≢ j → m ≤ l → n ≤ l → (j * l + n ≤ i * l) ⊎ (i * l + m ≤ j * l)
pieces_apart l i j m n ne hm hn = elim (dec_lt j i) [
  | yes below ↦ let q : (j + 1) * l ≤ i * l = mul-le-mul_right l (omega arith) in inl (omega arith)
  | no above ↦ let q : (i + 1) * l ≤ j * l = mul-le-mul_right l (omega arith) in inr (omega arith)
]

-- And the other pieces read as before.
read-write_piece_apart :
    (total : ℕ) (d : DiskBacking) (idx j size : ℕ) (p : List ℕ)
    → IsSound total d
    → idx * d.piece_len + length p ≤ total
    → length p ≤ d.piece_len
    → size ≤ d.piece_len
    → idx ≢ j
    → read_piece true (write_piece true true d idx p).0 j size ≡ read_piece true d j size
unfolding read_piece write_piece save_bitmap has
read-write_piece_apart total d idx j size p s h short small ne =
    let bytes =
      read_apart d.file p (idx * d.piece_len) (omega arith) (j * d.piece_len) size
        (pieces_apart d.piece_len idx j (length p) size ne short small) in
    rw bytes (elim (Bool-cases (ltb idx (length d.have))) [
      | inl e ↦ rw (e, get_or-set_other d.have idx j ne, length-set d.have idx true) refl
      | inr e ↦ rw e refl
    ])

reopen_written :
    (total : ℕ) (d : DiskBacking) (idx : ℕ) (p : List ℕ)
    → IsSound total d
    → idx * d.piece_len + length p ≤ total
    → let d₁ = (write_piece true true d idx p).0 in
      new_disk_backing true d₁.file d₁.bitmap d₁.piece_len total d₁.piece_count ≡ some d₁
reopen_written total d idx p s h =
    let d₁ = (write_piece true true d idx p).0 in
    let saved : save_bitmap true d₁ ≡ d₁ = unfold write_piece save_bitmap pack in refl in
    let again = restart total d₁ (write_piece-IsSound true true total d idx p h s) in
    rw saved at again

-- A verified piece that was persisted survives a restart: opening the files again succeeds, the
-- piece reads back in full, and every other piece reads as it did before the write. The piece lies
-- inside the torrent, no piece is longer than the piece length, and the disk accepts the writes.
pub persist_survives :
    (total : ℕ) (d : DiskBacking) (idx : ℕ) (p : List ℕ)
    → IsSound total d
    → idx < d.piece_count
    → idx * d.piece_len + length p ≤ total
    → length p ≤ d.piece_len
    → let d₁ = (write_piece true true d idx p).0 in
      (d₂ : DiskBacking) × (new_disk_backing true d₁.file d₁.bitmap d₁.piece_len total
          d₁.piece_count
        ≡ some d₂)
      × (read_piece true d₂ idx (length p) ≡ (p, none))
      × ((j size : ℕ)
          → idx ≢ j
          → size ≤ d.piece_len
          → read_piece true d₂ j size ≡ read_piece true d j size)
persist_survives total d idx p s lt h short = (
  (write_piece true true d idx p).0,
  reopen_written total d idx p s h,
  read-write_piece total d idx p s lt h,
  λ j size ne small. read-write_piece_apart total d idx j size p s h short small ne,
)
