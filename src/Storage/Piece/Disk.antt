-- ===== src/Storage/Piece/Disk.antt =====
-- Disk mode: a piece that was persisted stays complete for the client when it is evicted from RAM.
use torrent_go.Prelude.{
  ℕ, zero, suc, ◌<◌, ◌≡◌, refl, ap, ◌∙◌, Bool, true, false, ◌&&◌, Option, none, some, List, [], ◌∷◌,
  length, get_or, set, length-set, if_both, if◌then◌else◌, Option-cases, ltb, inl, inr, arith,
}
use torrent_go.Prelude.Assoc.{lookup, Distinct}
use torrent_go.Storage.MemPiece.{MemPiece, mark_complete, snapshot}
use torrent_go.Storage.Disk.{DiskBacking, has, write_piece, save_bitmap, clear}
use torrent_go.Storage.Disk.Pieces.{get_or-set_same}
use torrent_go.Storage.Cache.{Cache, get_or_create, drop_piece, mark_not_complete}
use torrent_go.Storage.Cache.Evict.{drop_piece-lookup}
use torrent_go.Storage.Piece.{
  put_back, persist_to, persist_if_disk, complete, on_disk, resident_complete, piece_complete,
  clear_of, clear_disk, uncomplete,
}

save_bitmap-have : (ok : Bool) (d : DiskBacking) → (save_bitmap ok d).have ≡ d.have
unfolding save_bitmap
save_bitmap-have ok d = if_both (λ (r : DiskBacking). r.have ≡ d.have) ok (λ h. refl) (λ h. refl)

has-write_piece :
    (ok_map : Bool) (d : DiskBacking) (idx : ℕ) (p : List ℕ)
    → idx < length d.have
    → has (write_piece true ok_map d idx p).0 idx ≡ true
unfolding has write_piece
has-write_piece ok_map d idx p lt =
    let inside : ltb idx (length d.have) ≡ true = ground arith in
    let inside' : ltb idx (length (set d.have idx true)) ≡ true =
      ground (arith, length-set d.have idx true) in
    rw (save_bitmap-have ok_map _, inside, inside', get_or-set_same d.have idx lt) refl

drop_piece-disk : (c : Cache) (idx : ℕ) → (drop_piece c idx).0.disk ≡ c.disk
unfolding drop_piece
drop_piece-disk c idx = elim (Option-cases (lookup idx c.pieces)) [
  | inl e ↦ rw e refl
  | inr (mp, e) ↦ rw e refl
]

-- A complete resident piece is on disk after the attempt to persist it.
persist-on_disk :
    (k : DiskBacking) (ok_map : Bool) (c : Cache) (idx : ℕ) (mp : MemPiece) (bytes : List ℕ)
    → c.disk ≡ some k
    → idx < length k.have
    → snapshot mp ≡ some bytes
    → on_disk (persist_to (some k) true ok_map c idx mp).disk idx ≡ true
persist-on_disk k ok_map c idx mp bytes e lt s =
    if_both (λ (r : Cache). on_disk r.disk idx ≡ true) (has k idx)
      (λ h. let f : on_disk c.disk idx ≡ true = ap (λ o. on_disk o idx) e ∙ h in f)
      (λ h. rw s (has-write_piece ok_map k idx bytes lt))

mark_complete-snapshot :
    (m : MemPiece) (now : ℕ) (bytes : List ℕ)
    → m.bytes ≡ some bytes
    → snapshot (mark_complete m now) ≡ some bytes
unfolding snapshot mark_complete
mark_complete-snapshot m now bytes e = rw e refl

get_or_create_found :
    (c : Cache) (now idx size : ℕ) (mp : MemPiece)
    → c.closed ≡ false
    → lookup idx c.pieces ≡ some mp
    → get_or_create c now idx size ≡ (c, mp)
unfolding get_or_create
get_or_create_found c now idx size mp o l =
    if_both {A = Cache × MemPiece} (λ r. r ≡ (c, mp)) c.closed (λ h. absurd (cc)) (λ h. rw l refl)

put_back-disk : (c : Cache) (idx : ℕ) (mp : MemPiece) → (put_back c idx mp).disk ≡ c.disk
put_back-disk c idx mp = if_both (λ (r : Cache). r.disk ≡ c.disk) c.closed (λ h. refl) (λ h. refl)

piece_complete-on_disk :
    (c : Cache) (idx : ℕ) → on_disk c.disk idx ≡ true → piece_complete c idx ≡ true
unfolding piece_complete
piece_complete-on_disk c idx h =
    if_both (λ (b : Bool). b ≡ true) (resident_complete (lookup idx c.pieces)) (λ q. refl) (λ q. h)

-- In disk mode a piece that is marked complete while its bytes are resident, and whose bytes the
-- disk accepts, is still reported complete after it is dropped from RAM. The cache is open and the
-- piece is one of the torrent.
pub persisted_stays_complete :
    (c : Cache) (k : DiskBacking) (ok_map : Bool) (now idx size : ℕ) (mp : MemPiece)
    (bytes : List ℕ)
    → c.closed ≡ false
    → c.disk ≡ some k
    → idx < length k.have
    → lookup idx c.pieces ≡ some mp
    → mp.bytes ≡ some bytes
    → piece_complete (drop_piece (complete true ok_map c now idx size) idx).0 idx ≡ true
unfolding complete persist_if_disk
persisted_stays_complete c k ok_map now idx size mp bytes o e lt l b =
    let done = mark_complete mp now in
    let c' = put_back c idx done in
    let disk : c'.disk ≡ some k = put_back-disk c idx done ∙ e in
    let stored : on_disk (persist_to c'.disk true ok_map c' idx done).disk idx ≡ true =
      ap (λ o. on_disk (persist_to o true ok_map c' idx done).disk idx) disk
      ∙ persist-on_disk k ok_map c' idx done bytes disk lt
          (mark_complete-snapshot mp now bytes b) in
    rw (get_or_create_found c now idx size mp o l)
      (piece_complete-on_disk _ idx (ap (λ o. on_disk o idx) (drop_piece-disk _ idx) ∙ stored))

unset :
    (xs : List Bool) (i : ℕ)
    → (ltb i (length (set xs i false)) && get_or (set xs i false) i false) ≡ false
unset [] i = ground arith
unset (x ∷ xs) zero = ground arith
unset (x ∷ xs) (suc i) = ground (arith, unset xs i)

cleared :
    (ok_map : Bool) (o : Option DiskBacking) (idx : ℕ) → on_disk (clear_of ok_map o idx) idx ≡ false
unfolding clear has
cleared ok_map none idx = refl
cleared ok_map (some d) idx =
    if_both (λ (r : DiskBacking). (ltb idx (length r.have) && get_or r.have idx false) ≡ false)
      (ltb idx (length d.have) && get_or d.have idx false)
      (λ h.
        rw (save_bitmap-have ok_map (record d { have = set d.have idx false })) (unset d.have idx))
      (λ h. h)

-- After a hash failure the piece is complete neither in RAM nor on disk, so it is downloaded again.
-- The cache is open and its map has each index once.
pub uncomplete-piece_complete :
    (ok_map : Bool) (c : Cache) (idx : ℕ)
    → c.closed ≡ false
    → Distinct c.pieces
    → piece_complete (uncomplete ok_map c idx).0 idx ≡ false
unfolding uncomplete clear_disk mark_not_complete piece_complete
uncomplete-piece_complete ok_map c idx o d =
    let c' = record c { disk = clear_of ok_map c.disk idx } in
    let gone : lookup idx (drop_piece c' idx).0.pieces ≡ none =
      drop_piece-lookup c' idx idx d ∙ ground arith in
    let off : on_disk (drop_piece c' idx).0.disk idx ≡ false =
      ap (λ o. on_disk o idx) (drop_piece-disk c' idx) ∙ cleared ok_map c.disk idx in
    if_both {A = Cache × ℕ}
      (λ r.
        (if resident_complete (lookup idx r.0.pieces) then true else on_disk r.0.disk idx) ≡ false)
      c.closed (λ h. absurd (cc)) (λ h. rw gone off)
