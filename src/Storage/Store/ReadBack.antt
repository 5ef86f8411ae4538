-- ===== src/Storage/Store/ReadBack.antt =====
-- A piece that was evicted from memory and is on disk can be read.
use mathlib.Core.Path.{subst}
use torrent_go.Prelude.{
  ℕ, ◌+◌, ◌*◌, ◌≤◌, ◌<◌, ◌≡◌, refl, sym, ap, ◌∙◌, true, false, not, ◌||◌, ltb, ◌==◌, if_both, inl,
  inr, ◌⊎◌, Option, none, some, List, length, take, drop, arith,
}
use torrent_go.Prelude.Assoc.{lookup}
use torrent_go.Prelude.Int.{pos, ◌+ℤ◌, ◌≤ℤ◌, int_laws}
use torrent_go.Storage.MemPiece.{
  MemPiece, new_mem_piece, load_complete, has_data, has_range, is_complete, read_at,
}
use torrent_go.Storage.MemPiece.Content.{read_at-ready}
use torrent_go.Storage.Disk.{DiskBacking, DiskError, has, read_piece}
use torrent_go.Storage.Window.{Geometry}
use torrent_go.Storage.Cache.{Cache, get_or_create, found_or_new}
use torrent_go.Storage.Cache.{protected}
use torrent_go.Storage.Cache.Accounting.{get_or_create-Keeps}
use torrent_go.Storage.Piece.{Hydrated, hydrate_if_needed, hydrate_from, load_read, is_ok}
use torrent_go.Storage.Piece.Balance.{hydrate-Adds}
use torrent_go.Storage.Piece.Parts.{get_or_create-lookup}
use torrent_go.Storage.Store.{Store}
use torrent_go.Storage.Store.Balance.{IsExact}
use torrent_go.Storage.Store.Reloaded.{
  created-Stays, IsReloaded, hydrate_from-IsReloaded, take_in-IsExact, reloaded-piece_at,
  still_there,
}
use torrent_go.Storage.Store.PieceRead.{reloaded, read_of, read_piece_at}
use torrent_go.Storage.Reader.Slices.{piece_bytes}
use torrent_go.Storage.Reader.Shared.{Sound, DiskSound, get_or_create-SoundAt, hydrate-SoundAt}

loaded-is_complete :
    (mp : MemPiece) (now : ℕ) (src : List ℕ)
    → has_data mp ≡ false
    → is_complete (load_complete mp now src).0 ≡ true
unfolding is_complete load_complete has_data
loaded-is_complete mp now src h = ground arith

new_piece-has_data : (id now size : ℕ) → has_data (new_mem_piece id now size) ≡ false
unfolding has_data new_mem_piece
new_piece-has_data id now size = refl

complete-has_range :
    (mp : MemPiece) (off len : ℕ) → is_complete mp ≡ true → has_range mp off len ≡ true
unfolding is_complete has_range
complete-has_range mp off len h = ground arith

missing :
    (c : Cache) (now idx size : ℕ)
    → lookup idx c.pieces ≡ none
    → has_data (get_or_create c now idx size).1 ≡ false
unfolding get_or_create
missing c now idx size e =
    if_both (λ (x : Cache × MemPiece). has_data x.1 ≡ false) c.closed
      (λ h. new_piece-has_data c.next_id now size)
      (λ h.
        ap (λ o. has_data (found_or_new o c now idx size).1) e
        ∙ new_piece-has_data c.next_id now size)

kept-disk : (c : Cache) (now idx size : ℕ) → (get_or_create c now idx size).0.disk ≡ c.disk
unfolding get_or_create
kept-disk c now idx size =
    if_both (λ (x : Cache × MemPiece). x.0.disk ≡ c.disk) c.closed (λ h. refl)
      (λ h. from (lookup idx c.pieces))
  where
    from : (o : Option MemPiece) → (found_or_new o c now idx size).0.disk ≡ c.disk
    from none = refl
    from (some mp) = refl

-- What a read of the disk that is complete installs.
load_read-is_complete :
    (got : List ℕ × Option DiskError) (c : Cache) (now idx : ℕ) (mp : MemPiece) (size : ℕ)
    → is_ok got.1 ≡ true
    → length got.0 ≡ size
    → has_data mp ≡ false
    → is_complete (load_read got c now idx mp size).piece ≡ true
load_read-is_complete got c now idx mp size fine full h =
    if_both (λ (x : Hydrated). is_complete x.piece ≡ true)
      (not (is_ok got.1) || not (length got.0 == size)) (λ k. absurd (ground arith))
      (λ k. loaded-is_complete mp now got.0 h)

module _ (g : Geometry) (file : List ℕ) where
  read_piece_full :
      (d : DiskBacking) (idx size : ℕ)
      → DiskSound g file (some d)
      → size ≡ length (piece_bytes g file idx)
      → has d idx ≡ true
      → (is_ok (read_piece true d idx size).1 ≡ true)
        × (length (read_piece true d idx size).0 ≡ size)
  unfolding read_piece
  read_piece_full d idx size s z h =
      let got = take size (drop (idx * d.piece_len) d.file) in
      let real = ap (λ n. take n (drop (idx * d.piece_len) d.file)) z ∙ s idx h in
      let full : length got ≡ size = ap length real ∙ sym z in
      if_both (λ (r : List ℕ × Option DiskError). (is_ok r.1 ≡ true) × (length r.0 ≡ size))
        (not (has d idx)) (λ k. absurd (ground arith))
        (λ k. (
          if_both (λ (x : Option DiskError). is_ok x ≡ true) (ltb (length got) size)
              (λ t. absurd (ground arith)) (λ t. refl),
          full,
        ))

  -- What is reloaded is complete.
  hydrated-is_complete :
      (c : Cache) (now idx size : ℕ) {d : DiskBacking}
      → Sound g file c
      → size ≡ length (piece_bytes g file idx)
      → lookup idx c.pieces ≡ none
      → c.closed ≡ false
      → c.disk ≡ some d
      → has d idx ≡ true
      → let got = get_or_create c now idx size in
        is_complete (hydrate_if_needed true got.0 now idx got.1 size).piece ≡ true
  unfolding hydrate_if_needed
  hydrated-is_complete c now idx size {d} s z e o b h =
      let got = get_or_create c now idx size in
      let (fine, full) = read_piece_full d idx size (subst (DiskSound g file) b s.on_disk) z h in
      let empty = missing c now idx size e in
      let (l, open') = get_or_create-lookup c now idx size o in
      ap (λ k. is_complete (hydrate_from got.0.disk (not k) got.0 now idx got.1 size).piece) open'
      ∙ ap (λ k. is_complete (hydrate_from k true got.0 now idx got.1 size).piece)
          (kept-disk c now idx size ∙ b)
      ∙ if_both (λ (x : Hydrated). is_complete x.piece ≡ true) (has_data got.1 || not (has d idx))
          (λ k. absurd (ground arith))
          (λ k.
            load_read-is_complete (read_piece true d idx size) got.0 now idx got.1 size fine full
              empty)

  -- A piece of an open torrent that is not in memory and is on disk is read back in full with the bytes
  -- of the torrent: no download is needed, and the eviction that the reload sets off spares the piece,
  -- if a reader protects the piece or the budget has room for it. The global account is exact, the disk
  -- holds the bytes of the pieces that it has, its read succeeds, and the range is inside the piece and
  -- not empty.
  pub evicted_read_back :
      (s : Store) (c : Cache) (hash now idx size len off : ℕ) {d : DiskBacking}
      → IsExact s
      → lookup hash s.caches ≡ some c
      → Sound g file c
      → size ≡ length (piece_bytes g file idx)
      → lookup idx c.pieces ≡ none
      → c.closed ≡ false
      → c.disk ≡ some d
      → has d idx ≡ true
      → (protected c idx ≡ true) ⊎ (s.global_filled +ℤ pos size ≤ℤ pos s.global_capacity)
      → 0 < len
      → off + len ≤ size
      → let r = read_piece_at true s hash now idx size len off in
        (r.content ≡ take len (drop off (piece_bytes g file idx))) × (r.err ≡ none)
  unfolding read_piece_at hydrate_if_needed
  evicted_read_back s c hash now idx size len off {d} x l sound z e o b h p some_ i =
      let got = get_or_create c now idx size in
      let (good, store) = x.caches_good hash c l in
      let (balanced, same_held) = get_or_create-Keeps c now idx size good in
      let (there, open') = get_or_create-lookup c now idx size o in
      let (sound', new) = get_or_create-SoundAt g file c now idx size z sound in
      let (kept, piece) = hydrate-SoundAt g file true got.0 now idx got.1 size z sound' new in
      let y = hydrate_if_needed true got.0 now idx got.1 size in
      let (balanced', sum) = hydrate-Adds true got.0 now idx got.1 size balanced open' there in
      let r : IsReloaded got.0 idx size y =
        hydrate_from-IsReloaded got.0.disk (not got.0.closed) got.0 now idx got.1 size open'
          there in
      let made = created-Stays c now idx size in
      let stored : y.cache.has_store ≡ true = r.stays.same_store ∙ made.same_store ∙ store in
      let safe : (protected y.cache idx ≡ true)
          ⊎ (s.global_filled +ℤ pos y.loaded ≤ℤ pos s.global_capacity) =
        elim p [
          | inl q ↦ inl (ap (λ f. f idx) (r.stays.same_protected ∙ made.same_protected) ∙ q)
          | inr q ↦ inr (omega (int_laws, q, r.few))
        ] in
      let exact =
        take_in-IsExact s hash c y l x (balanced', stored)
          (sum ∙ ap (λ n. n + y.loaded) same_held) in
      let stays = reloaded-piece_at s hash idx y exact stored r.here safe in
      let same = still_there (lookup hash (reloaded s hash y).caches) idx y.piece stays in
      let whole = hydrated-is_complete c now idx size {d = d} sound z e o b h in
      let good_read =
        read_at-ready (piece_bytes g file idx) now off len piece some_ (omega (arith, z, i))
          (complete-has_range y.piece off len whole) in
      subst
        (λ (k : Option Cache).
          let r = read_of k true s hash now idx size len off in
          (r.content ≡ take len (drop off (piece_bytes g file idx))) × (r.err ≡ none))
        (sym l)
        (subst
          (λ (m : MemPiece).
            let r = read_at m now len off in
            (r.1 ≡ take len (drop off (piece_bytes g file idx))) × (r.2 ≡ none))
          (sym same) good_read)
