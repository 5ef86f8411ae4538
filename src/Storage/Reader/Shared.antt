-- ===== src/Storage/Reader/Shared.antt =====
-- A cache whose pieces are states of the download of one torrent, under what a reader does to it.
use torrent_go.Prelude.{
  ◌&&◌, ℕ, ◌*◌, ◌≡◌, refl, sym, ap, ◌∙◌, Bool, true, not, ◌||◌, ◌==◌, if◌then◌else◌, if_both,
  if_true, if_false, Bool-cases, inl, inr, Option, none, some, List, length, take, drop, ltb, arith,
}
use mathlib.Core.Path.{subst}
use torrent_go.Prelude.Assoc.{lookup, insert, lookup-insert}
use torrent_go.Storage.MemPiece.{MemPiece, new_mem_piece, load_complete, has_data}
use torrent_go.Storage.MemPiece.Chunk.{Downloads}
use torrent_go.Storage.Disk.{DiskBacking, DiskError, has, read_piece}
use torrent_go.Storage.Window.{Geometry}
use torrent_go.Storage.Cache.{Cache, get_or_create, found_or_new, update_filled}
use torrent_go.Storage.Piece.{put_back, Hydrated, hydrate_if_needed, hydrate_from, load_read, is_ok}
use torrent_go.Storage.Reader.Slices.{piece_bytes}

module _ (g : Geometry) (file : List ℕ) where
  -- A disk backing that has a piece has its bytes.
  abbrev pub DiskSound : Option DiskBacking → Type 0
  DiskSound none = Unit {0}
  DiskSound (some d) =
      (i : ℕ)
      → has d i ≡ true
      → take (length (piece_bytes g file i)) (drop (i * d.piece_len) d.file) ≡ piece_bytes g file i

  -- Each piece in the cache is a state of a download of its part of the torrent.
  pub record Sound (c : Cache) : Type 0 where
    pub shape : c.geometry ≡ g
    pub genuine :
        (i : ℕ) (mp : MemPiece) → lookup i c.pieces ≡ some mp → Downloads (piece_bytes g file i) mp
    pub on_disk : DiskSound c.disk

  -- A piece of a sound cache, and the cache.
  abbrev pub SoundAt : ℕ → Cache × MemPiece → Type 0
  SoundAt i (c, mp) = Sound c × Downloads (piece_bytes g file i) mp

  insert-genuine :
      (c : Cache) (idx : ℕ) (mp : MemPiece)
      → Sound c
      → Downloads (piece_bytes g file idx) mp
      → (i : ℕ) (x : MemPiece) → lookup i (insert idx mp c.pieces) ≡ some x
      → Downloads (piece_bytes g file i) x
  insert-genuine c idx mp s d i x e =
      let path : (if idx == i then some mp else lookup i c.pieces) ≡ some x =
        sym (lookup-insert idx i mp c.pieces) ∙ e in
      elim (Bool-cases (idx == i)) [
        | inr n ↦ s.genuine i x (sym (if_false (idx == i) (some mp) (lookup i c.pieces) n) ∙ path)
        | inl q ↦
            let same : mp ≡ x = cc (if_true (idx == i) (some mp) (lookup i c.pieces) q, path) in
            let own : idx ≡ i = ground arith in
            subst (λ k. Downloads (piece_bytes g file k) x) own
              (subst (Downloads (piece_bytes g file idx)) same d)
      ]

  found_or_new-SoundAt :
      (o : Option MemPiece) (c : Cache) (now idx size : ℕ)
      → lookup idx c.pieces ≡ o
      → size ≡ length (piece_bytes g file idx)
      → Sound c
      → SoundAt idx (found_or_new o c now idx size)
  found_or_new-SoundAt (some mp) c now idx size e z s = (s, s.genuine idx mp e)
  found_or_new-SoundAt none c now idx size e z s =
      let d =
        subst (λ n. Downloads (piece_bytes g file idx) (new_mem_piece c.next_id now n)) (sym z)
          (Downloads.fresh c.next_id now) in
      (
        record {
          shape = s.shape;
          genuine = insert-genuine c idx (new_mem_piece c.next_id now size) s d;
          on_disk = s.on_disk;
        },
        d,
      )

  pub get_or_create-SoundAt :
      (c : Cache) (now idx size : ℕ)
      → size ≡ length (piece_bytes g file idx)
      → Sound c
      → SoundAt idx (get_or_create c now idx size)
  unfolding get_or_create
  get_or_create-SoundAt c now idx size z s =
      if_both (SoundAt idx) c.closed
        (λ h. (
          record { shape = s.shape; genuine = s.genuine; on_disk = s.on_disk },
          subst (λ n. Downloads (piece_bytes g file idx) (new_mem_piece c.next_id now n)) (sym z)
              (Downloads.fresh c.next_id now),
        ))
        (λ h. found_or_new-SoundAt (lookup idx c.pieces) c now idx size refl z s)

  pub put_back-Sound :
      (c : Cache) (idx : ℕ) (mp : MemPiece)
      → Sound c
      → Downloads (piece_bytes g file idx) mp
      → Sound (put_back c idx mp)
  put_back-Sound c idx mp s d =
      if_both Sound c.closed (λ h. s)
        (λ h. record {
          shape = s.shape;
          genuine = insert-genuine c idx mp s d;
          on_disk = s.on_disk;
        })

  update_filled-Sound : (c : Cache) (n : ℕ) → Sound c → Sound (update_filled c n).0
  unfolding update_filled
  update_filled-Sound c n s =
      if_both (λ (u : Cache × ℕ). Sound u.0) c.closed (λ h. s)
        (λ h. record { shape = s.shape; genuine = s.genuine; on_disk = s.on_disk })

  -- A reload that is installed is the piece.
  load_read-SoundAt :
      (got : List ℕ × Option DiskError) (c : Cache) (now idx : ℕ) (mp : MemPiece) (size : ℕ)
      → (is_ok got.1 ≡ true → length got.0 ≡ size → got.0 ≡ piece_bytes g file idx)
      → Sound c
      → Downloads (piece_bytes g file idx) mp
      → let h = load_read got c now idx mp size in SoundAt idx (h.cache, h.piece)
  load_read-SoundAt got c now idx mp size real s d =
      if_both (λ (h : Hydrated). SoundAt idx (h.cache, h.piece))
        (not (is_ok got.1) || not (length got.0 == size)) (λ h. (s, d))
        (λ h.
          let src : got.0 ≡ piece_bytes g file idx = real (ground arith) (ground arith) in
          let l = load_complete mp now got.0 in
          let new : Downloads (piece_bytes g file idx) l.0 =
            subst (λ b. Downloads (piece_bytes g file idx) (load_complete mp now b).0) (sym src)
              (Downloads.load now d) in
          let back = put_back-Sound c idx l.0 s new in
          (
            if_both Sound (ltb 0 l.1) (λ t. update_filled-Sound (put_back c idx l.0) l.1 back)
                (λ t. back),
            new,
          ))

  read_piece-real :
      (ok : Bool) (d : DiskBacking) (idx size : ℕ)
      → DiskSound (some d)
      → size ≡ length (piece_bytes g file idx)
      → is_ok (read_piece ok d idx size).1 ≡ true
      → (read_piece ok d idx size).0 ≡ piece_bytes g file idx
  unfolding read_piece
  read_piece-real ok d idx size s z =
      if_both (λ (r : List ℕ × Option DiskError). is_ok r.1 ≡ true → r.0 ≡ piece_bytes g file idx)
        (not (has d idx)) (λ h e. absurd (cc))
        (λ h.
          if_both
            (λ (r : List ℕ × Option DiskError). is_ok r.1 ≡ true → r.0 ≡ piece_bytes g file idx)
            (not ok) (λ k e. absurd (cc))
            (λ k e. ap (λ n. take n (drop (idx * d.piece_len) d.file)) z ∙ s idx (ground arith)))

  hydrate_from-SoundAt :
      (o : Option DiskBacking) (ok : Bool) (c : Cache) (now idx : ℕ) (mp : MemPiece) (size : ℕ)
      → DiskSound o
      → size ≡ length (piece_bytes g file idx)
      → Sound c
      → Downloads (piece_bytes g file idx) mp
      → let h = hydrate_from o ok c now idx mp size in SoundAt idx (h.cache, h.piece)
  hydrate_from-SoundAt none ok c now idx mp size k z s d = (s, d)
  hydrate_from-SoundAt (some b) ok c now idx mp size k z s d =
      if_both (λ (h : Hydrated). SoundAt idx (h.cache, h.piece)) (has_data mp || not (has b idx))
        (λ h. (s, d))
        (λ h.
          load_read-SoundAt (read_piece ok b idx size) c now idx mp size
            (λ e l. read_piece-real ok b idx size k z e) s d)

  pub hydrate-SoundAt :
      (ok : Bool) (c : Cache) (now idx : ℕ) (mp : MemPiece) (size : ℕ)
      → size ≡ length (piece_bytes g file idx)
      → Sound c
      → Downloads (piece_bytes g file idx) mp
      → let h = hydrate_if_needed ok c now idx mp size in SoundAt idx (h.cache, h.piece)
  unfolding hydrate_if_needed
  hydrate-SoundAt ok c now idx mp size z s d =
      hydrate_from-SoundAt c.disk (ok && not c.closed) c now idx mp size s.on_disk z s d
