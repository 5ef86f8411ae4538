-- ===== src/Storage/Piece/Balance.antt =====
-- The account of a cache under the client's calls.
use torrent_go.Prelude.{
  ℕ, ◌+◌, ◌≡◌, refl, sym, ap, ◌∙◌, Bool, true, false, not, ◌&&◌, ◌||◌, ltb, ◌==◌, inl, inr, if_both,
  Bool-cases, Option, none, some, List, length, arith,
}
use torrent_go.Prelude.Int.{pos}
use torrent_go.Prelude.Assoc.{lookup}
use torrent_go.Storage.MemPiece.{
  MemPiece, IoErr, write_at, mark_complete, has_data, snapshot, load_complete,
}
use torrent_go.Storage.Disk.{DiskBacking, has, read_piece}
use torrent_go.Storage.Cache.{Cache, get_or_create, update_filled}
use torrent_go.Storage.Cache.Accounting.{
  held, IsBalanced, Frees, mark_not_complete-Frees, get_or_create-Keeps,
}
use torrent_go.Storage.Piece.{
  put_back, is_ok, write, persist_snapshot, persist_if_disk, persist_to, hydrate_from, complete,
  clear_disk, uncomplete, Hydrated, hydrate_if_needed,
}
use torrent_go.Storage.Piece.Parts.{
  get_or_create-lookup, put_back-held, write_at-accounted, mark_complete-accounted,
  load_complete-accounted, put_back-parts, update_filled_open, update_filled_closed, Adds,
  raise-Adds, same-Adds, closed-get_or_create, put_back_closed,
}

-- A write into a balanced cache that is not short keeps it balanced: the cache holds more by what is
-- added to the global account.
pub write-Adds :
    (c : Cache) (now idx size : ℕ) (p : List ℕ) (off : ℕ)
    → IsBalanced c
    → (write c now idx size p off).err ≡ none
    → Adds c (write c now idx size p off).cache (write c now idx size p off).added
unfolding write
write-Adds c now idx size p off b e =
    let got = get_or_create c now idx size in
    let (bg, hg) = get_or_create-Keeps c now idx size b in
    let w = write_at got.1 now p off in
    let ok : is_ok w.2 ≡ true = rw e in
    let raised = update_filled (put_back got.0 idx w.0) w.1 in
    if_both {A = Cache × ℕ} (λ r. Adds c r.0 r.1) (is_ok w.2 && ltb 0 w.1)
      (λ h. elim (Bool-cases c.closed) [
        | inl k ↦
            let o = closed-get_or_create c now idx size k in
            rw (put_back_closed got.0 idx w.0 o, update_filled_closed got.0 w.1 o) (bg, omega arith)
        | inr k ↦
            let (l, o) = get_or_create-lookup c now idx size k in
            let (br, hr) =
              raise-Adds got.0 idx got.1 w.0 w.1 o bg l (write_at-accounted got.1 now p off) in
            (br, omega arith)
      ])
      (λ h. elim (Bool-cases c.closed) [
        | inl k ↦
            let o = closed-get_or_create c now idx size k in
            rw (put_back_closed got.0 idx w.0 o) (bg, omega arith)
        | inr k ↦
            let (l, o) = get_or_create-lookup c now idx size k in
            let zero_n : w.1 ≡ 0 = ground arith in
            let (br, hr) =
              same-Adds got.0 idx got.1 w.0 o bg l
                (omega (arith, write_at-accounted got.1 now p off)) in
            (br, omega arith)
      ])

-- A short write is booked by the piece and not by the cache: in a balanced open cache the pieces
-- then account for more bytes than the cache has filled, by the bytes that were written.
pub write_short-drift :
    (c : Cache) (now idx size : ℕ) (p : List ℕ) (off : ℕ) {x : IoErr}
    → IsBalanced c
    → c.closed ≡ false
    → (write c now idx size p off).err ≡ some x
    → let r = write c now idx size p off in
      (held r.cache ≡ held c + r.n) × (r.cache.filled ≡ c.filled) × (r.added ≡ 0)
unfolding write
write_short-drift c now idx size p off b o e =
    let got = get_or_create c now idx size in
    let (bg, hg) = get_or_create-Keeps c now idx size b in
    let (l, o') = get_or_create-lookup c now idx size o in
    let w = write_at got.1 now p off in
    let ok : is_ok w.2 ≡ false = rw e in
    let (d, o'', f) = put_back-parts got.0 idx w.0 o' bg in
    let sum : held (put_back got.0 idx w.0) ≡ held got.0 + w.1 =
      omega (arith, put_back-held got.0 idx got.1 w.0 o' l, write_at-accounted got.1 now p off) in
    rw ok (omega arith, f ∙ ap pos hg ∙ sym b.balance, refl)

-- A change of the disk backing only.
disk-Adds :
    (c d : Cache) (n : ℕ) (k : Option DiskBacking) → Adds c d n → Adds c (record d { disk = k }) n
disk-Adds c d n k a = (
  record { balance = a.0.balance; distinct = a.0.distinct; empty_closed = a.0.empty_closed },
  a.1,
)

disk-IsBalanced :
    (c : Cache) (k : Option DiskBacking) → IsBalanced c → IsBalanced (record c { disk = k })
disk-IsBalanced c k b = record {
  balance = b.balance;
  distinct = b.distinct;
  empty_closed = b.empty_closed;
}

snapshot-Adds :
    (o : Option (List ℕ)) (ok_data ok_map : Bool) (c d : Cache) (k : DiskBacking) (idx : ℕ)
    → Adds c d 0
    → Adds c (persist_snapshot o ok_data ok_map d k idx) 0
snapshot-Adds none ok_data ok_map c d k idx a = a
snapshot-Adds (some bytes) ok_data ok_map c d k idx a = disk-Adds c d 0 _ a

persist_to-Adds :
    (k : Option DiskBacking) (ok_data ok_map : Bool) (c d : Cache) (idx : ℕ) (mp : MemPiece)
    → Adds c d 0
    → Adds c (persist_to k ok_data ok_map d idx mp) 0
persist_to-Adds none ok_data ok_map c d idx mp a = a
persist_to-Adds (some k) ok_data ok_map c d idx mp a =
    if_both (λ (r : Cache). Adds c r 0) (has k idx) (λ h. a)
      (λ h. snapshot-Adds (snapshot mp) ok_data ok_map c d k idx a)

persist-Adds :
    (ok_data ok_map : Bool) (c d : Cache) (idx : ℕ) (mp : MemPiece)
    → Adds c d 0
    → Adds c (persist_if_disk ok_data ok_map d idx mp) 0
unfolding persist_if_disk
persist-Adds ok_data ok_map c d idx mp = persist_to-Adds d.disk ok_data ok_map c d idx mp

-- Marking a piece complete moves no bytes.
pub complete-Adds :
    (ok_data ok_map : Bool) (c : Cache) (now idx size : ℕ)
    → IsBalanced c
    → Adds c (complete ok_data ok_map c now idx size) 0
unfolding complete
complete-Adds ok_data ok_map c now idx size b =
    let got = get_or_create c now idx size in
    let (bg, hg) = get_or_create-Keeps c now idx size b in
    let mp = mark_complete got.1 now in
    persist-Adds ok_data ok_map c (put_back got.0 idx mp) idx mp (elim (Bool-cases c.closed) [
      | inl k ↦
          let o = closed-get_or_create c now idx size k in
          rw (put_back_closed got.0 idx mp o) (bg, omega arith)
      | inr k ↦
          let (l, o) = get_or_create-lookup c now idx size k in
          let (br, hr) = same-Adds got.0 idx got.1 mp o bg l (mark_complete-accounted got.1 now) in
          (br, omega arith)
    ])

-- A hash failure, in a balanced cache, gives back exactly what the piece had accounted: the cache
-- stays balanced and holds less by those bytes.
pub uncomplete-Frees :
    (ok_map : Bool) (c : Cache) (idx : ℕ) → IsBalanced c → Frees c (uncomplete ok_map c idx)
unfolding uncomplete clear_disk
uncomplete-Frees ok_map c idx b =
    let c' = clear_disk ok_map c idx in
    let f = mark_not_complete-Frees c' idx (disk-IsBalanced c _ b) in
    record {
      balanced = f.balanced;
      conserved = f.conserved;
      same_closed = f.same_closed;
      same_capacity = f.same_capacity;
      same_geometry = f.same_geometry;
      same_readers = f.same_readers;
      same_store = f.same_store;
    }

hydrate_from-Adds :
    (k : Option DiskBacking) (ok : Bool) (c : Cache) (now idx : ℕ) (mp : MemPiece) (size : ℕ)
    → IsBalanced c
    → c.closed ≡ false
    → lookup idx c.pieces ≡ some mp
    → let r = hydrate_from k ok c now idx mp size in Adds c r.cache r.loaded
hydrate_from-Adds none ok c now idx mp size b o l = (b, omega arith)
hydrate_from-Adds (some d) ok c now idx mp size b o l =
    let got = read_piece ok d idx size in
    let ld = load_complete mp now got.0 in
    let e = load_complete-accounted mp now got.0 in
    let raised = raise-Adds c idx mp ld.0 ld.1 o b l e in
    let (parts, open', f) = put_back-parts c idx ld.0 o b in
    let u = update_filled_open (put_back c idx ld.0) ld.1 open' in
    if_both (λ (r : Hydrated). Adds c r.cache r.loaded) (has_data mp || not (has d idx))
      (λ h. (b, omega arith))
      (λ h.
        if_both (λ (r : Hydrated). Adds c r.cache r.loaded)
          (not (is_ok got.1) || not (length got.0 == size)) (λ q. (b, omega arith))
          (λ q.
            if_both (λ (r : Cache). Adds c r ld.1) (ltb 0 ld.1)
              (λ pos_n.
                let n : (update_filled (put_back c idx ld.0) ld.1).1 ≡ ld.1 = ap (λ z. z.1) u in
                (raised.0, raised.1 ∙ ap (λ z. held c + z) n))
              (λ z.
                let zero_n : ld.1 ≡ 0 = ground arith in
                let same = same-Adds c idx mp ld.0 o b l (omega arith) in (same.0, omega arith))))

-- A reload keeps a balanced cache balanced and adds to it exactly the bytes that it installs, if the
-- cache is open and the piece is the one that its map holds.
pub hydrate-Adds :
    (ok : Bool) (c : Cache) (now idx : ℕ) (mp : MemPiece) (size : ℕ)
    → IsBalanced c
    → c.closed ≡ false
    → lookup idx c.pieces ≡ some mp
    → let r = hydrate_if_needed ok c now idx mp size in Adds c r.cache r.loaded
unfolding hydrate_if_needed
hydrate-Adds ok c now idx mp size = hydrate_from-Adds c.disk (ok && not c.closed) c now idx mp size
