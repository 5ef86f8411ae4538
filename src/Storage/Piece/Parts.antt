-- ===== src/Storage/Piece/Parts.antt =====
-- The account of a cache under the parts of the client's calls.
use torrent_go.Prelude.{
  ℕ, ◌+◌, ◌≡◌, refl, sym, ap, ◌∙◌, true, false, inl, inr, if_both, Option-cases, some, List, arith,
}
use torrent_go.Prelude.Int.{pos, ◌+ℤ◌, int_laws}
use torrent_go.Prelude.Assoc.{lookup, total-insert, Distinct, insert-Distinct, lookup-insert}
use torrent_go.Storage.MemPiece.{MemPiece, new_mem_piece, write_at, mark_complete, load_complete}
use torrent_go.Storage.Cache.{Cache, get_or_create, update_filled}
use torrent_go.Storage.Cache.Accounting.{held, IsBalanced}
use torrent_go.Storage.Piece.{put_back}

pub accounted_of : MemPiece → ℕ
accounted_of mp = mp.accounted

-- What `GetOrCreateMemPiece` hands out is what the map holds, if the cache is open.
pub get_or_create-lookup :
    (c : Cache) (now idx size : ℕ)
    → c.closed ≡ false
    → (lookup idx (get_or_create c now idx size).0.pieces ≡ some (get_or_create c now idx size).1)
      × ((get_or_create c now idx size).0.closed ≡ false)
unfolding get_or_create
get_or_create-lookup c now idx size o =
    if_both {A = Cache × MemPiece}
      (λ r. (lookup idx (r.0).pieces ≡ some r.1) × ((r.0).closed ≡ false)) c.closed
      (λ h. absurd (cc))
      (λ h. elim (Option-cases (lookup idx c.pieces)) [
        | inl e ↦
            rw e
              (lookup-insert idx idx (new_mem_piece c.next_id now size) c.pieces ∙ ground arith, o)
        | inr (mp, e) ↦ rw e (e, o)
      ])

-- Putting a piece back moves the sum by the change of what the piece has accounted.
pub put_back-held :
    (c : Cache) (idx : ℕ) (mp mp' : MemPiece)
    → c.closed ≡ false
    → lookup idx c.pieces ≡ some mp
    → held (put_back c idx mp') + mp.accounted ≡ held c + mp'.accounted
put_back-held c idx mp mp' o l =
    if_both (λ (r : Cache). held r + mp.accounted ≡ held c + mp'.accounted) c.closed
      (λ h. absurd (cc)) (λ h. rw l at (total-insert (λ mp. mp.accounted) idx mp' c.pieces))

pub write_at-accounted :
    (m : MemPiece) (now : ℕ) (p : List ℕ) (off : ℕ)
    → (write_at m now p off).0.accounted ≡ m.accounted + (write_at m now p off).1
unfolding write_at
write_at-accounted m now p off = ground arith

pub mark_complete-accounted :
    (m : MemPiece) (now : ℕ) → (mark_complete m now).accounted ≡ m.accounted
unfolding mark_complete
mark_complete-accounted m now = refl

pub load_complete-accounted :
    (m : MemPiece) (now : ℕ) (src : List ℕ)
    → (load_complete m now src).0.accounted ≡ m.accounted + (load_complete m now src).1
unfolding load_complete
load_complete-accounted m now src = ground arith

-- A cache whose map was put back, while its account was not touched.
pub put_back-parts :
    (c : Cache) (idx : ℕ) (mp : MemPiece)
    → c.closed ≡ false
    → IsBalanced c
    → Distinct (put_back c idx mp).pieces
      × ((put_back c idx mp).closed ≡ false)
      × ((put_back c idx mp).filled ≡ pos (held c))
put_back-parts c idx mp o b =
    if_both (λ (r : Cache). Distinct r.pieces × (r.closed ≡ false) × (r.filled ≡ pos (held c)))
      c.closed (λ h. absurd (cc)) (λ h. (insert-Distinct idx mp c.pieces b.distinct, o, b.balance))

pub update_filled_open :
    (c : Cache) (n : ℕ)
    → c.closed ≡ false
    → update_filled c n ≡ (record c { filled = c.filled +ℤ pos n }, n)
unfolding update_filled
update_filled_open c n o =
    if_both {A = Cache × ℕ} (λ r. r ≡ (record c { filled = c.filled +ℤ pos n }, n)) c.closed
      (λ h. absurd (cc)) (λ h. refl)

pub update_filled_closed : (c : Cache) (n : ℕ) → c.closed ≡ true → update_filled c n ≡ (c, 0)
unfolding update_filled
update_filled_closed c n o =
    if_both {A = Cache × ℕ} (λ r. r ≡ (c, 0)) c.closed (λ h. refl) (λ h. absurd (cc))

pub pos_add : (a b c : ℕ) → a + b ≡ c → pos a +ℤ pos b ≡ pos c
pos_add a b c h = omega int_laws

-- What an operation that adds bytes promises: the result is balanced, and the cache holds more by
-- exactly what is added to the global account.
abbrev pub Adds : Cache → Cache → ℕ → Type 0
Adds c d n = IsBalanced d × (held d ≡ held c + n)

-- The account is raised by what the piece has just accounted.
pub raise-Adds :
    (c : Cache) (idx : ℕ) (mp mp' : MemPiece) (n : ℕ)
    → c.closed ≡ false
    → IsBalanced c
    → lookup idx c.pieces ≡ some mp
    → mp'.accounted ≡ mp.accounted + n
    → Adds c (update_filled (put_back c idx mp') n).0 (update_filled (put_back c idx mp') n).1
raise-Adds c idx mp mp' n o b l e =
    let (d, o', f) = put_back-parts c idx mp' o b in
    let sum : held (put_back c idx mp') ≡ held c + n =
      omega (arith, put_back-held c idx mp mp' o l) in
    rw (update_filled_open (put_back c idx mp') n o') (
      record {
        balance = ap (λ z. z +ℤ pos n) f ∙ pos_add (held c) n _ (sym sum);
        distinct = d;
        empty_closed = λ h. absurd (cc);
      },
      sum,
    )

pub same-Adds :
    (c : Cache) (idx : ℕ) (mp mp' : MemPiece)
    → c.closed ≡ false
    → IsBalanced c
    → lookup idx c.pieces ≡ some mp
    → mp'.accounted ≡ mp.accounted
    → Adds c (put_back c idx mp') 0
same-Adds c idx mp mp' o b l e =
    let (d, o', f) = put_back-parts c idx mp' o b in
    let sum : held (put_back c idx mp') ≡ held c + 0 =
      omega (arith, put_back-held c idx mp mp' o l) in
    (
      record { balance = f ∙ ap pos (omega arith); distinct = d; empty_closed = λ h. absurd (cc) },
      sum,
    )

pub closed-get_or_create :
    (c : Cache) (now idx size : ℕ)
    → c.closed ≡ true
    → (get_or_create c now idx size).0.closed ≡ true
unfolding get_or_create
closed-get_or_create c now idx size o =
    if_both {A = Cache × MemPiece} (λ r. (r.0).closed ≡ true) c.closed (λ h. o) (λ h. absurd (cc))

pub put_back_closed :
    (c : Cache) (idx : ℕ) (mp : MemPiece) → c.closed ≡ true → put_back c idx mp ≡ c
put_back_closed c idx mp o = if_both (λ (r : Cache). r ≡ c) c.closed (λ h. refl) (λ h. absurd (cc))
