-- ===== src/Storage/Reader/Seek.antt =====
-- What a seek asks the torrent client for.
use native.Mathlib.Nat.{div-mul-le_self, le-div_iff_mul-le}
use mathlib.Core.Path.{subst}
use torrent_go.Prelude.{
  ℕ, zero, suc, ◌+◌, ◌-◌, ◌/◌, ◌≤◌, ◌<◌, ◌≡◌, refl, sym, ap, ◌∙◌, true, false, ◌==◌, if_both,
  if_true, inl, inr, Option, none, some, List, [], ◌∷◌, arith,
}
use torrent_go.Prelude.Int.{ℤ, pos, negsuc, ◌+ℤ◌, int_laws}
use torrent_go.Prelude.Assoc.{lookup}
use torrent_go.Storage.ReadClass.{playback, now}
use torrent_go.Storage.Window.{Reader, curr_piece, file_start_piece, file_end_piece}
use torrent_go.Storage.Window.Bounds.{Member}
use torrent_go.Storage.Priority.{update_priorities}
use torrent_go.Storage.Priority.Calls.{player_gets_now}
use torrent_go.Storage.Reader.{
  World, replace_reader, at_pos, file_priorities, SeekErr, Sought, seek, seek_to, seek_whence,
}

-- Where a seek goes, by its `whence`.
abbrev pub base : Reader → ℕ → ℤ
base r zero = pos 0
base r (suc zero) = pos r.pos
base r (suc (suc n)) = pos r.file_size

-- A seek that succeeded went to its target, and asked for the pieces from there on.
abbrev Landed : World → ℤ → Sought → Option SeekErr → Type 0
Landed w target s (some e) = Unit {0}
Landed w target s none =
    (pos s.world.reader.pos ≡ target)
    × (w.reader.closed ≡ false)
    × (s.world ≡ at_pos w s.world.reader.pos)
    × (s.calls ≡ file_priorities s.world.cache s.world.reader)

seek_to-Landed :
    (w : World) (target : ℤ)
    → w.reader.closed ≡ false
    → Landed w target (seek_to w target) (seek_to w target).err
seek_to-Landed w (negsuc n) o = tt
seek_to-Landed w (pos n) o = (refl, o, refl, refl)

from_zero : (z : ℤ) → z ≡ pos 0 +ℤ z
from_zero z = omega int_laws

whence-Landed :
    (w : World) (offset : ℤ) (whence : ℕ)
    → w.reader.closed ≡ false
    → let s = seek_whence w offset whence in Landed w (base w.reader whence +ℤ offset) s s.err
whence-Landed w offset zero o =
    subst (λ (z : ℤ). Landed w z (seek_to w offset) (seek_to w offset).err) (from_zero offset)
      (seek_to-Landed w offset o)
whence-Landed w offset (suc zero) o = seek_to-Landed w (pos w.reader.pos +ℤ offset) o
whence-Landed w offset (suc (suc zero)) o = seek_to-Landed w (pos w.reader.file_size +ℤ offset) o
whence-Landed w offset (suc (suc (suc n))) o = tt

seek-Landed :
    (w : World) (offset : ℤ) (whence : ℕ)
    → let s = seek w offset whence in Landed w (base w.reader whence +ℤ offset) s s.err
unfolding seek
seek-Landed w offset whence =
    if_both (λ (s : Sought). Landed w (base w.reader whence +ℤ offset) s s.err) w.reader.closed
      (λ c. tt) (λ c. whence-Landed w offset whence c)

pub div_mono : (a b n : ℕ) → 0 < n → a ≤ b → a / n ≤ b / n
div_mono a b n p h = let k = div-mul-le_self a n in (le-div_iff_mul-le p).1 (omega (arith, k, h))

replaced-Member :
    (r s : Reader) (rs : List Reader) → s.id ≡ r.id → Member r rs → Member s (replace_reader s rs)
replaced-Member r s [] e m = m
replaced-Member r s (x ∷ xs) e (inl q) =
    let same : (x.id == s.id) ≡ true =
      let k : x.id ≡ s.id = ap (λ (y : Reader). y.id) (sym q) ∙ sym e in ground arith in
    inl (sym (if_true (x.id == s.id) s x same))
replaced-Member r s (x ∷ xs) e (inr m) = inr (replaced-Member r s xs e m)

-- A seek that succeeds goes to the offset from its base, and if that is inside the file then the piece
-- there is asked for at the highest priority in the same call. The reader is a player's and registered with the
-- cache, and the torrent has the piece.
pub seek_gets_now :
    (w : World) (offset : ℤ) (whence : ℕ)
    → Member w.reader w.cache.readers
    → w.reader.class ≡ playback
    → w.cache.has_torrent ≡ true
    → 0 < w.cache.geometry.piece_len
    → (seek w offset whence).err ≡ none
    → (seek w offset whence).world.reader.pos < w.reader.file_size
    → curr_piece w.cache.geometry (seek w offset whence).world.reader < w.cache.geometry.piece_count
    → let s = seek w offset whence in
      (pos s.world.reader.pos ≡ base w.reader whence +ℤ offset)
      × (lookup (curr_piece w.cache.geometry s.world.reader) s.calls ≡ some now)
seek_gets_now w offset whence m c t l e inside has_piece =
    let s = seek w offset whence in
    let (lands, open_, world, asked) =
      subst (Landed w (base w.reader whence +ℤ offset) s) e (seek-Landed w offset whence) in
    let n = s.world.reader.pos in
    let g = w.cache.geometry in
    let r = record w.reader { pos = n } in
    let same : s.world.reader ≡ r = ap (λ (v : World). v.reader) world in
    let calls : s.calls ≡ file_priorities (at_pos w n).cache r =
      asked ∙ ap (λ (v : World). file_priorities v.cache v.reader) world in
    let piece = ap (curr_piece g) same in
    let readers = replace_reader r w.cache.readers in
    let fs = file_start_piece g r in
    let fe = file_end_piece g r in
    let lo : fs ≤ curr_piece g r =
      div_mono r.file_offset (r.file_offset + n) g.piece_len l (omega arith) in
    let hi : curr_piece g r ≤ fe =
      div_mono (r.file_offset + n) (r.file_offset + r.file_size - 1) g.piece_len l
        (omega (arith, inside)) in
    (
      lands,
      ap (λ k. lookup k s.calls) piece
          ∙ ap (lookup (curr_piece g r)) calls
          ∙ ap (λ b. lookup (curr_piece g r) (update_priorities b g readers fs fe)) t
          ∙ player_gets_now g r readers fs fe (replaced-Member w.reader r w.cache.readers refl m) c
              open_ lo hi (omega (arith, has_piece, piece)),
    )
