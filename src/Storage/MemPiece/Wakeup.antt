-- ===== src/Storage/MemPiece/Wakeup.antt =====
-- Readers that wait on a piece: `WaitRange` hands out the armed channel, `wake` closes it.
use torrent_go.Prelude.{ℕ, ◌<◌, ◌≡◌, refl, true, arith, some, List, length, ◌⊎◌, inl, inr}
use torrent_go.Storage.MemPiece.{
  MemPiece, buffer, read_at, write_at, mark_complete, release_and_size, load_complete, has_range,
  wait_range,
}

-- The calls that other goroutines may make on a piece while a reader waits.
pub data Op : Type 0 where
  read : (now len off : ℕ) → Op
  write : (now : ℕ) (p : List ℕ) (off : ℕ) → Op
  finish : (now : ℕ) → Op
  release : Op
  load : (now : ℕ) (src : List ℕ) → Op

unfoldable pub apply : Op → MemPiece → MemPiece
apply (read now len off) m = (read_at m now len off).0
apply (write now p off) m = (write_at m now p off).0
apply (finish now) m = mark_complete m now
apply release m = (release_and_size m).0
apply (load now src) m = (load_complete m now src).0

-- A write begins inside the piece.
abbrev pub Fits : Op → MemPiece → Type 0
Fits (write now p off) m = off < length (buffer m m.bytes)
Fits _ m = Unit {0}

-- Any calls, in any order.
pub data Runs (m : MemPiece) : MemPiece → Type 0 where
  here : Runs m m
  next : {t : MemPiece} → Runs m t → (o : Op) → Fits o t → Runs m (apply o t)

-- A call closes the armed channel, or changes nothing but the time of access.
apply-wakes :
    (o : Op) (m : MemPiece)
    → Fits o m
    → (m.notify < (apply o m).notify) ⊎ (apply o m ≡ record m { accessed = (apply o m).accessed })
unfolding apply read_at write_at mark_complete release_and_size load_complete
apply-wakes (read now len off) m h = inr (ground arith)
apply-wakes (write now p off) m h = ground arith
apply-wakes (finish now) m h = inl (omega arith)
apply-wakes release m h = inl (omega arith)
apply-wakes (load now src) m h = ground arith

-- While the channel `ch` of a waiter is armed, its piece has changed in nothing but access times.
Runs-armed :
    {m t : MemPiece} → Runs m t → (m.notify < t.notify) ⊎ (t ≡ record m { accessed = t.accessed })
Runs-armed here = inr refl
Runs-armed {m} (next {t = t} r o h) = step t (apply o t) (Runs-armed r) (apply-wakes o t h)
  where
    step :
        (t u : MemPiece)
        → (m.notify < t.notify) ⊎ (t ≡ record m { accessed = t.accessed })
        → (t.notify < u.notify) ⊎ (u ≡ record t { accessed = u.accessed })
        → (m.notify < u.notify) ⊎ (u ≡ record m { accessed = u.accessed })
    step t u p q = ground arith

has_range-accessed :
    (m : MemPiece) (a off len : ℕ)
    → has_range (record m { accessed = a }) off len ≡ has_range m off len
unfolding has_range
has_range-accessed m a off len = refl

-- No wakeup is lost: if a range was not available when `WaitRange` handed out the channel `ch`, and
-- is available after any calls by others whose writes begin inside the piece, then `ch` is closed.
pub no_lost_wakeup :
    {m t : MemPiece} (off len ch : ℕ)
    → wait_range m off len ≡ some ch
    → Runs m t
    → has_range t off len ≡ true
    → ch < t.notify
unfolding wait_range
no_lost_wakeup {m} {t} off len ch w r h =
    ground (arith, Runs-armed r, has_range-accessed m t.accessed off len)
