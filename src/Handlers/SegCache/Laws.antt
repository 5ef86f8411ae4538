-- ===== src/Handlers/SegCache/Laws.antt =====
-- Runs of the segment cache: its count stays exact, and a key stands for one segment.
use Prim.Native.String.{String}
use text.Mathlib.Text.{starts_with}
use text.Mathlib.TextEquality.{eq_iff}
use torrent_go.Prelude.{
  ℕ, zero, suc, ◌+◌, ◌≡◌, refl, sym, ap, ◌∙◌, inl, inr, Bool-cases, Option, none, some, List, [],
  ◌∷◌, length, take, arith,
}
use mathlib.Core.Path.{subst}
use text.Mathlib.TextPositions.{eq_refl}
use torrent_go.Prelude.Int.{ℤ, pos, ◌-ℤ◌, int_laws}
use torrent_go.Prelude.TextMap.{
  lookup, erase, weight, Absent, Distinct, total-erase, lookup-erase, erase-Distinct,
  erase-Absent_self,
}
use torrent_go.Handlers.SegCache.{
  SegCache, Entries, ensure, get, get_found, put, purge, purge_prefix,
}
use torrent_go.Handlers.SegCache.Fit.{bytes, touched, IsExact, put-IsLongestFit}

-- The calls of a cache.
pub data Call : Type 0 where
  get_call : String → Call
  put_call : String → List ℕ → Call
  purge_call : String → Call

unfoldable pub call : Call → SegCache → SegCache
call (get_call key) c = (get c key).0
call (put_call key data') c = put c key data'
call (purge_call prefix) c = purge_prefix c prefix

unfoldable pub calls : List Call → SegCache → SegCache
calls [] c = c
calls (x ∷ xs) c = calls xs (call x c)

take-Absent : (n : ℕ) (key : String) (es : Entries) → Absent key es → Absent key (take n es)
take-Absent zero key es a = tt
take-Absent (suc n) key [] a = tt
take-Absent (suc n) key (e ∷ es) a = (a.0, take-Absent n key es a.1)

take-Distinct : (n : ℕ) (es : Entries) → Distinct es → Distinct (take n es)
take-Distinct zero es d = tt
take-Distinct (suc n) [] d = tt
take-Distinct (suc n) (e ∷ es) d = (take-Absent n e.0 es d.0, take-Distinct n es d.1)

touched-Distinct :
    (es : Entries) (key : String) (data' : List ℕ) → Distinct es → Distinct (touched es key data')
touched-Distinct es key data' d = (erase-Absent_self key es d, erase-Distinct key es d)

put-IsExact : (c : SegCache) (key : String) (data' : List ℕ) → IsExact c → IsExact (put c key data')
put-IsExact c key data' x =
    let (f, counted) = put-IsLongestFit c key data' x in
    record {
      counted = counted;
      distinct =
          subst Distinct (sym f.is_front)
            (take-Distinct f.kept_length _ (touched-Distinct c.entries key data' x.distinct));
    }

get_found-IsExact :
    (o : Option (List ℕ)) (c : SegCache) (key : String)
    → lookup key c.entries ≡ o
    → IsExact c
    → IsExact (get_found o (ensure c) key).0
unfolding ensure
get_found-IsExact none c key e x = record { counted = x.counted; distinct = x.distinct }
get_found-IsExact (some old) c key e x =
    let w : weight length (lookup key c.entries) ≡ length old = ap (weight length) e in
    record {
      counted = x.counted ∙ ap pos (omega (arith, w, total-erase length key c.entries));
      distinct = touched-Distinct c.entries key old x.distinct;
    }

pos_sub : (a b c : ℕ) → a + b ≡ c → pos c -ℤ pos b ≡ pos a
pos_sub a b c h = omega int_laws

-- Each of these entries is in the map.
abbrev PresentIn : Entries → Entries → Type 0
PresentIn [] m = Unit {0}
PresentIn ((k, d) ∷ es) m = (lookup k m ≡ some d) × PresentIn es m

PresentIn-cons :
    (k : String) (d : List ℕ) (es m : Entries)
    → Absent k es
    → PresentIn es m
    → PresentIn es ((k, d) ∷ m)
PresentIn-cons k d [] m a p = tt
PresentIn-cons k d ((i, w) ∷ es) m a p =
    (ground (arith, eq_iff i k, eq_iff k i, p.0, a.0), PresentIn-cons k d es m a.1 p.1)

PresentIn-self : (es : Entries) → Distinct es → PresentIn es es
PresentIn-self [] d = tt
PresentIn-self ((k, v) ∷ es) d =
    (rw (eq_refl k), PresentIn-cons k v es es d.0 (PresentIn-self es d.1))

PresentIn-erase :
    (k : String) (es m : Entries)
    → Distinct m
    → Absent k es
    → PresentIn es m
    → PresentIn es (erase k m)
PresentIn-erase k [] m d a p = tt
PresentIn-erase k ((i, w) ∷ es) m d a p = (
  ground (arith, eq_iff i k, eq_iff k i, p.0, a.0, lookup-erase k i m d),
  PresentIn-erase k es m d a.1 p.1,
)

purge-IsExact :
    (prefix : String) (es : Entries) (c : SegCache)
    → Distinct es
    → PresentIn es c.entries
    → IsExact c
    → IsExact (purge prefix es c)
unfolding purge
purge-IsExact prefix [] c d p x = x
purge-IsExact prefix ((key, data') ∷ es) c d p x = elim (Bool-cases (starts_with key prefix)) [
  | inr h ↦ rw h (purge-IsExact prefix es c d.1 p.1 x)
  | inl h ↦
      let w : weight length (lookup key c.entries) ≡ length data' = ap (weight length) p.0 in
      rw h (
        purge-IsExact prefix es _ d.1 (PresentIn-erase key es c.entries x.distinct d.0 p.1)
          (record {
            counted =
                ap (λ (z : ℤ). z -ℤ pos (length data')) x.counted
                ∙ pos_sub _ (length data') (bytes c.entries)
                    (omega (arith, w, total-erase length key c.entries));
            distinct = erase-Distinct key c.entries x.distinct;
          }))
]

call-IsExact : (x : Call) (c : SegCache) → IsExact c → IsExact (call x c)
unfolding call get purge_prefix ensure
call-IsExact (get_call key) c e = get_found-IsExact (lookup key c.entries) c key refl e
call-IsExact (put_call key data') c e = put-IsExact c key data' e
call-IsExact (purge_call prefix) c e =
    purge-IsExact prefix c.entries _ e.distinct (PresentIn-self c.entries e.distinct)
      (record { counted = e.counted; distinct = e.distinct })

-- Whatever calls are made, `curBytes` is the sum of the sizes of the segments in the cache, and each
-- key stands for one segment, if that held before.
pub calls-IsExact : (xs : List Call) (c : SegCache) → IsExact c → IsExact (calls xs c)
unfolding calls
calls-IsExact [] c e = e
calls-IsExact (x ∷ xs) c e = calls-IsExact xs (call x c) (call-IsExact x c e)
