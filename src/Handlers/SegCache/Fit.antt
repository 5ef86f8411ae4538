-- ===== src/Handlers/SegCache/Fit.antt =====
-- What `put` keeps: the longest run of recently used segments that fits.
use Prim.Native.String.{String}
use text.Mathlib.TextPositions.{eq_refl}
use mathlib.Core.Path.{subst}
use torrent_go.Prelude.{
  ℕ, zero, suc, ◌+◌, ◌-◌, ◌≤◌, ◌<◌, ◌≡◌, refl, sym, ap, ◌∙◌, ◌⊎◌, inl, inr, Bool, true, false, ◌&&◌,
  ltb, Option, none, some, List, [], ◌∷◌, length, take, get_elem?, arith, tests, if_both,
}
use torrent_go.Prelude.Int.{ℤ, pos, ◌+ℤ◌, ◌-ℤ◌, ltb_ℤ, int_laws}
use torrent_go.Prelude.TextMap.{lookup, erase, total, weight, Distinct, total-erase, erase_none}
use torrent_go.Handlers.SegCache.{
  SegCache, Entries, ensure, place, drop_back, evict, put, get, get_found, size_at,
}

-- The bytes of all entries.
abbrev pub bytes : Entries → ℕ
bytes es = total length es

-- The entries after a segment was placed in front of them, and none was dropped.
abbrev pub touched : Entries → String → List ℕ → Entries
touched es key data' = (key, data') ∷ erase key es

-- `kept` is the longest run from the front of `es` of at most `max` bytes, or one entry where the
-- first one is larger alone.
pub record IsLongestFit (max : ℕ) (es kept : Entries) : Type 0 where
  pub kept_length : ℕ
  pub is_front : kept ≡ take kept_length es
  pub in_range : (1 ≤ kept_length) × (kept_length ≤ length es)
  pub fits : (bytes kept ≤ max) ⊎ (kept_length ≡ 1)
  pub longest : (kept_length ≡ length es) ⊎ (max < bytes (take (suc kept_length) es))

length-take_le : (n : ℕ) (es : Entries) → n ≤ length es → length (take n es) ≡ n
length-take_le zero es h = refl
length-take_le (suc n) [] h = absurd (omega arith)
length-take_le (suc n) (e ∷ es) h = ap suc (length-take_le n es (omega arith))

take-take_le : (n m : ℕ) (es : Entries) → n ≤ m → take n (take m es) ≡ take n es
take-take_le zero m es h = refl
take-take_le (suc n) zero es h = absurd (omega arith)
take-take_le (suc n) (suc m) [] h = refl
take-take_le (suc n) (suc m) (e ∷ es) h = ap (λ t. e ∷ t) (take-take_le n m es (omega arith))

take_all : (es : Entries) → take (length es) es ≡ es
take_all [] = refl
take_all (e ∷ es) = ap (λ t. e ∷ t) (take_all es)

bytes-take-suc :
    (n : ℕ) (es : Entries)
    → suc n ≤ length es
    → bytes (take n es) + size_at (get_elem? (take (suc n) es) n) ≡ bytes (take (suc n) es)
bytes-take-suc n [] h = absurd (omega arith)
bytes-take-suc zero (e ∷ es) h = omega arith
bytes-take-suc (suc n) (e ∷ es) h = omega (arith, bytes-take-suc n es (omega arith))

pos_sub : (a b c : ℕ) → a + b ≡ c → pos c -ℤ pos b ≡ pos a
pos_sub a b c h = omega int_laws

-- A cache that holds the first `n` entries of `es`, with an exact count.
record Holds (es : Entries) (n : ℕ) (c : SegCache) : Type 0 where
  pub front : c.entries ≡ take n es
  pub counted : c.cur_bytes ≡ pos (bytes (take n es))
  pub within : n ≤ length es

drop_back-Holds :
    (es : Entries) (n : ℕ) (c : SegCache) → Holds es (suc n) c → Holds es n (drop_back c)
unfolding drop_back
drop_back-Holds es n c h =
    let l : length c.entries - 1 ≡ n =
      omega (arith, ap length h.front, length-take_le (suc n) es h.within) in
    record {
      front =
          ap (λ k. take k c.entries) l
          ∙ ap (take n) h.front
          ∙ take-take_le n (suc n) es (omega arith);
      counted =
          let step = bytes-take-suc n es h.within in
          let gone : size_at (get_elem? c.entries (length c.entries - 1))
              ≡ size_at (get_elem? (take (suc n) es) n) =
            ap (λ k. size_at (get_elem? c.entries k)) l
            ∙ ap (λ x. size_at (get_elem? x n)) h.front in
          ap (λ (z : ℤ). z -ℤ pos (size_at (get_elem? c.entries (length c.entries - 1)))) h.counted
          ∙ pos_sub (bytes (take n es)) _ (bytes (take (suc n) es)) (omega (arith, step, gone));
      within = omega (arith, h.within);
    }

over_budget : (max b : ℕ) (z : ℤ) → z ≡ pos b → ltb_ℤ (pos max) z ≡ true → max < b
over_budget max b z e h =
    let k : ltb_ℤ (pos max) (pos b) ≡ true = ap (ltb_ℤ (pos max)) (sym e) ∙ h in ground arith

in_budget : (max b : ℕ) (z : ℤ) → z ≡ pos b → ltb_ℤ (pos max) z ≡ false → b ≤ max
in_budget max b z e h =
    let k : ltb_ℤ (pos max) (pos b) ≡ false = ap (ltb_ℤ (pos max)) (sym e) ∙ h in ground arith

ltb-false : (a b : ℕ) → ltb a b ≡ false → b ≤ a
ltb-false a b h = ground arith

and_true : (a b : Bool) → (a && b) ≡ true → (a ≡ true) × (b ≡ true)
and_true a b h = ground arith

and_false : (a b : Bool) → (a && b) ≡ false → (a ≡ false) ⊎ (b ≡ false)
and_false a b h = ground arith

-- An exact count, and the longest run that fits.
abbrev Fitted : ℕ → Entries → SegCache → Type 0
Fitted max es c = IsLongestFit max es c.entries × (c.cur_bytes ≡ pos (bytes c.entries))

stopped :
    (es : Entries) (n max : ℕ) (c : SegCache)
    → Holds es (suc n) c
    → (bytes (take (suc n) es) ≤ max) ⊎ (n ≡ 0)
    → (suc n ≡ length es) ⊎ (max < bytes (take (suc (suc n)) es))
    → Fitted max es c
stopped es n max c h f l =
    let same = ap bytes h.front in
    (
      record {
        kept_length = suc n;
        is_front = h.front;
        in_range = (omega arith, h.within);
        fits = elim f [ inl le ↦ inl (omega (arith, same)) | inr z ↦ inr (ap suc z) ];
        longest = l;
      },
      h.counted ∙ ap pos (sym same),
    )

-- The loop with enough rounds ends by its test, with the longest run that fits.
evict-Fitted :
    (es : Entries) (n rounds : ℕ) (c : SegCache)
    → Holds es (suc n) c
    → n ≤ rounds
    → (suc n ≡ length es) ⊎ (c.max_bytes < bytes (take (suc (suc n)) es))
    → Fitted c.max_bytes es (evict rounds c)
unfolding evict drop_back
evict-Fitted es n zero c h r l = stopped es n c.max_bytes c h (inr (omega arith)) l
evict-Fitted es zero (suc rounds) c h r l =
    let count = ap length h.front ∙ length-take_le 1 es h.within in
    if_both (Fitted c.max_bytes es)
      (ltb_ℤ (pos c.max_bytes) c.cur_bytes && ltb 1 (length c.entries))
      (λ t.
        let more = (and_true (ltb_ℤ (pos c.max_bytes) c.cur_bytes) _ t).1 in
        absurd (omega (tests, count, more)))
      (λ t. stopped es zero c.max_bytes c h (inr refl) l)
evict-Fitted es (suc m) (suc rounds) c h r l =
    let count = ap length h.front ∙ length-take_le (suc (suc m)) es h.within in
    if_both (Fitted c.max_bytes es)
      (ltb_ℤ (pos c.max_bytes) c.cur_bytes && ltb 1 (length c.entries))
      (λ t.
        let over = (and_true _ (ltb 1 (length c.entries)) t).0 in
        evict-Fitted es m rounds (drop_back c) (drop_back-Holds es (suc m) c h) (omega arith)
          (inr (over_budget c.max_bytes _ c.cur_bytes h.counted over)))
      (λ t.
        stopped es (suc m) c.max_bytes c h
          (inl (elim (and_false _ (ltb 1 (length c.entries)) t) [
            | inl a ↦ in_budget c.max_bytes _ c.cur_bytes h.counted a
            | inr a ↦ absurd (omega (tests, count, ltb-false 1 (length c.entries) a))
          ]))
          l)

-- A count that is exact, and a key for each entry.
pub record IsExact (c : SegCache) : Type 0 where
  pub counted : c.cur_bytes ≡ pos (bytes c.entries)
  pub distinct : Distinct c.entries

pos_add : (a b c : ℕ) → a + b ≡ c → pos a +ℤ pos b ≡ pos c
pos_add a b c h = omega int_laws

pos_swap : (a b c d : ℕ) → d + c ≡ a + b → pos a +ℤ (pos b -ℤ pos c) ≡ pos d
pos_swap a b c d h = omega int_laws

place-touched :
    (o : Option (List ℕ)) (c : SegCache) (key : String) (data' : List ℕ)
    → lookup key c.entries ≡ o
    → IsExact c
    → (place o c key data').entries ≡ touched c.entries key data'
      × ((place o c key data').cur_bytes ≡ pos (bytes (touched c.entries key data')))
place-touched none c key data' e x =
    let same = erase_none key c.entries e in
    (
      ap (λ t. (key, data') ∷ t) (sym same),
      ap (λ (z : ℤ). z +ℤ pos (length data')) x.counted
          ∙ pos_add (bytes c.entries) (length data') _ (omega (arith, ap bytes same)),
    )
place-touched (some old) c key data' e x =
    let w : weight length (lookup key c.entries) ≡ length old = ap (weight length) e in
    (
      refl,
      ap (λ (z : ℤ). z +ℤ (pos (length data') -ℤ pos (length old))) x.counted
          ∙ pos_swap (bytes c.entries) (length data') (length old) _
              (omega (arith, w, total-erase length key c.entries)),
    )

place_limit :
    (o : Option (List ℕ)) (c : SegCache) (key : String) (data' : List ℕ)
    → (place o c key data').max_bytes ≡ c.max_bytes
place_limit none c key data' = refl
place_limit (some old) c key data' = refl

lookup_first :
    (key : String) (data' : List ℕ) (es : Entries) → lookup key ((key, data') ∷ es) ≡ some data'
lookup_first key data' es = rw (eq_refl key)

first_kept :
    (c : SegCache) (key : String) (data' : List ℕ) (kept : Entries) (max : ℕ)
    → IsLongestFit max (touched c.entries key data') kept
    → lookup key kept ≡ some data'
first_kept c key data' kept max f = first f.kept_length f.in_range.0 f.is_front
  where
    first :
        (n : ℕ) → 1 ≤ n → kept ≡ take n (touched c.entries key data') → lookup key kept ≡ some data'
    first zero h e = absurd (omega arith)
    first (suc n) h e = ap (lookup key) e ∙ lookup_first key data' (take n (erase key c.entries))

-- `put` keeps the longest run of the most recently used segments that fits the limit, with the new
-- segment first, whatever was in the cache; its count is then exact. The count is exact before.
pub put-IsLongestFit :
    (c : SegCache) (key : String) (data' : List ℕ)
    → IsExact c
    → IsLongestFit (ensure c).max_bytes (touched c.entries key data') (put c key data').entries
      × ((put c key data').cur_bytes ≡ pos (bytes (put c key data').entries))
unfolding put ensure
put-IsLongestFit c key data' x =
    let es = touched c.entries key data' in
    let placed = place (lookup key c.entries) (ensure c) key data' in
    let (front, counted) =
      place-touched (lookup key c.entries) (ensure c) key data' refl
        (record { counted = x.counted; distinct = x.distinct }) in
    subst (λ m. Fitted m es (evict (length placed.entries) placed))
      (place_limit (lookup key c.entries) (ensure c) key data')
      (evict-Fitted es (length (erase key c.entries)) (length placed.entries) placed
        (record {
          front = front ∙ sym (take_all es);
          counted = counted ∙ ap (λ t. pos (bytes t)) (sym (take_all es));
          within = omega arith;
        })
        (omega (arith, ap length front)) (inl refl))

-- What was just put is what the next `get` finds: the new segment is never the one that is dropped.
pub get-put :
    (c : SegCache) (key : String) (data' : List ℕ)
    → IsExact c
    → (get (put c key data') key).1 ≡ some data'
unfolding get
get-put c key data' x =
    let l = first_kept c key data' (put c key data').entries _ (put-IsLongestFit c key data' x).0 in
    ap (λ o. (get_found o (ensure (put c key data')) key).1) l
