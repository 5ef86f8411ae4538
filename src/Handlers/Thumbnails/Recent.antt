-- ===== src/Handlers/Thumbnails/Recent.antt =====
-- The order of a thumbnail cache is the order in which its keys were last used.
use Prim.Native.String.{String}
use text.Mathlib.Text.{◌==◌}
use text.Mathlib.TextEquality.{eq_iff}
use text.Mathlib.TextPositions.{eq_refl}
use torrent_go.Handlers.Thumbnails.{
  ThumbEntry, ThumbnailCache, new_thumbnail_cache, drop_key, remove, move_to_mru, get, get_found,
  set, make_room,
}
use torrent_go.Handlers.Thumbnails.Valid.{is_listed, is_some, IsValid, listed-drop_key, room_made}
use torrent_go.Handlers.Thumbnails.Runs.{
  Call, get_call, set_call, call, calls, call-IsValid, calls-IsValid, replaced, set-replaced,
}
use torrent_go.Prelude.{
  ℕ, suc, ◌+◌, ◌-◌, ◌≤◌, ◌<◌, ◌≡◌, ◌≢◌, ◌⊎◌, refl, sym, ap, ◌∙◌, true, false, ltb, leb,
  if◌then◌else◌, if_both, inl, inr, Bool-cases, Option-cases, Option, none, some, List, [], ◌∷◌,
  ◌++◌, arith,
}
use mathlib.Core.Path.{subst}
use torrent_go.Prelude.TextMap.{lookup, size}

abbrev touch : String → ℕ → (String → ℕ) → String → ℕ
touch key t used name = if key == name then t else used name

-- A key is used when its picture is found.
abbrev pub used_if : Option (List ℕ) → String → ℕ → (String → ℕ) → String → ℕ
used_if none key t used = used
used_if (some picture) key t used = touch key t used

-- Call number `t` uses its key if it sets a picture or gets one.
unfoldable pub noted : Call → ThumbnailCache → ℕ → (String → ℕ) → String → ℕ
noted (get_call now key) c t used = used_if (get c now key).1 key t used
noted (set_call now key picture) c t used = touch key t used

-- The number of the last call that used a key, in a run whose first call has the number `t`.
unfoldable pub last_uses : List Call → ThumbnailCache → ℕ → (String → ℕ) → String → ℕ
last_uses [] c t used = used
last_uses (x ∷ xs) c t used = last_uses xs (call x c) (suc t) (noted x c t used)

-- The number of the last call of a run on a new cache that used a key, from 1 on, or 0.
abbrev pub last_use : List Call → (max_size ttl : ℕ) → String → ℕ
last_use xs max_size ttl = last_uses xs (new_thumbnail_cache max_size ttl) 1 (λ key. 0)

module _ (used : String → ℕ) where
  abbrev After : ℕ → List String → Type 0
  After n [] = Unit
  After n (k ∷ ks) = (n < used k) × After n ks

  abbrev Before : ℕ → List String → Type 0
  Before t [] = Unit
  Before t (k ∷ ks) = (used k < t) × Before t ks

  abbrev OldestFirst : List String → Type 0
  OldestFirst [] = Unit
  OldestFirst (k ∷ ks) = After (used k) ks × OldestFirst ks

  After-drop_key :
      (n : ℕ) (key : String) (ks : List String) → After n ks → After n (drop_key key ks)
  unfolding drop_key
  After-drop_key n key [] a = tt
  After-drop_key n key (k ∷ ks) a =
      if_both (After n) (k == key) (λ c. a.1) (λ c. (a.0, After-drop_key n key ks a.1))

  Before-drop_key :
      (t : ℕ) (key : String) (ks : List String) → Before t ks → Before t (drop_key key ks)
  unfolding drop_key
  Before-drop_key t key [] a = tt
  Before-drop_key t key (k ∷ ks) a =
      if_both (Before t) (k == key) (λ c. a.1) (λ c. (a.0, Before-drop_key t key ks a.1))

  OldestFirst-drop_key :
      (key : String) (ks : List String) → OldestFirst ks → OldestFirst (drop_key key ks)
  unfolding drop_key
  OldestFirst-drop_key key [] a = tt
  OldestFirst-drop_key key (k ∷ ks) a =
      if_both OldestFirst (k == key) (λ c. a.1)
        (λ c. (After-drop_key (used k) key ks a.0, OldestFirst-drop_key key ks a.1))

  After-is_listed :
      (n : ℕ) (name : String) (ks : List String)
      → After n ks
      → is_listed name ks ≡ true
      → n < used name
  unfolding is_listed
  After-is_listed n name [] a h = absurd (cc)
  After-is_listed n name (k ∷ ks) a h = elim (Bool-cases (k == name)) [
    | inl e ↦ let same : k ≡ name = (eq_iff k name).0 e in rw (← same) a.0
    | inr e ↦ After-is_listed n name ks a.1 (ground arith)
  ]

  Before-later : (t : ℕ) (ks : List String) → Before t ks → Before (suc t) ks
  Before-later t [] b = tt
  Before-later t (k ∷ ks) b = (omega (arith, b.0), Before-later t ks b.1)

-- The order, before call number `t`.
record IsRecent (c : ThumbnailCache) (t : ℕ) (used : String → ℕ) : Type 0 where
  first : OldestFirst used c.order
  below : Before used t c.order

module _ (key : String) (t : ℕ) (used : String → ℕ) where
  touched_other :
      (k : String) (ks : List String)
      → is_listed key (k ∷ ks) ≡ false
      → (touch key t used k ≡ used k) × (is_listed key ks ≡ false)
  unfolding is_listed
  touched_other k ks n = (ground (arith, eq_iff key k, eq_iff k key), ground arith)

  touched_own : touch key t used key ≡ t
  touched_own = ground (arith, eq_refl key)

  touched-After :
      (n : ℕ) (ks : List String)
      → is_listed key ks ≡ false
      → n < t
      → After used n ks
      → After (touch key t used) n (ks ++ (key ∷ []))
  touched-After n [] u h a = (omega (arith, touched_own, h), tt)
  touched-After n (k ∷ ks) u h a =
      let (same, rest) = touched_other k ks u in
      (omega (arith, same, a.0), touched-After n ks rest h a.1)

  touched-Before :
      (ks : List String)
      → is_listed key ks ≡ false
      → Before used t ks
      → Before (touch key t used) (suc t) (ks ++ (key ∷ []))
  touched-Before [] u b = (omega (arith, touched_own), tt)
  touched-Before (k ∷ ks) u b =
      let (same, rest) = touched_other k ks u in
      (omega (arith, same, b.0), touched-Before ks rest b.1)

  touched-OldestFirst :
      (ks : List String)
      → is_listed key ks ≡ false
      → Before used t ks
      → OldestFirst used ks
      → OldestFirst (touch key t used) (ks ++ (key ∷ []))
  touched-OldestFirst [] u b o = (tt, tt)
  touched-OldestFirst (k ∷ ks) u b o =
      let (same, rest) = touched_other k ks u in
      (rw same (touched-After (used k) ks rest b.0 o.0), touched-OldestFirst ks rest b.1 o.1)

  -- The key goes to the end of an order that does not have it.
  appended-IsRecent :
      (c c' : ThumbnailCache)
      → is_listed key c.order ≡ false
      → c'.order ≡ c.order ++ (key ∷ [])
      → IsRecent c t used
      → IsRecent c' (suc t) (touch key t used)
  appended-IsRecent c c' u e r = record {
    first = rw e (touched-OldestFirst c.order u r.below r.first);
    below = rw e (touched-Before c.order u r.below);
  }

  remove-IsRecent :
      (c : ThumbnailCache) (k : String) → IsRecent c t used → IsRecent (remove k c) t used
  unfolding remove
  remove-IsRecent c k r = record {
    first = OldestFirst-drop_key used k c.order r.first;
    below = Before-drop_key used t k c.order r.below;
  }

  later-IsRecent : (c : ThumbnailCache) → IsRecent c t used → IsRecent c (suc t) used
  later-IsRecent c r = record { first = r.first; below = Before-later used t c.order r.below }

  move-IsRecent :
      (c : ThumbnailCache)
      → IsValid c
      → IsRecent c t used
      → IsRecent (move_to_mru key c) (suc t) (touch key t used)
  unfolding move_to_mru remove
  move-IsRecent c v r =
      appended-IsRecent (remove key c) _
        (listed-drop_key key key c.order v.unique ∙ ground (arith, eq_refl key)) refl
        (remove-IsRecent c key r)

  get-IsRecent :
      (o : Option ThumbEntry) (c : ThumbnailCache) (now : ℕ)
      → IsValid c
      → IsRecent c t used
      → let r = get_found o c now key in IsRecent r.0 (suc t) (used_if r.1 key t used)
  get-IsRecent none c now v r = later-IsRecent c r
  get-IsRecent (some e) c now v r =
      if_both
        (λ (x : ThumbnailCache × Option (List ℕ)). IsRecent x.0 (suc t) (used_if x.1 key t used))
        (ltb c.ttl (now - e.created_at))
        (λ b. later-IsRecent (remove key c) (remove-IsRecent c key r)) (λ b. move-IsRecent c v r)

  room-IsRecent :
      (order : List String) (c : ThumbnailCache)
      → IsRecent c t used
      → IsRecent (make_room order c) t used
  room-IsRecent [] c r = r
  room-IsRecent (k ∷ ks) c r =
      if_both (λ (x : ThumbnailCache). IsRecent x t used) (leb c.max_size (size c.items))
        (λ b. remove-IsRecent c k r) (λ b. r)

  set-IsRecent :
      (c : ThumbnailCache) (now : ℕ) (picture : List ℕ)
      → IsValid c
      → IsRecent c t used
      → IsRecent (set c now key picture) (suc t) (touch key t used)
  unfolding set move_to_mru
  set-IsRecent c now picture v r = elim (Option-cases (lookup key c.items)) [
    | inl n ↦
        let room = room_made c.order c key refl v n in
        rw n (
          appended-IsRecent (make_room c.order c) _ (room.valid.listed key ∙ ap is_some room.absent)
            refl (room-IsRecent c.order c r))
    | inr (x, n) ↦ let m = move-IsRecent c v r in rw n (record { first = m.first; below = m.below })
  ]

runs-OldestFirst :
    (xs : List Call) (c : ThumbnailCache) (t : ℕ) (used : String → ℕ)
    → IsValid c
    → IsRecent c t used
    → OldestFirst (last_uses xs c t used) (calls xs c).order
unfolding last_uses calls call noted get
runs-OldestFirst [] c t used v r = r.first
runs-OldestFirst (x ∷ xs) c t used v r =
    runs-OldestFirst xs (call x c) (suc t) (noted x c t used) (call-IsValid x c v) (step x)
  where
    step : (x : Call) → IsRecent (call x c) (suc t) (noted x c t used)
    step (get_call now key) = get-IsRecent key t used (lookup key c.items) c now v r
    step (set_call now key picture) = set-IsRecent key t used c now picture v r

-- After any run of calls of a new cache, a new picture in the full cache takes the place of the one
-- that was used longest ago: the key in front of the order was last used, that is set or found, before
-- every other key that the cache holds; it is dropped and every other key keeps its picture. Until its
-- time to live is over the new picture is found.
pub set-replaces_oldest :
    (xs : List Call) (max_size ttl : ℕ) (c : ThumbnailCache) (now now' : ℕ) (key oldest : String)
    (ks : List String) (picture : List ℕ)
    → calls xs (new_thumbnail_cache max_size ttl) ≡ c
    → lookup key c.items ≡ none
    → c.order ≡ oldest ∷ ks
    → c.max_size ≤ size c.items
    → now' ≤ now + c.ttl
    → ((name : String)
        → lookup name c.items ≢ none
        → (oldest ≡ name) ⊎ (last_use xs max_size ttl oldest < last_use xs max_size ttl name))
      × ((name : String)
          → lookup name (set c now key picture).items
            ≡ replaced key oldest
                (record { picture = picture; created_at = now })
                (lookup name c.items)
                name)
      × ((get (set c now key picture) now' key).1 ≡ some picture)
unfolding is_listed new_thumbnail_cache calls
set-replaces_oldest xs max_size ttl c now now' key oldest ks picture e n o full fresh =
    let start = new_thumbnail_cache max_size ttl in
    let used = last_use xs max_size ttl in
    let v : IsValid c = subst IsValid e (calls-IsValid xs max_size ttl) in
    let sorted : OldestFirst used (oldest ∷ ks) =
      subst (OldestFirst used) (ap (λ (r : ThumbnailCache). r.order) e ∙ o) (
        runs-OldestFirst xs start 1 (λ k. 0) (calls-IsValid [] max_size ttl)
          (record { first = tt; below = tt })) in
    let (kept, found) = set-replaced c now now' key oldest ks picture v n o full fresh in
    (
      λ name held. elim (Bool-cases (oldest == name)) [
        | inl same ↦ inl ((eq_iff oldest name).0 same)
        | inr other ↦
            let there : is_listed name (oldest ∷ ks) ≡ true =
              sym (ap (is_listed name) o) ∙ v.listed name ∙ some_held (lookup name c.items) held in
            inr (After-is_listed used (used oldest) name ks sorted.0 (ground arith))
      ],
      kept,
      found,
    )
  where
    some_held : (x : Option ThumbEntry) → x ≢ none → is_some x ≡ true
    some_held none h = absurd (h refl)
    some_held (some y) h = refl
