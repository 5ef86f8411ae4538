-- ===== src/Handlers/Thumbnails/Valid.antt =====
-- The order of a thumbnail cache lists the keys of its map, each once, and its size is bounded.
use Prim.Native.String.{String}
use text.Mathlib.Text.{◌==◌}
use text.Mathlib.TextEquality.{eq_iff}
use text.Mathlib.TextPositions.{eq_refl}
use torrent_go.Handlers.Thumbnails.{
  ThumbEntry, ThumbnailCache, drop_key, remove, move_to_mru, get, set, make_room, put_new,
}
use torrent_go.Prelude.{
  ℕ, ◌-◌, ◌≤◌, ◌≡◌, refl, sym, ap, ◌∙◌, Bool, true, false, ◌||◌, ltb, leb, if◌then◌else◌, if_both,
  inl, inr, max, suc, Option-cases, Option, none, some, List, [], ◌∷◌, ◌++◌, arith,
}
use torrent_go.Prelude.TextMap.{
  lookup, insert, size, weight, Distinct, lookup-insert, lookup-erase, total-insert, total-erase,
  erase-Distinct, insert-Distinct,
}

unfoldable pub is_listed : String → List String → Bool
is_listed key [] = false
is_listed key (k ∷ ks) = k == key || is_listed key ks

abbrev pub AreUnique : List String → Type 0
AreUnique [] = Unit
AreUnique (k ∷ ks) = (is_listed k ks ≡ false) × AreUnique ks

abbrev pub is_some : {A : Type 0} → Option A → Bool
is_some none = false
is_some (some a) = true

pub record IsValid (c : ThumbnailCache) : Type 0 where
  pub listed : (key : String) → is_listed key c.order ≡ is_some (lookup key c.items)
  pub unique : AreUnique c.order
  pub distinct : Distinct c.items
  pub bounded : size c.items ≤ max 1 c.max_size

pub listed-drop_key :
    (key name : String) (ks : List String)
    → AreUnique ks
    → is_listed name (drop_key key ks) ≡ (if key == name then false else is_listed name ks)
unfolding is_listed drop_key
listed-drop_key key name [] u = ground arith
listed-drop_key key name (k ∷ ks) u =
    ground (arith, eq_iff k key, eq_iff k name, eq_iff key name, listed-drop_key key name ks u.1)

unique-drop_key : (key : String) (ks : List String) → AreUnique ks → AreUnique (drop_key key ks)
unfolding drop_key
unique-drop_key key [] u = tt
unique-drop_key key (k ∷ ks) u =
    if_both AreUnique (k == key) (λ c. u.1)
      (λ c. (
        listed-drop_key key k ks u.1 ∙ ground (arith, u.0, eq_iff key k, eq_iff k key),
        unique-drop_key key ks u.1,
      ))

listed-append :
    (key name : String) (ks : List String)
    → is_listed name (ks ++ (key ∷ [])) ≡ (if key == name then true else is_listed name ks)
unfolding is_listed
listed-append key name [] = ground arith
listed-append key name (k ∷ ks) = ground (arith, listed-append key name ks)

unique-append :
    (key : String) (ks : List String)
    → AreUnique ks
    → is_listed key ks ≡ false
    → AreUnique (ks ++ (key ∷ []))
unfolding is_listed
unique-append key [] u n = (refl, tt)
unique-append key (k ∷ ks) u n = (
  ground (arith, listed-append key k ks, eq_iff key k, eq_iff k key, u.0),
  unique-append key ks u.1 (ground arith),
)

remove-IsValid : (key : String) (c : ThumbnailCache) → IsValid c → IsValid (remove key c)
unfolding remove
remove-IsValid key c v = record {
  listed = λ name. ground (
    arith,
    listed-drop_key key name c.order v.unique,
    v.listed name,
    lookup-erase key name c.items v.distinct,
  );
  unique = unique-drop_key key c.order v.unique;
  distinct = erase-Distinct key c.items v.distinct;
  bounded = omega (arith, v.bounded, total-erase (λ (x : ThumbEntry). 1) key c.items);
}

-- The key in front, which is taken out, stands last.
moved-listed :
    (key name : String) (ks : List String)
    → AreUnique ks
    → is_listed name (drop_key key ks ++ (key ∷ []))
      ≡ (if key == name then true else is_listed name ks)
moved-listed key name ks u =
    ground (arith, listed-append key name (drop_key key ks), listed-drop_key key name ks u)

moved_unique :
    (key : String) (ks : List String) → AreUnique ks → AreUnique (drop_key key ks ++ (key ∷ []))
moved_unique key ks u =
    unique-append key (drop_key key ks) (unique-drop_key key ks u)
      (listed-drop_key key key ks u ∙ ground (arith, eq_refl key))

found_weight : (o : Option ThumbEntry) → is_some o ≡ true → weight (λ (x : ThumbEntry). 1) o ≡ 1
found_weight none h = cc
found_weight (some e) h = refl

missing : (o : Option ThumbEntry) → is_some o ≡ false → o ≡ none
missing none h = refl
missing (some e) h = cc

move-IsValid :
    (key : String) (c : ThumbnailCache)
    → IsValid c
    → is_some (lookup key c.items) ≡ true
    → IsValid (move_to_mru key c)
unfolding move_to_mru
move-IsValid key c v h = record {
  listed = λ name.
      moved-listed key name c.order v.unique ∙ ground (arith, eq_iff key name, v.listed name, h);
  unique = moved_unique key c.order v.unique;
  distinct = v.distinct;
  bounded = v.bounded;
}

pub get-IsValid :
    (c : ThumbnailCache) (now : ℕ) (key : String) → IsValid c → IsValid (get c now key).0
unfolding get
get-IsValid c now key v = elim (Option-cases (lookup key c.items)) [
  | inl e ↦ rw e v
  | inr (x, e) ↦
      let found : is_some (lookup key c.items) ≡ true = rw e refl in
      rw e (
        if_both (λ (r : ThumbnailCache × Option (List ℕ)). IsValid r.0)
          (ltb c.ttl (now - x.created_at)) (λ b. remove-IsValid key c v)
          (λ b. move-IsValid key c v found))
]

replace-IsValid :
    (c : ThumbnailCache) (key : String) (e : ThumbEntry)
    → IsValid c
    → is_some (lookup key c.items) ≡ true
    → IsValid (record c { items = insert key e c.items })
replace-IsValid c key e v h = record {
  listed =
      λ name. ground (arith, lookup-insert key name e c.items, eq_iff key name, v.listed name, h);
  unique = v.unique;
  distinct = insert-Distinct key e c.items v.distinct;
  bounded = omega (
    arith,
    v.bounded,
    total-insert (λ (x : ThumbEntry). 1) key e c.items,
    found_weight (lookup key c.items) h,
  );
}

-- With nothing in the order there is nothing in the map.
empty_size :
    (m : List (String × ThumbEntry)) → ((k : String) → is_some (lookup k m) ≡ false) → size m ≡ 0
empty_size [] h = refl
empty_size ((k, e) ∷ m) h = ground (arith, eq_refl k, h k)

pub record HasRoom (c : ThumbnailCache) (key : String) : Type 0 where
  pub valid : IsValid c
  pub absent : lookup key c.items ≡ none
  room : suc (size c.items) ≤ max 1 c.max_size

pub room_made :
    (order : List String) (c : ThumbnailCache) (key : String)
    → c.order ≡ order
    → IsValid c
    → lookup key c.items ≡ none
    → HasRoom (make_room order c) key
unfolding is_listed remove
room_made [] c key e v n =
    let none_left : (k : String) → is_some (lookup k c.items) ≡ false =
      λ k. sym (v.listed k) ∙ ap (is_listed k) e in
    record { valid = v; absent = n; room = omega (arith, empty_size c.items none_left) }
room_made (oldest ∷ ks) c key e v n =
    let held : is_some (lookup oldest c.items) ≡ true =
      sym (v.listed oldest) ∙ ap (is_listed oldest) e ∙ ground (arith, eq_refl oldest) in
    if_both (λ (r : ThumbnailCache). HasRoom r key) (leb c.max_size (size c.items))
      (λ full. record {
        valid = remove-IsValid oldest c v;
        absent = lookup-erase oldest key c.items v.distinct ∙ ground (arith, n);
        room = omega (
          arith,
          v.bounded,
          total-erase (λ (x : ThumbEntry). 1) oldest c.items,
          found_weight (lookup oldest c.items) held,
        );
      })
      (λ free. record { valid = v; absent = n; room = ground arith })

put_new-IsValid :
    (key : String) (e : ThumbEntry) (c : ThumbnailCache) → HasRoom c key → IsValid (put_new key e c)
put_new-IsValid key e c h =
    let v = h.valid in
    let absent : is_some (lookup key c.items) ≡ false = ap is_some h.absent in
    record {
      listed = λ name.
          listed-append key name c.order
          ∙ ground (arith, lookup-insert key name e c.items, eq_iff key name, v.listed name);
      unique = unique-append key c.order v.unique (v.listed key ∙ absent);
      distinct = insert-Distinct key e c.items v.distinct;
      bounded = omega (arith, h.room, total-insert (λ (x : ThumbEntry). 1) key e c.items);
    }

pub set-IsValid :
    (c : ThumbnailCache) (now : ℕ) (key : String) (picture : List ℕ)
    → IsValid c
    → IsValid (set c now key picture)
unfolding set
set-IsValid c now key picture v =
    let e : ThumbEntry = record { picture = picture; created_at = now } in
    elim (Option-cases (lookup key c.items)) [
      | inl n ↦
          rw n (put_new-IsValid key e (make_room c.order c) (room_made c.order c key refl v n))
      | inr (x, n) ↦
          let found : is_some (lookup key c.items) ≡ true = rw n refl in
          let there : is_some (lookup key (insert key e c.items)) ≡ true =
            ground (arith, lookup-insert key key e c.items, eq_refl key) in
          rw n (
            move-IsValid key (record c { items = insert key e c.items })
              (replace-IsValid c key e v found) there)
    ]
