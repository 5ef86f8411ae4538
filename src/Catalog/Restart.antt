-- ===== src/Catalog/Restart.antt =====
-- The catalog over a restart: what is written is what is loaded.
use Prim.Native.String.{String}
use text.Mathlib.Text.{◌==◌}
use text.Mathlib.TextEquality.{eq_iff}
use torrent_go.Prelude.{
  ℕ, ◌≡◌, refl, ap, ◌∙◌, Bool, true, false, ◌&&◌, Bool-cases, if_both, if_false, inl, inr, Option,
  none, some, List, [], ◌∷◌, arith,
}
use torrent_go.Prelude.TextMap.{
  lookup, insert, erase, Distinct, lookup-insert, insert-Distinct, erase-Distinct, lookup-Absent,
}
use torrent_go.Catalog.{
  Entry, Entries, Catalog, bare, entry_or, values, load, loaded, decoded, new_persistent, persist,
  snapshot, write_snapshot, upsert_locked, upsert, get, set_pinned_locked, set_pinned,
  remove_locked, remove,
}

-- Each entry stands under its own hash, which is not empty.
abbrev pub Keyed : Entries → Type 0
Keyed [] = Unit {0}
Keyed ((k, e) ∷ m) = (e.hash ≡ k) × ((k == "") ≡ false) × Keyed m

abbrev or_else : Option Entry → Option Entry → Option Entry
or_else none o = o
or_else (some e) o = some e

lookup-load :
    (k : String) (m acc : Entries)
    → Keyed m
    → Distinct m
    → lookup k (load (values m) acc) ≡ or_else (lookup k m) (lookup k acc)
unfolding load
lookup-load k [] acc h d = refl
lookup-load k ((j, e) ∷ m) acc (own, full, h) d =
    let step : load (values ((j, e) ∷ m)) acc ≡ load (values m) (insert j e acc) =
      let t : (e.hash == "") ≡ false = ap (λ x. x == "") own ∙ full in
      ap (load (values m)) (if_false (e.hash == "") _ _ t ∙ ap (λ x. insert x e acc) own) in
    ap (lookup k) step
    ∙ lookup-load k m (insert j e acc) h d.1
    ∙ ground (arith, lookup-insert j k e acc, eq_iff j k, lookup-Absent j m d.0)

pub Keyed-insert :
    (k : String) (e : Entry) (m : Entries)
    → e.hash ≡ k
    → (k == "") ≡ false
    → Keyed m
    → Keyed (insert k e m)
Keyed-insert k e [] o f h = (o, f, tt)
Keyed-insert k e ((j, x) ∷ m) o f h = elim (Bool-cases (j == k)) [
  | inl q ↦ rw q (o, f, h.2)
  | inr q ↦ rw q (h.0, h.1, Keyed-insert k e m o f h.2)
]

pub Keyed-erase : (k : String) (m : Entries) → Keyed m → Keyed (erase k m)
Keyed-erase k [] h = tt
Keyed-erase k ((j, x) ∷ m) h = elim (Bool-cases (j == k)) [
  | inl q ↦ rw q h.2
  | inr q ↦ rw q (h.0, h.1, Keyed-erase k m h.2)
]

pub Keyed-lookup :
    (k : String) (m : Entries) (now : ℕ) → Keyed m → (entry_or (lookup k m) (bare k now)).hash ≡ k
Keyed-lookup k [] now h = refl
Keyed-lookup k ((j, e) ∷ m) now h = elim (Bool-cases (j == k)) [
  | inl q ↦ rw q (h.0 ∙ (eq_iff j k).0 q)
  | inr q ↦ rw q (Keyed-lookup k m now h.2)
]

-- The operations that change the catalog, with the time they run at.
pub data Call : Type 0 where
  upsert_call : ℕ → Entry → Call
  pin_call : ℕ → String → Bool → Call
  remove_call : String → Call

abbrev pub HasHash : Call → Type 0
HasHash (upsert_call now e) = (e.hash == "") ≡ false
HasHash (pin_call now hash pinned) = (hash == "") ≡ false
HasHash (remove_call hash) = Unit {0}

abbrev pub AllHaveHash : List Call → Type 0
AllHaveHash [] = Unit {0}
AllHaveHash (x ∷ xs) = HasHash x × AllHaveHash xs

module _ {File : Type 0} (encode : List Entry → File) (decode : File → Option (List Entry)) where
  unfoldable pub call : Call → Catalog File → Catalog File
  call (upsert_call now e) c = (upsert encode decode true now e c).0
  call (pin_call now hash pinned) c = (set_pinned encode decode true now hash pinned c).0
  call (remove_call hash) c = remove encode decode true hash c

  unfoldable pub calls : List Call → Catalog File → Catalog File
  calls [] c = c
  calls (x ∷ xs) c = calls xs (call x c)

  -- The file holds the entries.
  pub record IsSaved (c : Catalog File) : Type 0 where
    pub keyed : Keyed c.entries
    pub distinct : Distinct c.entries
    pub on_disk : c.persistent ≡ true
    pub written : c.file ≡ some (encode (values c.entries))

  pub persist-IsSaved :
      (c : Catalog File)
      → Keyed c.entries
      → Distinct c.entries
      → c.persistent ≡ true
      → IsSaved (persist encode decode true c)
  unfolding persist snapshot write_snapshot
  persist-IsSaved c k d p =
      if_both IsSaved (c.persistent && true)
        (λ h. record { keyed = k; distinct = d; on_disk = p; written = refl })
        (λ h. absurd (ground arith))

  pub call-IsSaved : (x : Call) (c : Catalog File) → HasHash x → IsSaved c → IsSaved (call x c)
  unfolding call upsert set_pinned remove upsert_locked set_pinned_locked remove_locked
  call-IsSaved (upsert_call now e) c h s =
      persist-IsSaved _
        (Keyed-insert e.hash _ c.entries (Keyed-lookup e.hash c.entries now s.keyed) h s.keyed)
        (insert-Distinct e.hash _ c.entries s.distinct) s.on_disk
  call-IsSaved (pin_call now hash pinned) c h s =
      persist-IsSaved _
        (Keyed-insert hash _ c.entries (Keyed-lookup hash c.entries now s.keyed) h s.keyed)
        (insert-Distinct hash _ c.entries s.distinct) s.on_disk
  call-IsSaved (remove_call hash) c h s =
      persist-IsSaved _ (Keyed-erase hash c.entries s.keyed)
        (erase-Distinct hash c.entries s.distinct) s.on_disk

  calls-IsSaved :
      (xs : List Call) (c : Catalog File) → AllHaveHash xs → IsSaved c → IsSaved (calls xs c)
  unfolding calls
  calls-IsSaved [] c h s = s
  calls-IsSaved (x ∷ xs) c h s = calls-IsSaved xs (call x c) h.1 (call-IsSaved x c h.0 s)

  or_none : (o : Option Entry) → or_else o none ≡ o
  or_none none = refl
  or_none (some e) = refl

  module _ (round_trip : (es : List Entry) → decode (encode es) ≡ some es) where
    -- What is loaded from the file is what was written there.
    pub restarted :
        (m : Entries) (file : Option File) (hash : String)
        → Keyed m
        → Distinct m
        → file ≡ some (encode (values m))
        → get encode decode (new_persistent encode decode true file) hash ≡ lookup hash m
    unfolding get new_persistent
    restarted m file hash k d w =
        ap (λ f. lookup hash (loaded (decoded encode decode f))) w
        ∙ ap (λ o. lookup hash (loaded o)) (round_trip (values m))
        ∙ lookup-load hash m [] k d
        ∙ or_none (lookup hash m)

    -- The catalog survives a restart when its calls come one at a time: whatever operations were made
    -- on a saved catalog, a lookup finds in the catalog that is loaded from the file what it finds in
    -- the one that was left. The hashes are not empty, the file can be written, and JSON decodes what
    -- it encoded.
    pub calls_keep_entries :
        (xs : List Call) (c : Catalog File) (hash : String)
        → AllHaveHash xs
        → IsSaved c
        → get encode decode (new_persistent encode decode true (calls xs c).file) hash
          ≡ get encode decode (calls xs c) hash
    unfolding get
    calls_keep_entries xs c hash h s =
        let t = calls-IsSaved xs c h s in
        restarted (calls xs c).entries (calls xs c).file hash t.keyed t.distinct t.written
