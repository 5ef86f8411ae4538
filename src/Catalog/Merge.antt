-- ===== src/Catalog/Merge.antt =====
-- What adding a torrent again keeps.
use Prim.Native.String.{String}
use text.Mathlib.Text.{◌==◌}
use text.Mathlib.TextEquality.{eq_iff}
use torrent_go.Prelude.{
  ℕ, ◌≡◌, refl, ap, ◌∙◌, inl, inr, Bool, true, false, if_both, if_true, if_false, ◌&&◌, Bool-cases,
  Option, none, some, List, [], ◌∷◌,
}
use torrent_go.Prelude.TextMap.{lookup, insert, lookup-insert}
use torrent_go.Catalog.{
  Entry, Catalog, bare, entry_or, merge, text_or, upsert, get, persist, is_pinned, is_pinned_of,
}

-- A text that is not empty stays so.
text_or_full : (new old : String) → (old == "") ≡ false → (text_or new old == "") ≡ false
text_or_full new old h = elim (Bool-cases (new == "")) [ inl e ↦ rw e h | inr e ↦ rw e e ]

module _ {File : Type 0} (encode : List Entry → File) (decode : File → Option (List Entry)) where
  -- Adding a torrent that the catalog knows keeps its pin and the time it was added at, and clears
  -- neither its source nor its title, poster or download mode, whatever the new metadata is.
  pub upsert_keeps :
      (ok : Bool) (now : ℕ) (new : Entry) (c : Catalog File) {old : Entry}
      → get encode decode c new.hash ≡ some old
      → let e = (upsert encode decode ok now new c).1 in
        (e.pinned ≡ old.pinned)
        × (e.added_at ≡ old.added_at)
        × ((old.source == "") ≡ false → (e.source == "") ≡ false)
        × ((old.title == "") ≡ false → (e.title == "") ≡ false)
        × ((old.poster == "") ≡ false → (e.poster == "") ≡ false)
        × ((old.download_mode == "") ≡ false → (e.download_mode == "") ≡ false)
  unfolding upsert get
  upsert_keeps ok now new c {old} e =
      let same : entry_or (lookup new.hash c.entries) (bare new.hash now) ≡ old =
        ap (λ o. entry_or o (bare new.hash now)) e in
      rw same (
        refl,
        refl,
        text_or_full new.source old.source,
        text_or_full new.title old.title,
        text_or_full new.poster old.poster,
        text_or_full new.download_mode old.download_mode,
      )

  unfoldable pub upserts : List (ℕ × Entry) → Catalog File → Catalog File
  upserts [] c = c
  upserts ((now, e) ∷ es) c = upserts es (upsert encode decode true now e c).0

  pub persist-entries :
      (ok : Bool) (c : Catalog File) → (persist encode decode ok c).entries ≡ c.entries
  unfolding persist
  persist-entries ok c =
      if_both (λ (d : Catalog File). d.entries ≡ c.entries) (c.persistent && ok) (λ h. refl)
        (λ h. refl)

  pinned_or :
      (o : Option Entry) (hash : String) (now : ℕ)
      → (entry_or o (bare hash now)).pinned ≡ is_pinned_of o
  pinned_or none hash now = refl
  pinned_or (some e) hash now = refl

  upsert-is_pinned :
      (now : ℕ) (new : Entry) (c : Catalog File) (hash : String)
      → is_pinned encode decode (upsert encode decode true now new c).0 hash
        ≡ is_pinned encode decode c hash
  unfolding is_pinned upsert
  upsert-is_pinned now new c hash =
      let e = merge (entry_or (lookup new.hash c.entries) (bare new.hash now)) new in
      ap (λ m. is_pinned_of (lookup hash m))
        (persist-entries true (record c { entries = insert new.hash e c.entries }))
      ∙ ap is_pinned_of (lookup-insert new.hash hash e c.entries)
      ∙ (elim (Bool-cases (new.hash == hash)) [
        | inr n ↦ ap is_pinned_of (if_false (new.hash == hash) (some e) _ n)
        | inl q ↦
            ap is_pinned_of (if_true (new.hash == hash) (some e) (lookup hash c.entries) q)
            ∙ pinned_or (lookup new.hash c.entries) new.hash now
            ∙ ap (λ h. is_pinned_of (lookup h c.entries)) ((eq_iff new.hash hash).0 q)
      ])

  -- However often torrents are added again, with whatever metadata, no torrent is pinned or unpinned by it.
  pub upserts-is_pinned :
      (es : List (ℕ × Entry)) (c : Catalog File) (hash : String)
      → is_pinned encode decode (upserts es c) hash ≡ is_pinned encode decode c hash
  unfolding upserts
  upserts-is_pinned [] c hash = refl
  upserts-is_pinned ((now, e) ∷ es) c hash =
      upserts-is_pinned es (upsert encode decode true now e c).0 hash
      ∙ upsert-is_pinned now e c hash
