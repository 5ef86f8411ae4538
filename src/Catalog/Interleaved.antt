-- ===== src/Catalog/Interleaved.antt =====
-- Calls of the catalog that run at the same time: each changes the entries under the lock, takes a
-- snapshot under the lock, and writes it with no lock held.
use Prim.Native.String.{String}
use torrent_go.Catalog.{
  Entry, Catalog, snapshot, write_snapshot, new_persistent, persist, upsert_locked,
  set_pinned_locked, remove_locked, get,
}
use torrent_go.Catalog.Restart.{
  Keyed, Keyed-insert, Keyed-erase, Keyed-lookup, Call, upsert_call, pin_call, remove_call, HasHash,
  IsSaved, persist-IsSaved, restarted,
}
use torrent_go.Prelude.{
  ℕ, ◌≡◌, ◌≢◌, refl, ◌∙◌, true, if_both, ◌&&◌, Option, none, some, List, [], ◌∷◌, ◌++◌, get_elem?,
  arith,
}
use torrent_go.Prelude.TextMap.{lookup, Distinct, lookup-insert, insert-Distinct, erase-Distinct}
use text.Mathlib.TextPositions.{eq_refl}

-- What a call does between two points where it gives the lock up: its change, its snapshot, or the
-- write of the snapshot with that number.
pub data Step : Type 0 where
  change : Call → Step
  take_snapshot : Step
  write_back : ℕ → Step

abbrev pub ChangesHaveHash : List Step → Type 0
ChangesHaveHash [] = Unit
ChangesHaveHash (change x ∷ xs) = HasHash x × ChangesHaveHash xs
ChangesHaveHash (take_snapshot ∷ xs) = ChangesHaveHash xs
ChangesHaveHash (write_back i ∷ xs) = ChangesHaveHash xs

-- The catalog, and the snapshots of the calls that run.
pub record Running (File : Type 0) : Type 0 where
  pub catalog : Catalog File
  pub snapshots : List (List Entry)

module _ {File : Type 0} (encode : List Entry → File) (decode : File → Option (List Entry)) where
  unfoldable pub changed : Call → Catalog File → Catalog File
  changed (upsert_call now e) c = (upsert_locked encode decode now e c).0
  changed (pin_call now hash pinned) c = (set_pinned_locked encode decode now hash pinned c).0
  changed (remove_call hash) c = remove_locked encode decode hash c

  abbrev pub written_back : Option (List Entry) → Running File → Running File
  written_back none s = s
  written_back (some es) s = record s { catalog = write_snapshot encode decode true es s.catalog }

  unfoldable pub step : Step → Running File → Running File
  step (change x) s = record s { catalog = changed x s.catalog }
  step take_snapshot s = record s {
    snapshots = s.snapshots ++ (snapshot encode decode s.catalog ∷ []);
  }
  step (write_back i) s = written_back (get_elem? s.snapshots i) s

  unfoldable pub run : List Step → Running File → Running File
  run [] s = s
  run (x ∷ xs) s = run xs (step x s)

  -- The entries are in order, whatever the file holds.
  record IsKept (c : Catalog File) : Type 0 where
    keyed : Keyed c.entries
    distinct : Distinct c.entries
    on_disk : c.persistent ≡ true

  changed-IsKept : (x : Call) (c : Catalog File) → HasHash x → IsKept c → IsKept (changed x c)
  unfolding changed upsert_locked set_pinned_locked remove_locked
  changed-IsKept (upsert_call now e) c h k = record {
    keyed = Keyed-insert e.hash _ c.entries (Keyed-lookup e.hash c.entries now k.keyed) h k.keyed;
    distinct = insert-Distinct e.hash _ c.entries k.distinct;
    on_disk = k.on_disk;
  }
  changed-IsKept (pin_call now hash pinned) c h k = record {
    keyed = Keyed-insert hash _ c.entries (Keyed-lookup hash c.entries now k.keyed) h k.keyed;
    distinct = insert-Distinct hash _ c.entries k.distinct;
    on_disk = k.on_disk;
  }
  changed-IsKept (remove_call hash) c h k = record {
    keyed = Keyed-erase hash c.entries k.keyed;
    distinct = erase-Distinct hash c.entries k.distinct;
    on_disk = k.on_disk;
  }

  back-IsKept :
      (o : Option (List Entry)) (s : Running File)
      → IsKept s.catalog
      → IsKept (written_back o s).catalog
  unfolding write_snapshot
  back-IsKept none s k = k
  back-IsKept (some es) s k =
      if_both IsKept (s.catalog.persistent && true)
        (λ b. record { keyed = k.keyed; distinct = k.distinct; on_disk = k.on_disk }) (λ b. k)

  run-IsKept :
      (xs : List Step) (s : Running File)
      → ChangesHaveHash xs
      → IsKept s.catalog
      → IsKept (run xs s).catalog
  unfolding run step
  run-IsKept [] s h k = k
  run-IsKept (change x ∷ xs) s h k = run-IsKept xs _ h.1 (changed-IsKept x s.catalog h.0 k)
  run-IsKept (take_snapshot ∷ xs) s h k = run-IsKept xs _ h k
  run-IsKept (write_back i ∷ xs) s h k =
      run-IsKept xs _ h (back-IsKept (get_elem? s.snapshots i) s k)

  module _ (round_trip : (es : List Entry) → decode (encode es) ≡ some es) where
    -- The catalog survives a restart: in whatever order the changes, the snapshots and the writes of
    -- calls that run at the same time come on a saved catalog, after one more `persist` between whose
    -- snapshot and write nothing comes, a lookup finds in the catalog that is loaded from the file what
    -- it finds in the one that was left. The hashes are not empty, the last write succeeds, and JSON
    -- decodes what it encoded.
    pub restart_keeps_entries :
        (xs : List Step) (c : Catalog File) (hash : String)
        → ChangesHaveHash xs
        → IsSaved encode decode c
        → let left =
            persist encode decode true (run xs (record { catalog = c; snapshots = [] })).catalog in
          get encode decode (new_persistent encode decode true left.file) hash
          ≡ get encode decode left hash
    unfolding get
    restart_keeps_entries xs c hash h s =
        let k =
          run-IsKept xs (record { catalog = c; snapshots = [] }) h
            (record { keyed = s.keyed; distinct = s.distinct; on_disk = s.on_disk }) in
        let t = persist-IsSaved encode decode _ k.keyed k.distinct k.on_disk in
        restarted encode decode round_trip _ _ hash t.keyed t.distinct t.written

    -- A call that took its snapshot before another call's change, and writes it after that call has
    -- written its own, takes the entry out of the file: the catalog has it, and a restart does not.
    pub stale_write_forgets :
        (c : Catalog File) (now : ℕ) (e : Entry)
        → IsSaved encode decode c
        → lookup e.hash c.entries ≡ none
        → let left =
            (run
              (take_snapshot
                ∷ change (upsert_call now e)
                ∷ take_snapshot
                ∷ write_back 1
                ∷ write_back 0
                ∷ [])
              (record { catalog = c; snapshots = [] })).catalog in
          (get encode decode left e.hash ≢ none)
          × (get encode decode (new_persistent encode decode true left.file) e.hash ≡ none)
    unfolding get run step changed upsert_locked write_snapshot snapshot
    stale_write_forgets c now e s n =
        let new = (upsert_locked encode decode now e c).1 in
        let found : lookup e.hash (upsert_locked encode decode now e c).0.entries ≡ some new =
          lookup-insert e.hash e.hash new c.entries ∙ ground (arith, eq_refl e.hash) in
        rw s.on_disk (
          λ q. absurd (cc (found, q)),
          restarted encode decode round_trip c.entries _ e.hash s.keyed s.distinct refl ∙ n,
        )
