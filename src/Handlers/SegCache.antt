-- ===== src/Handlers/SegCache.antt =====
-- handlers/hlscache.go `segCache`: the produced HLS segments, least recently used dropped first.
--
-- The list and the map of the source hold the same entries and change together, so the model keeps
-- the list, most recently used first, and looks a key up in it. A segment is a list of bytes.
pub mod Fit
pub mod Laws
use Prim.Native.String.{String}
use text.Mathlib.Text.{◌==◌, starts_with}
use torrent_go.Prelude.{
  ℕ, zero, suc, ◌+◌, ◌-◌, ◌*◌, ◌^◌, Bool, true, false, ◌&&◌, ltb, if◌then◌else◌, Option, none, some,
  List, [], ◌∷◌, length, take, get_elem?,
}
use torrent_go.Prelude.Int.{ℤ, pos, ◌+ℤ◌, ◌-ℤ◌, ltb_ℤ}
use torrent_go.Prelude.TextMap.{lookup, erase}

abbrev pub Entries : Type 0
Entries = List (String × List ℕ)

pub record SegCache : Type 0 where
  pub max_bytes : ℕ
  pub cur_bytes : ℤ
  pub entries : Entries

abbrev pub default_bytes : ℕ
default_bytes = 512 * 2 ^ 20

-- The size of what is found under a key.
abbrev pub size_of : Option (List ℕ) → ℕ
size_of none = 0
size_of (some data') = length data'

-- `ensure`: a limit of 0 is the default one.
abbrev limit_of : ℕ → ℕ
limit_of zero = default_bytes
limit_of (suc n) = suc n

unfoldable pub ensure : SegCache → SegCache
ensure c = record c { max_bytes = limit_of c.max_bytes }

abbrev pub get_found : Option (List ℕ) → SegCache → String → SegCache × Option (List ℕ)
get_found none c key = (c, none)
get_found (some data') c key =
    (record c { entries = (key, data') ∷ erase key c.entries }, some data')

unfoldable pub get : SegCache → String → SegCache × Option (List ℕ)
get c key = get_found (lookup key c.entries) (ensure c) key

-- The new segment in front, before anything is dropped.
abbrev pub place : Option (List ℕ) → SegCache → String → List ℕ → SegCache
place none c key data' = record c {
  cur_bytes = c.cur_bytes +ℤ pos (length data');
  entries = (key, data') ∷ c.entries;
}
place (some old) c key data' = record c {
  cur_bytes = c.cur_bytes +ℤ (pos (length data') -ℤ pos (length old));
  entries = (key, data') ∷ erase key c.entries;
}

abbrev pub size_at : Option (String × List ℕ) → ℕ
size_at none = 0
size_at (some e) = length e.1

-- The last entry is dropped.
unfoldable pub drop_back : SegCache → SegCache
drop_back c =
    let n = length c.entries - 1 in
    record c {
      cur_bytes = c.cur_bytes -ℤ pos (size_at (get_elem? c.entries n));
      entries = take n c.entries;
    }

-- The loop of `put`, with the number of rounds that are left.
unfoldable pub evict : ℕ → SegCache → SegCache
evict zero c = c
evict (suc rounds) c =
    let rest = evict rounds (drop_back c) in
    if ltb_ℤ (pos c.max_bytes) c.cur_bytes && ltb 1 (length c.entries) then rest else c

unfoldable pub put : SegCache → String → List ℕ → SegCache
put c key data' =
    let placed = place (lookup key c.entries) (ensure c) key data' in
    evict (length placed.entries) placed

-- The loop of `purgePrefix` over the keys.
unfoldable pub purge : String → Entries → SegCache → SegCache
purge prefix [] c = c
purge prefix ((key, data') ∷ es) c = purge prefix es (
    if starts_with key prefix
    then record c { cur_bytes = c.cur_bytes -ℤ pos (length data'); entries = erase key c.entries }
    else c)

unfoldable pub purge_prefix : SegCache → String → SegCache
purge_prefix c prefix = purge prefix c.entries (ensure c)

unfoldable pub stats : SegCache → ℤ × ℕ × ℕ
stats c = (c.cur_bytes, length c.entries, c.max_bytes)
