-- ===== src/Handlers/Thumbnails.antt =====
-- handlers/thumbnails.go `ThumbnailCache`: pictures by key, dropped when they are old or when the
-- cache is full and they were used longest ago. Times are numbers, and `now` is an argument.
pub mod Valid
pub mod Runs
pub mod Recent
use Prim.Native.String.{String}
use text.Mathlib.Text.{◌==◌}
use torrent_go.Prelude.{
  ℕ, ◌+◌, ◌-◌, Bool, true, false, ◌&&◌, ltb, leb, if◌then◌else◌, Option, none, some, List, [], ◌∷◌,
  ◌++◌, length,
}
use torrent_go.Prelude.TextMap.{lookup, insert, erase, size, total}

pub record ThumbEntry : Type 0 where
  pub picture : List ℕ
  pub created_at : ℕ

-- `order` begins with the key that was used longest ago.
pub record ThumbnailCache : Type 0 where
  pub items : List (String × ThumbEntry)
  pub order : List String
  pub max_size : ℕ
  pub ttl : ℕ

unfoldable pub new_thumbnail_cache : ℕ → ℕ → ThumbnailCache
new_thumbnail_cache max_size ttl = record { items = []; order = []; max_size = max_size; ttl = ttl }

abbrev pub stats : ThumbnailCache → ℕ × ℕ × ℕ
stats c = (size c.items, total (λ e. length e.picture) c.items, c.max_size)

-- The first occurrence is taken out.
unfoldable pub drop_key : String → List String → List String
drop_key key [] = []
drop_key key (k ∷ ks) = let rest = drop_key key ks in if k == key then ks else k ∷ rest

unfoldable pub remove : String → ThumbnailCache → ThumbnailCache
unfolding drop_key
remove key c = record c { items = erase key c.items; order = drop_key key c.order }

unfoldable pub move_to_mru : String → ThumbnailCache → ThumbnailCache
unfolding drop_key
move_to_mru key c = record c { order = drop_key key c.order ++ (key ∷ []) }

abbrev pub get_found :
    Option ThumbEntry → ThumbnailCache → ℕ → String → ThumbnailCache × Option (List ℕ)
get_found none c now key = (c, none)
get_found (some e) c now key =
    if ltb c.ttl (now - e.created_at)
    then (remove key c, none)
    else (move_to_mru key c, some e.picture)

unfoldable pub get : ThumbnailCache → ℕ → String → ThumbnailCache × Option (List ℕ)
unfolding remove move_to_mru
get c now key = get_found (lookup key c.items) c now key

abbrev pub make_room : List String → ThumbnailCache → ThumbnailCache
make_room [] c = c
make_room (oldest ∷ ks) c = if leb c.max_size (size c.items) then remove oldest c else c

abbrev pub put_new : String → ThumbEntry → ThumbnailCache → ThumbnailCache
put_new key e c = record c { items = insert key e c.items; order = c.order ++ (key ∷ []) }

abbrev pub set_found : Option ThumbEntry → ThumbnailCache → String → ThumbEntry → ThumbnailCache
set_found none c key e = put_new key e (make_room c.order c)
set_found (some old) c key e = move_to_mru key (record c { items = insert key e c.items })

unfoldable pub set : ThumbnailCache → ℕ → String → List ℕ → ThumbnailCache
unfolding remove move_to_mru
set c now key picture =
    set_found (lookup key c.items) c key (record { picture = picture; created_at = now })
