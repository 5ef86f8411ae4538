-- ===== src/Handlers/Thumbnails/Runs.antt =====
-- Runs of a thumbnail cache, and what it holds after a picture is set.
use Prim.Native.String.{String}
use text.Mathlib.Text.{◌==◌}
use text.Mathlib.TextPositions.{eq_refl}
use torrent_go.Handlers.Thumbnails.{
  ThumbEntry, ThumbnailCache, new_thumbnail_cache, remove, get, get_found, set, set_found,
  make_room, put_new,
}
use torrent_go.Handlers.Thumbnails.Valid.{is_listed, IsValid, get-IsValid, set-IsValid}
use torrent_go.Prelude.{
  ℕ, ◌+◌, ◌≤◌, ◌≡◌, refl, ap, ◌∙◌, leb, if◌then◌else◌, if_true, Option, none, some, List, [], ◌∷◌,
  arith,
}
use torrent_go.Prelude.TextMap.{lookup, erase, size, lookup-insert, lookup-erase}

pub data Call : Type 0 where
  get_call : (now : ℕ) (key : String) → Call
  set_call : (now : ℕ) (key : String) (picture : List ℕ) → Call

unfoldable pub call : Call → ThumbnailCache → ThumbnailCache
call (get_call now key) c = (get c now key).0
call (set_call now key picture) c = set c now key picture

unfoldable pub calls : List Call → ThumbnailCache → ThumbnailCache
calls [] c = c
calls (x ∷ xs) c = calls xs (call x c)

pub call-IsValid : (x : Call) (c : ThumbnailCache) → IsValid c → IsValid (call x c)
unfolding call
call-IsValid (get_call now key) c v = get-IsValid c now key v
call-IsValid (set_call now key picture) c v = set-IsValid c now key picture v

runs-IsValid : (xs : List Call) (c : ThumbnailCache) → IsValid c → IsValid (calls xs c)
unfolding calls
runs-IsValid [] c v = v
runs-IsValid (x ∷ xs) c v = runs-IsValid xs (call x c) (call-IsValid x c v)

new-IsValid : (max_size ttl : ℕ) → IsValid (new_thumbnail_cache max_size ttl)
unfolding new_thumbnail_cache is_listed
new-IsValid max_size ttl = record {
  listed = λ key. refl;
  unique = tt;
  distinct = tt;
  bounded = omega arith;
}

-- Whatever calls are made of a new cache, its order lists the keys of its map, each once, and it
-- never holds more pictures than its limit, or one where the limit is 0.
pub calls-IsValid :
    (xs : List Call) (max_size ttl : ℕ) → IsValid (calls xs (new_thumbnail_cache max_size ttl))
calls-IsValid xs max_size ttl = runs-IsValid xs _ (new-IsValid max_size ttl)

-- What a map holds after a new key has taken the place of the oldest one.
abbrev pub replaced : String → String → ThumbEntry → Option ThumbEntry → String → Option ThumbEntry
replaced key oldest e before name =
    if key == name then some e else if oldest == name then none else before

-- A new picture in a full cache takes the place of the one in front of the order: every other key
-- keeps its picture. Until its time to live is over the new picture is found.
pub set-replaced :
    (c : ThumbnailCache) (now now' : ℕ) (key oldest : String) (ks : List String) (picture : List ℕ)
    → IsValid c
    → lookup key c.items ≡ none
    → c.order ≡ oldest ∷ ks
    → c.max_size ≤ size c.items
    → now' ≤ now + c.ttl
    → ((name : String)
        → lookup name (set c now key picture).items
          ≡ replaced key oldest
              (record { picture = picture; created_at = now })
              (lookup name c.items)
              name)
      × ((get (set c now key picture) now' key).1 ≡ some picture)
unfolding set get remove
set-replaced c now now' key oldest ks picture v n o full fresh =
    let e : ThumbEntry = record { picture = picture; created_at = now } in
    let room : make_room c.order c ≡ remove oldest c =
      ap (λ (l : List String). make_room l c) o
      ∙ if_true (leb c.max_size (size c.items)) (remove oldest c) c (ground arith) in
    let result : set c now key picture ≡ put_new key e (remove oldest c) =
      ap (λ (x : Option ThumbEntry). set_found x c key e) n ∙ ap (put_new key e) room in
    let found : lookup key (put_new key e (remove oldest c)).items ≡ some e =
      lookup-insert key key e (erase oldest c.items) ∙ ground (arith, eq_refl key) in
    (
      λ name.
          ap (λ (r : ThumbnailCache). lookup name r.items) result
          ∙ lookup-insert key name e (erase oldest c.items)
          ∙ ground (arith, lookup-erase oldest name c.items v.distinct),
      ap (λ (r : ThumbnailCache). (get r now' key).1) result
          ∙ ap
              (λ (x : Option ThumbEntry).
                (get_found x (put_new key e (remove oldest c)) now' key).1)
              found
          ∙ ground arith,
    )
