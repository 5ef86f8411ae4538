-- ===== src/Handlers/Hls/Serve/Transparent.antt =====
-- What is served from the segment cache is what was produced for that key.
use Prim.Native.String.{String}
use text.Mathlib.TextEquality.{eq_iff}
use text.Mathlib.TextPositions.{eq_refl}
use torrent_go.Handlers.Hls.Serve.{
  Served, body, segment_failed, nothing, serve_produced, or_produced,
}
use torrent_go.Handlers.SegCache.{SegCache, Entries, ensure, get, get_found, put}
use torrent_go.Handlers.SegCache.Fit.{IsExact, put-IsLongestFit}
use torrent_go.Prelude.{
  ℕ, zero, suc, ◌≤◌, ◌≡◌, refl, sym, ap, ◌∙◌, Bool, true, false, Option, none, some, List, [], ◌∷◌,
  take, arith,
}
use torrent_go.Prelude.TextMap.{lookup, erase}
use mathlib.Core.Path.{subst}

ensure-IsExact : (c : SegCache) → IsExact c → IsExact (ensure c)
unfolding ensure
ensure-IsExact c x = record { counted = x.counted; distinct = x.distinct }

module _ (IsRight : String → List ℕ → Type 0) where
  -- Each segment of a list is right for its key.
  abbrev pub AllRight : Entries → Type 0
  AllRight [] = Unit
  AllRight (e ∷ es) = IsRight e.0 e.1 × AllRight es

  -- A body is right for its key.
  abbrev pub RightBody : String → Served → Type 0
  RightBody key (body content_type data') = IsRight key data'
  RightBody key segment_failed = Unit
  RightBody key nothing = Unit

  take-AllRight : (n : ℕ) (es : Entries) → AllRight es → AllRight (take n es)
  take-AllRight zero es r = tt
  take-AllRight (suc n) [] r = tt
  take-AllRight (suc n) (e ∷ es) r = (r.0, take-AllRight n es r.1)

  erase-AllRight : (key : String) (es : Entries) → AllRight es → AllRight (erase key es)
  erase-AllRight key [] r = tt
  erase-AllRight key (e ∷ es) r = ground (arith, erase-AllRight key es r.1)

  lookup-AllRight :
      (key : String) (es : Entries) (data' : List ℕ)
      → AllRight es
      → lookup key es ≡ some data'
      → IsRight key data'
  lookup-AllRight key [] data' r e = cc
  lookup-AllRight key ((k, d) ∷ es) data' r e =
      ground (arith, eq_iff k key, lookup-AllRight key es data' r.1)

  put-AllRight :
      (c : SegCache) (key : String) (data' : List ℕ)
      → IsExact c
      → IsRight key data'
      → AllRight c.entries
      → AllRight (put c key data').entries
  put-AllRight c key data' x d r =
      let (f, _) = put-IsLongestFit c key data' x in
      subst AllRight (sym f.is_front)
        (take-AllRight f.kept_length _ (d, erase-AllRight key c.entries r))

  answer-AllRight :
      (o : Option (List ℕ)) (c : SegCache) (key content_type : String) (is_gone : Bool)
      (produce : Option (List ℕ))
      → lookup key c.entries ≡ o
      → IsExact c
      → AllRight c.entries
      → ((data' : List ℕ) → produce ≡ some data' → IsRight key data')
      → let (c', answer) = or_produced (get_found o c key) key content_type is_gone produce in
        AllRight c'.entries × RightBody key answer
  answer-AllRight none c key content_type true none e x r right = (r, tt)
  answer-AllRight none c key content_type false none e x r right = (r, tt)
  answer-AllRight none c key content_type is_gone (some data') e x r right =
      (put-AllRight c key data' x (right data' refl) r, right data' refl)
  answer-AllRight (some old) c key content_type is_gone produce e x r right =
      let found = lookup-AllRight key c.entries old r e in
      ((found, erase-AllRight key c.entries r), found)

  -- With an exact cache whose segments are right, and a call that produces right bytes or fails, the
  -- bytes that are served are right, and the cache still has right segments only.
  pub serve-AllRight :
      (c : SegCache) (key content_type : String) (is_gone : Bool) (produce : Option (List ℕ))
      → IsExact c
      → AllRight c.entries
      → ((data' : List ℕ) → produce ≡ some data' → IsRight key data')
      → let (c', answer) = serve_produced c key content_type is_gone produce in
        AllRight c'.entries × RightBody key answer
  unfolding serve_produced get ensure
  serve-AllRight c key content_type is_gone produce x r right =
      answer-AllRight (lookup key c.entries) (ensure c) key content_type is_gone produce refl
        (ensure-IsExact c x) r right

lookup-front :
    (n : ℕ) (key : String) (data' : List ℕ) (es : Entries)
    → 1 ≤ n
    → lookup key (take n ((key, data') ∷ es)) ≡ some data'
lookup-front zero key data' es h = absurd (omega arith)
lookup-front (suc n) key data' es h = rw (eq_refl key)

-- The segment that was put last is found.
lookup-put :
    (c : SegCache) (key : String) (data' : List ℕ)
    → IsExact c
    → lookup key (put c key data').entries ≡ some data'
lookup-put c key data' x =
    let (f, _) = put-IsLongestFit c key data' x in
    ap (lookup key) f.is_front
    ∙ lookup-front f.kept_length key data' (erase key c.entries) f.in_range.0

-- In an exact cache a segment that was missing and has been produced is then served without being
-- produced again: the next call answers the same bytes, whatever its own production would give.
pub served_once :
    (c : SegCache) (key content_type : String) (is_gone is_gone' : Bool) (data' : List ℕ)
    (produce : Option (List ℕ))
    → IsExact c
    → lookup key c.entries ≡ none
    → let (c', answer) = serve_produced c key content_type is_gone (some data') in
      (answer ≡ body content_type data')
      × ((serve_produced c' key content_type is_gone' produce).1 ≡ body content_type data')
unfolding serve_produced get
served_once c key content_type is_gone is_gone' data' produce x missing =
    rw missing (refl, rw (lookup-put (ensure c) key data' (ensure-IsExact c x)))
