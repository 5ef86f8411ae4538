-- ===== src/Handlers/Playback/Admission.antt =====
-- The cap on concurrent sessions.
use Prim.Native.String.{String}
use text.Mathlib.Text.{◌==◌}
use torrent_go.Prelude.{
  ℕ, ◌+◌, ◌≤◌, ◌<◌, ◌≡◌, refl, ap, ◌⊎◌, Bool, true, not, ◌&&◌, ◌||◌, ltb, leb, false, if_both, inl,
  inr, Option, none, some, List, [], ◌∷◌, arith,
}
use torrent_go.Prelude.TextMap.{lookup, insert, erase, size, weight, total-insert, total-erase}
use torrent_go.Handlers.Playback.{
  PlaySession, Sessions, Lifecycle, Keepalive, Response, is_new, session, handle_keepalive,
  handle_stop, keep_sessions, is_fresh, expire, drop_torrent, is_set, Turn, drop_if, reap,
  reap_torrents, decide,
}
use torrent_go.Handlers.Playback.Watched.{decide-playback}

-- The number of sessions is within the cap.
abbrev pub Within : ℕ → Lifecycle → Type 0
Within max l = size l.playback ≤ max

size-insert_new :
    (id : String) (s : PlaySession) (m : Sessions) (o : Option PlaySession)
    → lookup id m ≡ o
    → (size (insert id s m) ≤ size m) ⊎ ((is_new o ≡ true) × (size (insert id s m) ≡ size m + 1))
size-insert_new id s m none e = inr (
  refl,
  let w : weight (λ (v : PlaySession). 1) (lookup id m) ≡ 0 = ap (weight (λ v. 1)) e in
      omega (arith, w, total-insert (λ v. 1) id s m),
)
size-insert_new id s m (some t) e = inl (
    let w : weight (λ (v : PlaySession). 1) (lookup id m) ≡ 1 = ap (weight (λ v. 1)) e in
    omega (arith, w, total-insert (λ v. 1) id s m))

keep_alive-Within :
    (max now : ℕ) (r : Keepalive) (l : Lifecycle)
    → 0 < max
    → Within max l
    → Within max (handle_keepalive l max now (some r)).0
unfolding handle_keepalive
keep_alive-Within max now r l p w =
    if_both (λ (k : Lifecycle × Response). Within max k.0) (r.session_id == "" || r.hash == "")
      (λ h. w)
      (λ h.
        if_both (λ (k : Lifecycle × Response). Within max k.0)
          (is_new (lookup r.session_id l.playback) && (ltb 0 max && leb max (size l.playback)))
          (λ g. w)
          (λ g.
            elim (size-insert_new r.session_id (session r now) l.playback
              (lookup r.session_id l.playback) refl) [
                | inl le ↦ omega (arith, le, w)
                | inr (new, e) ↦ ground arith
              ]))

handle_keepalive-Within :
    (max now : ℕ) (o : Option Keepalive) (l : Lifecycle)
    → 0 < max
    → Within max l
    → Within max (handle_keepalive l max now o).0
unfolding handle_keepalive
handle_keepalive-Within max now none l p w = w
handle_keepalive-Within max now (some r) l p w = keep_alive-Within max now r l p w

size-erase : (id : String) (m : Sessions) → size (erase id m) ≤ size m
size-erase id m = omega (arith, total-erase (λ (v : PlaySession). 1) id m)

handle_stop-Within :
    (max : ℕ) (id : String) (l : Lifecycle) → Within max l → Within max (handle_stop l id).0
unfolding handle_stop
handle_stop-Within max id l w =
    if_both (Within max) (id == "") (λ h. w) (λ h. omega (arith, w, size-erase id l.playback))

size-keep_sessions :
    (keep : PlaySession → Bool) (m : Sessions) → size (keep_sessions keep m) ≤ size m
unfolding keep_sessions
size-keep_sessions keep [] = omega arith
size-keep_sessions keep ((id, s) ∷ m) = ground (arith, size-keep_sessions keep m)

drop_torrent-Within :
    (max : ℕ) (hash : String) (l : Lifecycle) → Within max l → Within max (drop_torrent l hash)
unfolding drop_torrent
drop_torrent-Within max hash l w =
    if_both (Within max) (is_set (lookup hash l.dropping)) (λ h. w)
      (λ h. omega (arith, w, size-keep_sessions (λ s. not (s.hash == hash)) l.playback))

-- Turns with no other call in them.
abbrev pub undisturbed : List String → List Turn
undisturbed [] = []
undisturbed (hash ∷ hashes) =
    record { hash = hash; before = λ l. l; between = λ l. l } ∷ undisturbed hashes

reap_torrents-Within :
    (max : ℕ) (l : Lifecycle) (now grace : ℕ) (persistent : String → Bool) (hashes : List String)
    → Within max l
    → Within max (reap_torrents l now grace persistent (undisturbed hashes))
unfolding reap_torrents
reap_torrents-Within max l now grace persistent [] w = w
reap_torrents-Within max l now grace persistent (hash ∷ hashes) w =
    let d = decide l now grace (persistent hash) hash in
    let same : size d.0.playback ≡ size l.playback =
      ap size (decide-playback l now grace (persistent hash) hash) in
    let t : Turn = record { hash = hash; before = λ l. l; between = λ l. l } in
    reap_torrents-Within max (drop_if d.1 d.0 t) now grace persistent hashes
      (turn_done d.1 d.0 hash (omega (arith, same, w)))
  where
    turn_done :
        (b : Bool) (l : Lifecycle) (hash : String)
        → Within max l
        → Within max (drop_if b l (record { hash = hash; before = λ l. l; between = λ l. l }))
    turn_done true l hash w = drop_torrent-Within max hash l w
    turn_done false l hash w = w

-- What happens to the lifecycle, with the time it happens at.
pub data Event : Type 0 where
  keepalive_event : ℕ → Option Keepalive → Event
  stop_event : String → Event
  reap_event : ℕ → ℕ → ℕ → (String → Bool) → List String → Event
  drop_event : String → Event

unfoldable pub event : ℕ → Event → Lifecycle → Lifecycle
event max (keepalive_event now o) l = (handle_keepalive l max now o).0
event max (stop_event id) l = (handle_stop l id).0
event max (reap_event now ttl grace persistent hashes) l =
    reap l now ttl grace persistent (undisturbed hashes)
event max (drop_event hash) l = drop_torrent l hash

unfoldable pub events : ℕ → List Event → Lifecycle → Lifecycle
events max [] l = l
events max (x ∷ xs) l = events max xs (event max x l)

event-Within :
    (max : ℕ) (x : Event) (l : Lifecycle) → 0 < max → Within max l → Within max (event max x l)
unfolding event reap expire
event-Within max (keepalive_event now o) l p w = handle_keepalive-Within max now o l p w
event-Within max (stop_event id) l p w = handle_stop-Within max id l w
event-Within max (reap_event now ttl grace persistent hashes) l p w =
    reap_torrents-Within max (expire l now ttl) now grace persistent hashes
      (omega (arith, w, size-keep_sessions (is_fresh now ttl) l.playback))
event-Within max (drop_event hash) l p w = drop_torrent-Within max hash l w

-- In every run of keepalives, stops, ticks of the reaper and drops there are never more sessions than
-- the cap, if there were not before and the cap stays as it is. The cap is not 0, which means no cap.
pub sessions_capped :
    (max : ℕ) (xs : List Event) (l : Lifecycle)
    → 0 < max
    → Within max l
    → Within max (events max xs l)
unfolding events
sessions_capped max [] l p w = w
sessions_capped max (x ∷ xs) l p w =
    sessions_capped max xs (event max x l) p (event-Within max x l p w)
