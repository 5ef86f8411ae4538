-- ===== src/Handlers/Playback/Watched.antt =====
-- A torrent that is watched is not dropped.
use Prim.Native.String.{String}
use text.Mathlib.Text.{◌==◌}
use text.Mathlib.TextEquality.{eq_iff}
use text.Mathlib.TextPositions.{eq_refl}
use torrent_go.Prelude.{
  ℕ, ◌+◌, ◌≤◌, ◌<◌, ◌≡◌, refl, ap, ◌∙◌, Bool, true, false, not, ◌||◌, ltb, if_both, Bool-cases, inl,
  inr, Option, none, some, List, [], ◌∷◌, arith,
}
use torrent_go.Prelude.TextMap.{lookup}
use torrent_go.Handlers.Playback.{
  PlaySession, Sessions, Lifecycle, keep_sessions, is_fresh, expire, torrent_refcount, decide,
  decide_unwatched, is_set, drop_torrent, Turn, drop_if, reap_torrents, reap,
}

lookup-keep_sessions :
    (keep : PlaySession → Bool) (id : String) (m : Sessions) {s : PlaySession}
    → lookup id m ≡ some s
    → keep s ≡ true
    → lookup id (keep_sessions keep m) ≡ some s
unfolding keep_sessions
lookup-keep_sessions keep id [] e k = cc
lookup-keep_sessions keep id ((j, x) ∷ m) {s} e k = elim (Bool-cases (j == id)) [
  | inl q ↦
      let same : x ≡ s = ground (arith, e) in
      let kept : keep x ≡ true = ap keep same ∙ k in rw (kept, q) (ap some same)
  | inr q ↦
      let rest = lookup-keep_sessions keep id m (rw q at e) k in
      if_both (λ n. lookup id n ≡ some s) (keep x) (λ h. rw q rest) (λ h. rest)
]

-- A live session counts.
pub refcount_positive :
    (hash id : String) (m : Sessions) {s : PlaySession}
    → lookup id m ≡ some s
    → s.hash ≡ hash
    → 0 < torrent_refcount hash m
unfolding torrent_refcount
refcount_positive hash id [] e h = cc
refcount_positive hash id ((j, x) ∷ m) {s} e h = elim (Bool-cases (j == id)) [
  | inl q ↦
      let same : x ≡ s = ground (arith, e) in
      let own : x.hash ≡ hash = ap (λ t. t.hash) same ∙ h in
      let one : (x.hash == hash) ≡ true = rw own (eq_refl hash) in rw one (omega arith)
  | inr q ↦ let rest = refcount_positive hash id m (rw q at e) h in omega arith
]

decide_unwatched-playback :
    (o : Option ℕ) (l : Lifecycle) (now grace : ℕ) (hash : String)
    → (decide_unwatched o l now grace hash).0.playback ≡ l.playback
decide_unwatched-playback none l now grace hash = refl
decide_unwatched-playback (some seen) l now grace hash = refl

pub decide-playback :
    (l : Lifecycle) (now grace : ℕ) (persistent : Bool) (hash : String)
    → (decide l now grace persistent hash).0.playback ≡ l.playback
unfolding decide
decide-playback l now grace persistent hash =
    if_both (λ (d : Lifecycle × Bool). d.0.playback ≡ l.playback)
      (persistent || ltb 0 (torrent_refcount hash l.playback)) (λ h. refl)
      (λ h. decide_unwatched-playback (lookup hash l.torrent_seen) l now grace hash)

-- A torrent that the reaper decides to drop is not persistent, and nobody watches it.
pub decide-unwatched :
    (l : Lifecycle) (now grace : ℕ) (persistent : Bool) (hash : String)
    → (decide l now grace persistent hash).1 ≡ true
    → (persistent ≡ false) × (torrent_refcount hash l.playback ≡ 0)
unfolding decide
decide-unwatched l now grace persistent hash =
    if_both
      (λ (d : Lifecycle × Bool).
        d.1 ≡ true → (persistent ≡ false) × (torrent_refcount hash l.playback ≡ 0))
      (persistent || ltb 0 (torrent_refcount hash l.playback)) (λ h e. absurd (cc))
      (λ h e. ground arith)

drop_torrent-keeps :
    (l : Lifecycle) (hash id : String) {s : PlaySession}
    → lookup id l.playback ≡ some s
    → (s.hash == hash) ≡ false
    → lookup id (drop_torrent l hash).playback ≡ some s
unfolding drop_torrent
drop_torrent-keeps l hash id {s} e n =
    if_both (λ (r : Lifecycle). lookup id r.playback ≡ some s) (is_set (lookup hash l.dropping))
      (λ h. e) (λ h. lookup-keep_sessions (λ t. not (t.hash == hash)) id l.playback e (ap not n))

-- Other calls that keep a session as it is.
abbrev pub KeepsSession : String → PlaySession → (Lifecycle → Lifecycle) → Type 0
KeepsSession id s other =
    (l : Lifecycle) → lookup id l.playback ≡ some s → lookup id (other l).playback ≡ some s

abbrev pub AllKeep : String → PlaySession → List Turn → Type 0
AllKeep id s [] = Unit
AllKeep id s (t ∷ turns) =
    KeepsSession id s t.before × KeepsSession id s t.between × AllKeep id s turns

drop_if-keeps :
    (b : Bool) (l : Lifecycle) (t : Turn) (id : String) {s : PlaySession}
    → lookup id l.playback ≡ some s
    → KeepsSession id s t.between
    → (b ≡ true → (s.hash == t.hash) ≡ false)
    → lookup id (drop_if b l t).playback ≡ some s
drop_if-keeps true l t id e k n = drop_torrent-keeps (t.between l) t.hash id (k l e) (n refl)
drop_if-keeps false l t id e k n = e

reap_torrents-keeps :
    (l : Lifecycle) (now grace : ℕ) (persistent : String → Bool) (turns : List Turn) (id : String)
    {s : PlaySession}
    → lookup id l.playback ≡ some s
    → AllKeep id s turns
    → lookup id (reap_torrents l now grace persistent turns).playback ≡ some s
unfolding reap_torrents
reap_torrents-keeps l now grace persistent [] id e k = e
reap_torrents-keeps l now grace persistent (t ∷ turns) id {s} e k =
    let found = k.0 l e in
    let d = decide (t.before l) now grace (persistent t.hash) t.hash in
    let still : lookup id d.0.playback ≡ some s =
      ap (lookup id) (decide-playback (t.before l) now grace (persistent t.hash) t.hash) ∙ found in
    reap_torrents-keeps (drop_if d.1 d.0 t) now grace persistent turns id
      (drop_if-keeps d.1 d.0 t id still k.1 (λ h. elim (Bool-cases (s.hash == t.hash)) [
        | inr n ↦ n
        | inl q ↦
            let zero_count =
              (decide-unwatched (t.before l) now grace (persistent t.hash) t.hash h).1 in
            let live =
              refcount_positive t.hash id (t.before l).playback found
                ((eq_iff s.hash t.hash).0 q) in
            absurd (omega (arith, zero_count, live))
      ]))
      k.2

-- A session whose last keepalive is not older than the time to live survives a tick of the reaper,
-- whichever torrents are dropped in it and whatever other calls do while the lock is free, if they
-- keep the session: the torrent that it watches is not dropped.
pub fresh_session_survives :
    (l : Lifecycle) (now ttl grace : ℕ) (persistent : String → Bool) (turns : List Turn)
    (id : String) {s : PlaySession}
    → lookup id l.playback ≡ some s
    → now ≤ s.last_ping + ttl
    → AllKeep id s turns
    → lookup id (reap l now ttl grace persistent turns).playback ≡ some s
unfolding reap expire
fresh_session_survives l now ttl grace persistent turns id {s} e h k =
    reap_torrents-keeps _ now grace persistent turns id
      (lookup-keep_sessions (is_fresh now ttl) id l.playback e (ground arith)) k
