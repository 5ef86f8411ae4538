-- ===== src/Handlers/Playback.antt =====
-- handlers/playback.go, and `dropTorrent` of handlers/torrents.go: who is watching, and how long a
-- torrent that nobody watches is kept.
--
-- Every method takes `lifecycleMu`, so it is one step, but for a tick of the reaper, which gives the
-- lock up twice for each torrent; times are numbers that a call takes. A tick takes the torrents of the
-- client with what other calls do meanwhile, and which torrents are persistent. The caches of a
-- torrent's files, which `dropTorrent` clears too, are left out.
pub mod Watched
pub mod Admission
pub mod Race
use Prim.Native.String.{String}
use text.Mathlib.Text.{◌==◌}
use torrent_go.Prelude.{
  ℕ, zero, suc, ◌+◌, ◌-◌, Bool, true, false, not, ◌&&◌, ◌||◌, ltb, leb, if◌then◌else◌, Option, none,
  some, List, [], ◌∷◌,
}
use torrent_go.Prelude.TextMap.{lookup, insert, erase, size}

pub record PlaySession : Type 0 where
  pub hash : String
  pub file : String
  pub last_ping : ℕ

abbrev pub Sessions : Type 0
Sessions = List (String × PlaySession)

-- The part of `HandlerContext` that `lifecycleMu` guards.
pub record Lifecycle : Type 0 where
  pub playback : Sessions
  pub torrent_seen : List (String × ℕ)
  pub dropping : List (String × Bool)

-- A setting of 0 means the default.
abbrev or_default : ℕ → ℕ → ℕ
or_default zero d = d
or_default (suc n) d = suc n

-- In seconds.
unfoldable pub session_ttl : ℕ → ℕ
session_ttl setting = or_default setting 25

unfoldable pub torrent_grace : ℕ → ℕ
torrent_grace setting = or_default setting 60

pub record Keepalive : Type 0 where
  pub session_id : String
  pub hash : String
  pub file : String

pub data Response : Type 0 where
  bad_request too_many_requests no_content : Response

abbrev pub is_new : Option PlaySession → Bool
is_new none = true
is_new (some s) = false

abbrev pub session : Keepalive → ℕ → PlaySession
session r now = record { hash = r.hash; file = r.file; last_ping = now }

-- `max` of 0 is no limit.
abbrev pub keep_alive : Lifecycle → ℕ → ℕ → Keepalive → Lifecycle × Response
keep_alive l max now r =
    if is_new (lookup r.session_id l.playback) && (ltb 0 max && leb max (size l.playback))
    then (l, too_many_requests)
    else (record l { playback = insert r.session_id (session r now) l.playback }, no_content)

-- `HandlePlaybackKeepalive`; `none` for a body that is not JSON.
unfoldable pub handle_keepalive : Lifecycle → ℕ → ℕ → Option Keepalive → Lifecycle × Response
handle_keepalive l max now none = (l, bad_request)
handle_keepalive l max now (some r) =
    if r.session_id == "" || r.hash == "" then (l, bad_request) else keep_alive l max now r

-- `HandlePlaybackStop`, with the session that the query or the body names.
unfoldable pub handle_stop : Lifecycle → String → Lifecycle × Response
handle_stop l id = (if id == "" then l else record l { playback = erase id l.playback }, no_content)

-- The sessions that are kept by a loop that deletes the others.
unfoldable pub keep_sessions : (PlaySession → Bool) → Sessions → Sessions
keep_sessions keep [] = []
keep_sessions keep ((id, s) ∷ m) =
    if keep s then (id, s) ∷ keep_sessions keep m else keep_sessions keep m

-- A session whose last ping is before the cutoff is expired.
abbrev pub is_fresh : ℕ → ℕ → PlaySession → Bool
is_fresh now ttl s = not (ltb s.last_ping (now - ttl))

unfoldable pub expire : Lifecycle → ℕ → ℕ → Lifecycle
expire l now ttl = record l { playback = keep_sessions (is_fresh now ttl) l.playback }

unfoldable pub torrent_refcount : String → Sessions → ℕ
torrent_refcount hash [] = 0
torrent_refcount hash ((id, s) ∷ m) = (if s.hash == hash then 1 else 0) + torrent_refcount hash m

unfoldable pub watchers : Lifecycle → String → ℕ
watchers l hash = torrent_refcount hash l.playback

abbrev see : Lifecycle → String → ℕ → Lifecycle
see l hash now = record l { torrent_seen = insert hash now l.torrent_seen }

abbrev pub decide_unwatched : Option ℕ → Lifecycle → ℕ → ℕ → String → Lifecycle × Bool
decide_unwatched none l now grace hash = (see l hash now, false)
decide_unwatched (some seen) l now grace hash = (l, ltb grace (now - seen))

-- What the reaper decides for one torrent: `true` to drop it.
unfoldable pub decide : Lifecycle → ℕ → ℕ → Bool → String → Lifecycle × Bool
decide l now grace persistent hash =
    if persistent || ltb 0 (torrent_refcount hash l.playback)
    then (see l hash now, false)
    else decide_unwatched (lookup hash l.torrent_seen) l now grace hash

abbrev pub is_set : Option Bool → Bool
is_set none = false
is_set (some b) = b

-- `dropTorrent`, up to the teardown that it leaves running.
unfoldable pub drop_torrent : Lifecycle → String → Lifecycle
drop_torrent l hash = if is_set (lookup hash l.dropping) then l else record l {
  playback = keep_sessions (λ s. not (s.hash == hash)) l.playback;
  torrent_seen = erase hash l.torrent_seen;
  dropping = insert hash true l.dropping;
}

-- The end of the teardown.
unfoldable pub drop_done : Lifecycle → String → Lifecycle
drop_done l hash = record l { dropping = erase hash l.dropping }

-- The turn of one torrent in a tick. The lock is free before it, and again between the decision and the
-- drop: what other calls do there is a part of the turn.
pub record Turn : Type 0 where
  pub hash : String
  pub before : Lifecycle → Lifecycle
  pub between : Lifecycle → Lifecycle

abbrev pub drop_if : Bool → Lifecycle → Turn → Lifecycle
drop_if true l t = drop_torrent (t.between l) t.hash
drop_if false l t = l

unfoldable pub reap_torrents : Lifecycle → ℕ → ℕ → (String → Bool) → List Turn → Lifecycle
reap_torrents l now grace persistent [] = l
reap_torrents l now grace persistent (t ∷ turns) =
    let d = decide (t.before l) now grace (persistent t.hash) t.hash in
    reap_torrents (drop_if d.1 d.0 t) now grace persistent turns

-- One tick of `ReapPlaybackSessions`.
unfoldable pub reap : Lifecycle → ℕ → ℕ → ℕ → (String → Bool) → List Turn → Lifecycle
reap l now ttl grace persistent turns = reap_torrents (expire l now ttl) now grace persistent turns
