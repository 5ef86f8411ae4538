-- ===== src/Handlers/Playback/Race.antt =====
-- A keepalive between the reaper's decision and its drop.
use Prim.Native.String.{String}
use text.Mathlib.Text.{◌==◌}
use text.Mathlib.TextPositions.{eq_refl}
use mathlib.Core.Path.{subst}
use torrent_go.Prelude.{
  ℕ, ◌<◌, ◌≡◌, refl, ap, ◌∙◌, Bool, true, false, not, ◌&&◌, ◌||◌, ltb, leb, if_both, if_true,
  Option, none, some, [], ◌∷◌, arith,
}
use torrent_go.Prelude.TextMap.{lookup, size, lookup-insert}
use torrent_go.Handlers.Playback.Watched.{refcount_positive}
use torrent_go.Handlers.Playback.{
  Sessions, Lifecycle, Keepalive, Response, bad_request, too_many_requests, no_content, is_new,
  decide_unwatched, keep_sessions, handle_keepalive, torrent_refcount, watchers, is_set, decide,
  drop_torrent,
}

refcount-keep_others :
    (hash : String) (m : Sessions)
    → torrent_refcount hash (keep_sessions (λ s. not (s.hash == hash)) m) ≡ 0
unfolding torrent_refcount keep_sessions
refcount-keep_others hash [] = refl
refcount-keep_others hash ((id, s) ∷ m) = ground (arith, refcount-keep_others hash m)

drop_purges :
    (l : Lifecycle) (hash : String)
    → is_set (lookup hash l.dropping) ≡ false
    → watchers (drop_torrent l hash) hash ≡ 0
unfolding drop_torrent watchers
drop_purges l hash h =
    if_both (λ (r : Lifecycle). torrent_refcount hash r.playback ≡ 0)
      (is_set (lookup hash l.dropping)) (λ g. absurd (cc))
      (λ g. refcount-keep_others hash l.playback)

-- What an accepted keepalive leaves.
abbrev Watching : Lifecycle → String → Lifecycle × Response → Type 0
Watching l hash (k, bad_request) = Unit {0}
Watching l hash (k, too_many_requests) = Unit {0}
Watching l hash (k, no_content) = (0 < watchers k hash) × (k.dropping ≡ l.dropping)

keepalive-Watching :
    (l : Lifecycle) (max now : ℕ) (r : Keepalive)
    → Watching l r.hash (handle_keepalive l max now (some r))
unfolding handle_keepalive watchers
keepalive-Watching l max now r =
    if_both (Watching l r.hash) (r.session_id == "" || r.hash == "") (λ h. tt)
      (λ h.
        if_both (Watching l r.hash)
          (is_new (lookup r.session_id l.playback) && (ltb 0 max && leb max (size l.playback)))
          (λ g. tt)
          (λ g. (
            refcount_positive r.hash r.session_id _
                (lookup-insert r.session_id r.session_id _ l.playback
                  ∙ if_true (r.session_id == r.session_id) _ _ (eq_refl r.session_id))
                refl,
            refl,
          )))

decide_unwatched-dropping :
    (o : Option ℕ) (l : Lifecycle) (now grace : ℕ) (hash : String)
    → (decide_unwatched o l now grace hash).0.dropping ≡ l.dropping
decide_unwatched-dropping none l now grace hash = refl
decide_unwatched-dropping (some seen) l now grace hash = refl

decide-dropping :
    (l : Lifecycle) (now grace : ℕ) (persistent : Bool) (hash : String)
    → (decide l now grace persistent hash).0.dropping ≡ l.dropping
unfolding decide
decide-dropping l now grace persistent hash =
    if_both (λ (d : Lifecycle × Bool). d.0.dropping ≡ l.dropping)
      (persistent || ltb 0 (torrent_refcount hash l.playback)) (λ h. refl)
      (λ h. decide_unwatched-dropping (lookup hash l.torrent_seen) l now grace hash)

-- The reaper gives the lock back between its decision and the drop, and the drop does not decide again.
-- A keepalive for the torrent that comes in between and is accepted makes it watched, and the drop then
-- purges the new session all the same. No other drop of the torrent is under way.
pub drop_after_keepalive :
    (l : Lifecycle) (now grace max at_time : ℕ) (persistent : Bool) (r : Keepalive) {k : Lifecycle}
    → is_set (lookup r.hash l.dropping) ≡ false
    → (decide l now grace persistent r.hash).1 ≡ true
    → handle_keepalive (decide l now grace persistent r.hash).0 max at_time (some r)
      ≡ (k, no_content)
    → (0 < watchers k r.hash) × (watchers (drop_torrent k r.hash) r.hash ≡ 0)
drop_after_keepalive l now grace max at_time persistent r {k} h d e =
    let l₁ = (decide l now grace persistent r.hash).0 in
    let (watched, same) = subst (Watching l₁ r.hash) e (keepalive-Watching l₁ max at_time r) in
    let idle : is_set (lookup r.hash k.dropping) ≡ false =
      ap (λ m. is_set (lookup r.hash m)) (same ∙ decide-dropping l now grace persistent r.hash)
      ∙ h in
    (watched, drop_purges k r.hash idle)
