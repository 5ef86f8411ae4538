-- ===== src/Tests/Playbacks.antt =====
-- Playback sessions and the reaper.
use Prim.Native.String.{String}
use torrent_go.Prelude.{◌≡◌, refl, none, some, List, [], ◌∷◌, arith, true, false, Bool, ◌<◌}
use torrent_go.Prelude.TextMap.{lookup}
use torrent_go.Handlers.Playback.{
  PlaySession, Lifecycle, Keepalive, Turn, no_content, reap, watchers, handle_keepalive,
  drop_torrent,
}
use torrent_go.Handlers.Playback
use torrent_go.Handlers.Playback.Watched.{fresh_session_survives}
use torrent_go.Handlers.Playback.Admission.{Event, keepalive_event, stop_event, reap_event}
use torrent_go.Handlers.Playback.Race.{drop_after_keepalive}

abbrev viewer : PlaySession
viewer = record { hash = "aa"; file = "1"; last_ping = 90 }

-- One session, on one of two torrents; the other one has been idle since time 20.
abbrev pub watching : Lifecycle
watching = record {
  playback = ("s", viewer) ∷ [];
  torrent_seen = ("aa", 90) ∷ ("bb", 20) ∷ [];
  dropping = [];
}

abbrev ping : Keepalive
ping = record { session_id = "t"; hash = "bb"; file = "2" }

abbrev no_one : String → Bool
no_one h = false

-- Another player comes to the watched torrent before the turn of the idle one.
abbrev other : Lifecycle → Lifecycle
other l = record l {
  playback = ("s", viewer) ∷ ("u", record { hash = "aa"; file = "1"; last_ping = 100 }) ∷ [];
}

abbrev turns : List Turn
turns =
    record { hash = "aa"; before = λ l. l; between = λ l. l }
    ∷ record { hash = "bb"; before = other; between = λ l. l }
    ∷ []

-- The idle torrent is dropped, the watched one is not.
reap_drops_idle : (reap watching 100 25 60 no_one turns).dropping ≡ ("bb", true) ∷ []
unfolding reap Playback.expire Playback.keep_sessions Playback.reap_torrents Playback.decide
    Playback.torrent_refcount drop_torrent
reap_drops_idle = refl

fresh_session_survives_example :
    lookup "s" (reap watching 100 25 60 no_one turns).playback ≡ some viewer
fresh_session_survives_example =
    fresh_session_survives watching 100 25 60 no_one turns "s" refl (omega arith)
      (λ l e. e, λ l e. e, (λ l e. refl, λ l e. e, tt))

abbrev run : List Event
run =
    keepalive_event 100 (some ping)
    ∷ keepalive_event 101 none
    ∷ stop_event "s"
    ∷ reap_event 200 25 60 no_one ("bb" ∷ [])
    ∷ []

-- The session that the keepalive opens on the idle torrent.
abbrev opened : Lifecycle
opened = record watching {
  playback = ("s", viewer) ∷ ("t", record { hash = "bb"; file = "2"; last_ping = 101 }) ∷ [];
}

drop_after_keepalive_example :
    (0 < watchers opened "bb") × (watchers (drop_torrent opened "bb") "bb" ≡ 0)
drop_after_keepalive_example =
    drop_after_keepalive watching 100 60 0 101 false ping {k = opened} refl
      (unfold Playback.decide Playback.torrent_refcount in refl)
      (unfold Playback.decide Playback.torrent_refcount handle_keepalive in refl)
