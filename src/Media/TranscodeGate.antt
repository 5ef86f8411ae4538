-- ===== src/Media/TranscodeGate.antt =====
-- media/transcode_gate.go: how many segments are transcoded at a time.
--
-- The channel is the number of its elements. A released slot is one that was taken: the function
-- that gives it back does so once.
pub mod Slots
use torrent_go.Prelude.{
  ℕ, zero, suc, ◌+◌, ◌-◌, ◌<◌, ◌≡◌, Bool, true, false, ◌||◌, ltb, if◌then◌else◌, Option, none, some,
  List, [], ◌∷◌, get_elem?, set,
}
use torrent_go.Prelude.Bytes.{Bytes, trim_space}
use torrent_go.Prelude.Decimal.{atoi}
use torrent_go.Prelude.Int.{ℤ, pos, pos_part, ltb_ℤ}

abbrev pub max_video_transcode_concurrency : ℕ
max_video_transcode_concurrency = 8

abbrev pub clamped : Option ℤ → ℕ
clamped none = 1
clamped (some n) =
    if ltb_ℤ n (pos 1)
    then 1
    else if ltb_ℤ (pos max_video_transcode_concurrency) n
    then max_video_transcode_concurrency
    else pos_part n

unfoldable pub parse_video_transcode_limit : Bytes → ℕ
parse_video_transcode_limit value = clamped (atoi (trim_space value))

-- The slots in use, and for each call that got one whether it still has to give it back.
pub record VideoTranscodeGate : Type 0 where
  pub limit : ℕ
  pub slots : ℕ
  pub holders : List Bool

unfoldable pub new_video_transcode_gate : ℕ → VideoTranscodeGate
new_video_transcode_gate limit = record { limit = limit; slots = 0; holders = [] }

-- `acquire` sends to the channel, where there is room; a call whose context ends changes nothing.
abbrev pub taken : VideoTranscodeGate → VideoTranscodeGate
taken g = record g { slots = suc g.slots; holders = true ∷ g.holders }

-- `once.Do`: the first call of a release function receives from the channel.
abbrev pub given_back : Option Bool → ℕ → VideoTranscodeGate → VideoTranscodeGate
given_back (some true) i g = record g { slots = g.slots - 1; holders = set g.holders i false }
given_back _ i g = g

unfoldable pub release : VideoTranscodeGate → ℕ → VideoTranscodeGate
release g i = given_back (get_elem? g.holders i) i g

-- The steps of all goroutines, in any order.
pub data Reachable (limit : ℕ) : VideoTranscodeGate → Type 0 where
  start : Reachable limit (new_video_transcode_gate limit)
  acquire :
      {g : VideoTranscodeGate} → Reachable limit g → g.slots < g.limit → Reachable limit (taken g)
  release_step :
      {g : VideoTranscodeGate} (i : ℕ) → Reachable limit g → Reachable limit (release g i)
