-- ===== src/Storage/ReadClass.antt =====
-- storage/readclass.go: why a read happens, and the fixed policy that this selects.
use Prim.Native.String.{String}
use text.Mathlib.Text.{◌==◌ as str_eq}
use native.Mathlib.Nat.{div-mul-le_self, lt-div-mul-add}
use torrent_go.Prelude.{
  ℕ, ◌+◌, ◌*◌, ◌/◌, ◌^◌, ◌≤◌, ◌<◌, max, ◌≡◌, ◌≢◌, refl, Bool, true, false, ◌&&◌, arith, ltb,
  if◌then◌else◌,
}

-- anacrolix's piece priorities, from low to high. The source's comment gives this order.
pub data PiecePriority : Type 0 where
  none normal high readahead next now : PiecePriority

-- The byte that Go compares in `desired[idx] < prio`.
abbrev pub rank : PiecePriority → ℕ
rank none = 0
rank normal = 1
rank high = 2
rank readahead = 3
rank next = 4
rank now = 5

-- An `int` in the source; `other` stands for a value outside the declared constants.
pub data ReadClass : Type 0 where
  playback ahead_demux cold_probe patient_demux mkv_index other : ReadClass

abbrev pub playback_readahead_bytes : ℕ
playback_readahead_bytes = 64 * 2 ^ 20

abbrev pub head_foot_tail_bytes : ℕ
head_foot_tail_bytes = 32 * 2 ^ 20

-- Durations are in milliseconds.
pub record ClassPolicy : Type 0 where
  pub cur_prio : PiecePriority
  pub ahead_prio : PiecePriority
  pub ahead_pieces : ℕ
  pub ahead_bytes : ℕ
  pub head_foot_boost : Bool
  pub tail_boost_bytes : ℕ
  pub wait_budget : ℕ

unfoldable pub ahead_pieces_for : ClassPolicy → ℕ → ℕ
ahead_pieces_for p piece_len =
    if ltb 0 p.ahead_bytes && ltb 0 piece_len
    then (let n = p.ahead_bytes / piece_len in if ltb n 1 then 1 else n)
    else p.ahead_pieces

unfoldable pub policy : ReadClass → ClassPolicy
policy playback = record {
  cur_prio = now;
  ahead_prio = high;
  ahead_pieces = 0;
  ahead_bytes = playback_readahead_bytes;
  head_foot_boost = true;
  tail_boost_bytes = 0;
  wait_budget = 15000;
}
policy ahead_demux = record {
  cur_prio = normal;
  ahead_prio = normal;
  ahead_pieces = 12;
  ahead_bytes = 0;
  head_foot_boost = true;
  tail_boost_bytes = 0;
  wait_budget = 30000;
}
policy cold_probe = record {
  cur_prio = normal;
  ahead_prio = none;
  ahead_pieces = 0;
  ahead_bytes = 0;
  head_foot_boost = true;
  tail_boost_bytes = 0;
  wait_budget = 20000;
}
policy mkv_index = record {
  cur_prio = normal;
  ahead_prio = none;
  ahead_pieces = 0;
  ahead_bytes = 0;
  head_foot_boost = true;
  tail_boost_bytes = head_foot_tail_bytes;
  wait_budget = 20000;
}
policy patient_demux = record {
  cur_prio = normal;
  ahead_prio = normal;
  ahead_pieces = 8;
  ahead_bytes = 0;
  head_foot_boost = false;
  tail_boost_bytes = 0;
  wait_budget = 240000;
}
policy other = record {
  cur_prio = normal;
  ahead_prio = none;
  ahead_pieces = 0;
  ahead_bytes = 0;
  head_foot_boost = true;
  tail_boost_bytes = 0;
  wait_budget = 20000;
}

unfoldable pub parse_read_class : String → Bool → ReadClass
parse_read_class class legacy_bg =
    if str_eq class "playback"
    then playback
    else (if str_eq class "ahead"
        then ahead_demux
        else (if str_eq class "cold"
            then cold_probe
            else (if str_eq class "patient"
                then patient_demux
                else (if legacy_bg then ahead_demux else playback))))

-- The playback window holds at least one piece; it fits the 64 MiB budget, or is one piece where a
-- piece is larger; and one more piece would pass the budget.
pub playback_window_bounds :
    (piece_len : ℕ)
    → 0 < piece_len
    → (1 ≤ ahead_pieces_for (policy playback) piece_len)
      × (ahead_pieces_for (policy playback) piece_len * piece_len
          ≤ max playback_readahead_bytes piece_len)
      × (playback_readahead_bytes < (ahead_pieces_for (policy playback) piece_len + 1) * piece_len)
unfolding ahead_pieces_for policy
playback_window_bounds piece_len h = ground (
  arith,
  div-mul-le_self playback_readahead_bytes piece_len,
  lt-div-mul-add {a = playback_readahead_bytes} h,
)

-- No other class asks for a piece at a priority above the player's read-ahead, and so none at the
-- priority of the piece that the player reads; and only the player's window is counted in bytes.
pub playback_outranks :
    (c : ReadClass)
    → c ≢ playback
    → (rank (policy c).cur_prio < rank (policy playback).ahead_prio)
      × (rank (policy c).ahead_prio < rank (policy playback).ahead_prio)
      × (rank (policy playback).ahead_prio < rank (policy playback).cur_prio)
      × ((policy c).ahead_bytes ≡ 0)
unfolding policy
playback_outranks playback h = absurd (h refl)
playback_outranks ahead_demux h = omega arith
playback_outranks cold_probe h = omega arith
playback_outranks patient_demux h = omega arith
playback_outranks mkv_index h = omega arith
playback_outranks other h = omega arith
