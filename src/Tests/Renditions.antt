-- ===== src/Tests/Renditions.antt =====
-- Renditions: one busy hardware device, one CPU provider, and pipelines that fail.
use torrent_go.Prelude.{◌≡◌, refl, ◌≢◌, arith, true, false, none, some, List, [], ◌∷◌, inl, inr}
use torrent_go.Prelude.Int.{pos}
use torrent_go.Rendition.Errors.{eof, failure_category_of, with_generation, cancelled}
use torrent_go.Rendition.Lifecycle.{committed, transition}
use torrent_go.Rendition.Contract.{
  OutputContract, Rational, validate_output_contract, same_contract,
}
use torrent_go.Rendition.Candidates.{
  Provider, PipelineCandidate, Config, cpu_kind, hardware_kind, new_manager, candidates,
  of_providers, of_devices, add_ranks, sort_stable, insert_stable, less, DecodeMode,
  decode_hardware, decode_software,
}
use torrent_go.Rendition.Candidates.Tiers.{Tiers, candidates-Tiers}
use torrent_go.Rendition.Manager.{
  Usage, Attempt, ok, fail, sent, acquire, ManagedRendition, PipelineOutput, acquire_loop,
  try_candidate, admit, prime, bandwidth,
}
use torrent_go.Rendition.Manager.Conserve.{ResultMoves, acquire-Moves}
use torrent_go.Rendition.Manager.Contention.{Exhausted, busy_hardware_exhausts}
use torrent_go.Rendition.Manager.Limits.{InLimits, acquire-InLimits}
use torrent_go.Rendition.Session.{segment, failure_sticks}

abbrev ratio : Rational
ratio = record { num = pos 24; den = pos 1 }

abbrev contract : OutputContract
contract = record {
  codec = "h264";
  codec_string = "avc1.640028";
  profile = "high";
  level = "4.0";
  width = pos 1920;
  height = pos 1080;
  pixel_format = "yuv420p";
  frame_rate = ratio;
  time_base = ratio;
  rate_control = record { target_bitrate = pos 4000; max_bitrate = pos 5000 };
  gop = record { segment_duration = ratio; closed = true; idr_at_boundary = true };
  color = record { primaries = "bt709"; transfer = "bt709"; matrix = "bt709"; range = "tv" };
}

abbrev software : Provider
software = record {
  name = "libx264";
  kind = cpu_kind;
  inventory = record { id = "cpu0"; performance_score = 1 } ∷ [];
}

abbrev gpu : Provider
gpu = record {
  name = "vaapi";
  kind = hardware_kind;
  inventory = record { id = "renderD128"; performance_score = 9 } ∷ [];
}

abbrev cpu_only : Config
cpu_only = new_manager [] 1 1 (software ∷ [])

abbrev both : Config
both = new_manager [] 1 1 (software ∷ gpu ∷ [])

abbrev idle : Usage
idle = record { tokens = λ k. 0; pipelines = 0 }

-- One token at every gate is taken.
abbrev full : Usage
full = record { tokens = λ k. 1; pipelines = 1 }

abbrev output : PipelineOutput
output = record { contract = contract; init = 1 ∷ 2 ∷ []; extradata_fingerprint = "f" }

abbrev works : PipelineCandidate → Attempt
works c = record { select = sent; prepared = ok output; generation_id = ok "g-00" }

valid : validate_output_contract contract ≡ none
unfolding validate_output_contract
valid = refl

abbrev made : ManagedRendition
made = record {
  descriptor = record {
    generation = "g-00";
    output = contract;
    bandwidth = pos 5500;
    provider = "libx264";
    device_id = "cpu0";
    extradata_fingerprint = "f";
  };
  init = 1 ∷ 2 ∷ [];
  state = committed;
  terminal_err = none;
  lease = some "cpu";
  released = false;
}

abbrev used : Usage
used = (acquire cpu_only contract works idle).0

run : acquire cpu_only contract works idle ≡ (used, ok made)
unfolding acquire validate_output_contract candidates new_manager acquire_loop try_candidate admit
    prime bandwidth transition same_contract of_providers of_devices add_ranks sort_stable
    insert_stable less
run = refl

acquire-Moves_example : ResultMoves idle (acquire cpu_only contract works idle)
acquire-Moves_example = acquire-Moves cpu_only contract works idle

abbrev gpu_candidate : DecodeMode → PipelineCandidate
gpu_candidate mode = record {
  provider = gpu;
  device = record { id = "renderD128"; performance_score = 9 };
  mode = mode;
}

abbrev behind : List PipelineCandidate
behind =
    gpu_candidate decode_software
    ∷ record {
      provider = software;
      device = record { id = "cpu0"; performance_score = 1 };
      mode = decode_software;
    }
    ∷ []

all_candidates : candidates both full.tokens ≡ gpu_candidate decode_hardware ∷ behind
unfolding candidates new_manager of_providers of_devices add_ranks sort_stable insert_stable less
all_candidates = refl

busy_hardware_exhausts_example : Exhausted full (acquire both contract works full)
unfolding new_manager
busy_hardware_exhausts_example =
    busy_hardware_exhausts both contract works full valid all_candidates (refl, refl)
      (inl (refl, refl), (inr refl, tt))

eof_fatal : failure_category_of eof ≢ cancelled
unfolding failure_category_of
eof_fatal e = absurd (cc)

failure_sticks_example : segment (segment made (fail eof)).rendition (ok (7 ∷ [])) ≡ record {
  rendition = (segment made (fail eof)).rendition;
  content = none;
  err = some (with_generation eof "g-00");
  used = false;
}
failure_sticks_example = failure_sticks made eof (ok (7 ∷ [])) refl refl refl eof_fatal

candidates-Tiers_example : Tiers both full.tokens (candidates both full.tokens)
candidates-Tiers_example = candidates-Tiers both full.tokens

acquire-InLimits_example : InLimits both ((acquire both contract works full).0).tokens
unfolding new_manager
acquire-InLimits_example =
    acquire-InLimits both contract works full
      (record { cpu_limit = omega arith; device_limit = λ p d. omega arith })
