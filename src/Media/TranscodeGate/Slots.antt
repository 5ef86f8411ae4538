-- ===== src/Media/TranscodeGate/Slots.antt =====
-- The gate never has more slots in use than its limit, and a limit from the environment is sane.
use torrent_go.Media.TranscodeGate.{
  VideoTranscodeGate, clamped, parse_video_transcode_limit, new_video_transcode_gate, given_back,
  release, Reachable, start, acquire, release_step,
}
use torrent_go.Prelude.{
  ℕ, zero, suc, ◌≤◌, ◌≡◌, refl, ap, ◌∙◌, Bool, true, false, Option, none, some, List, [], ◌∷◌,
  get_elem?, set, arith,
}
use torrent_go.Prelude.Bytes.{Bytes, trim_space}
use torrent_go.Prelude.Decimal.{atoi}
use torrent_go.Prelude.Int.{ℤ, pos, negsuc}

-- The calls that still hold a slot.
abbrev pub live : List Bool → ℕ
live [] = 0
live (true ∷ hs) = suc (live hs)
live (false ∷ hs) = live hs

live-set :
    (hs : List Bool) (i : ℕ) → get_elem? hs i ≡ some true → suc (live (set hs i false)) ≡ live hs
live-set [] i e = cc
live-set (true ∷ hs) zero e = refl
live-set (false ∷ hs) zero e = cc
live-set (true ∷ hs) (suc i) e = ap suc (live-set hs i e)
live-set (false ∷ hs) (suc i) e = live-set hs i e

pub record IsCounted (limit : ℕ) (g : VideoTranscodeGate) : Type 0 where
  pub same_limit : g.limit ≡ limit
  pub exact : g.slots ≡ live g.holders
  pub in_limit : g.slots ≤ limit

back-IsCounted :
    (o : Option Bool) (limit i : ℕ) (g : VideoTranscodeGate)
    → get_elem? g.holders i ≡ o
    → IsCounted limit g
    → IsCounted limit (given_back o i g)
back-IsCounted none limit i g e h = h
back-IsCounted (some false) limit i g e h = h
back-IsCounted (some true) limit i g e h = record {
  same_limit = h.same_limit;
  exact = omega (arith, live-set g.holders i e, h.exact);
  in_limit = omega (arith, h.in_limit);
}

-- Whatever the goroutines do, the slots in use are those of the calls that have not given theirs
-- back, and there are at most as many as the limit.
pub reachable-IsCounted :
    {limit : ℕ} {g : VideoTranscodeGate} → Reachable limit g → IsCounted limit g
unfolding new_video_transcode_gate release
reachable-IsCounted {limit} start = record {
  same_limit = refl;
  exact = refl;
  in_limit = omega arith;
}
reachable-IsCounted {limit} (acquire {g = g} r free) =
    let h = reachable-IsCounted r in
    record {
      same_limit = h.same_limit;
      exact = ap suc h.exact;
      in_limit = omega (arith, h.same_limit, free);
    }
reachable-IsCounted {limit} (release_step {g = g} i r) =
    back-IsCounted (get_elem? g.holders i) limit i g refl (reachable-IsCounted r)

clamped-bounds : (o : Option ℤ) → (1 ≤ clamped o) × (clamped o ≤ 8)
clamped-bounds none = omega arith
clamped-bounds (some (pos n)) = ground arith
clamped-bounds (some (negsuc n)) = ground arith

-- The limit is between 1 and 8 for every text, and it is the number of the text where that lies in
-- this range.
pub limit_bounds :
    (value : Bytes)
    → (1 ≤ parse_video_transcode_limit value)
      × (parse_video_transcode_limit value ≤ 8)
      × ((n : ℕ)
          → atoi (trim_space value) ≡ some (pos n)
          → 1 ≤ n
          → n ≤ 8
          → parse_video_transcode_limit value ≡ n)
unfolding parse_video_transcode_limit
limit_bounds value =
    let (lo, hi) = clamped-bounds (atoi (trim_space value)) in
    (lo, hi, λ n e a b. ap clamped e ∙ ground arith)
