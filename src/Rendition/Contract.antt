-- ===== src/Rendition/Contract.antt =====
-- media/rendition/types.go `OutputContract`, and its validation in media/rendition/manager.go.
--
-- Go's `int` and `int64` are integers here.
use Prim.Native.String.{String}
use text.Mathlib.Text.{◌==◌}
use text.Mathlib.TextEquality.{eq_iff}
use torrent_go.Prelude.{
  ◌%◌, leb, ◌≡◌, Bool, true, not, ◌&&◌, if◌then◌else◌, Option, none, some, arith,
}
use torrent_go.Prelude.Int.{ℤ, pos, negsuc, leb_ℤ}

pub record Rational : Type 0 where
  pub num : ℤ
  pub den : ℤ

pub record RateControl : Type 0 where
  pub target_bitrate : ℤ
  pub max_bitrate : ℤ

pub record GopContract : Type 0 where
  pub segment_duration : Rational
  pub closed : Bool
  pub idr_at_boundary : Bool

pub record ColorContract : Type 0 where
  pub primaries : String
  pub transfer : String
  pub matrix : String
  pub range : String

pub record OutputContract : Type 0 where
  pub codec : String
  pub codec_string : String
  pub profile : String
  pub level : String
  pub width : ℤ
  pub height : ℤ
  pub pixel_format : String
  pub frame_rate : Rational
  pub time_base : Rational
  pub rate_control : RateControl
  pub gop : GopContract
  pub color : ColorContract

-- `x > 0`.
abbrev positive : ℤ → Bool
positive x = not (leb_ℤ x (pos 0))

-- `x%2 == 0`; Go's remainder of a negative number is 0 or -1.
abbrev even : ℤ → Bool
even (pos n) = leb (n % 2) 0
even (negsuc n) = not (leb (n % 2) 0)

abbrev positive_rational : Rational → Bool
positive_rational r = positive r.num && positive r.den

abbrev codec_ok : OutputContract → Bool
codec_ok c =
    c.codec == "h264"
    && (not (c.codec_string == "") && (c.profile == "high" && not (c.level == "")))

abbrev size_ok : OutputContract → Bool
size_ok c = positive c.width && (positive c.height && (even c.width && even c.height))

abbrev rate_ok : RateControl → Bool
rate_ok r = positive r.target_bitrate && leb_ℤ r.target_bitrate r.max_bitrate

abbrev gop_ok : GopContract → Bool
gop_ok g = positive_rational g.segment_duration && (g.closed && g.idr_at_boundary)

abbrev color_ok : ColorContract → Bool
color_ok c =
    c.primaries == "bt709"
    && (c.transfer == "bt709" && (c.matrix == "bt709" && not (c.range == "")))

-- The text of the error, or `none` for a contract that can be met.
unfoldable pub validate_output_contract : OutputContract → Option String
validate_output_contract c =
    if not (codec_ok c)
    then some "H.264 High profile, level, and codec string are required"
    else (if not (size_ok c)
        then some "4:2:0 dimensions must be positive and even"
        else (if not (c.pixel_format == "yuv420p")
            then some "8-bit yuv420p output is required"
            else (if not (positive_rational c.frame_rate && positive_rational c.time_base)
                then some "positive frame rate and time base are required"
                else (if not (rate_ok c.rate_control)
                    then some "valid constrained-VBR bitrate envelope is required"
                    else (if not (gop_ok c.gop)
                        then some "closed GOP with an IDR at every segment boundary is required"
                        else (if not (color_ok c.color)
                            then some "explicit SDR BT.709 color contract is required"
                            else none))))))

-- `==` of Go's structs.
abbrev same_ℤ : ℤ → ℤ → Bool
same_ℤ x y = leb_ℤ x y && leb_ℤ y x

abbrev same_flag : Bool → Bool → Bool
same_flag a b = if a then b else not b

abbrev same_rational : Rational → Rational → Bool
same_rational r s = same_ℤ r.num s.num && same_ℤ r.den s.den

abbrev same_rate : RateControl → RateControl → Bool
same_rate r s = same_ℤ r.target_bitrate s.target_bitrate && same_ℤ r.max_bitrate s.max_bitrate

abbrev same_gop : GopContract → GopContract → Bool
same_gop g h =
    same_rational g.segment_duration h.segment_duration
    && (same_flag g.closed h.closed && same_flag g.idr_at_boundary h.idr_at_boundary)

abbrev same_color : ColorContract → ColorContract → Bool
same_color c d =
    c.primaries == d.primaries
    && (c.transfer == d.transfer && (c.matrix == d.matrix && c.range == d.range))

unfoldable pub same_contract : OutputContract → OutputContract → Bool
same_contract c d =
    c.codec == d.codec
    && (c.codec_string == d.codec_string
        && (c.profile == d.profile
            && (c.level == d.level
                && (same_ℤ c.width d.width
                    && (same_ℤ c.height d.height
                        && (c.pixel_format == d.pixel_format
                            && (same_rational c.frame_rate d.frame_rate
                                && (same_rational c.time_base d.time_base
                                    && (same_rate c.rate_control d.rate_control
                                        && (same_gop c.gop d.gop
                                            && same_color c.color d.color))))))))))

same_ℤ-eq : (x y : ℤ) → same_ℤ x y ≡ true → x ≡ y
same_ℤ-eq x y e = ground arith

same_flag-eq : (a b : Bool) → same_flag a b ≡ true → a ≡ b
same_flag-eq a b e = ground arith

same_rational-eq : (r s : Rational) → same_rational r s ≡ true → r ≡ s
same_rational-eq r s e = ground (arith, same_ℤ-eq r.num s.num, same_ℤ-eq r.den s.den)

same_rate-eq : (r s : RateControl) → same_rate r s ≡ true → r ≡ s
same_rate-eq r s e =
    ground
      (arith, same_ℤ-eq r.target_bitrate s.target_bitrate, same_ℤ-eq r.max_bitrate s.max_bitrate)

same_gop-eq : (g h : GopContract) → same_gop g h ≡ true → g ≡ h
same_gop-eq g h e = ground (
  arith,
  same_rational-eq g.segment_duration h.segment_duration,
  same_flag-eq g.closed h.closed,
  same_flag-eq g.idr_at_boundary h.idr_at_boundary,
)

same_color-eq : (c d : ColorContract) → same_color c d ≡ true → c ≡ d
same_color-eq c d e = ground (
  arith,
  eq_iff c.primaries d.primaries,
  eq_iff c.transfer d.transfer,
  eq_iff c.matrix d.matrix,
  eq_iff c.range d.range,
)

and_both : (a b : Bool) → (a && b) ≡ true → (a ≡ true) × (b ≡ true)
and_both a b e = ground arith

pub same_contract-eq : (c d : OutputContract) → same_contract c d ≡ true → c ≡ d
unfolding same_contract
same_contract-eq c d e =
    let (h1, t1) = and_both _ _ e in
    let (h2, t2) = and_both _ _ t1 in
    let (h3, t3) = and_both _ _ t2 in
    let (h4, t4) = and_both _ _ t3 in
    let (h5, t5) = and_both _ _ t4 in
    let (h6, t6) = and_both _ _ t5 in
    let (h7, t7) = and_both _ _ t6 in
    let (h8, t8) = and_both _ _ t7 in
    let (h9, t9) = and_both _ _ t8 in
    let (h10, t10) = and_both _ _ t9 in
    let (h11, h12) = and_both _ _ t10 in
    let e1 = (eq_iff c.codec d.codec).0 h1 in
    let e2 = (eq_iff c.codec_string d.codec_string).0 h2 in
    let e3 = (eq_iff c.profile d.profile).0 h3 in
    let e4 = (eq_iff c.level d.level).0 h4 in
    let e5 = same_ℤ-eq c.width d.width h5 in
    let e6 = same_ℤ-eq c.height d.height h6 in
    let e7 = (eq_iff c.pixel_format d.pixel_format).0 h7 in
    let e8 = same_rational-eq c.frame_rate d.frame_rate h8 in
    let e9 = same_rational-eq c.time_base d.time_base h9 in
    let e10 = same_rate-eq c.rate_control d.rate_control h10 in
    let e11 = same_gop-eq c.gop d.gop h11 in
    let e12 = same_color-eq c.color d.color h12 in
    λ i. record {
      codec = e1 i;
      codec_string = e2 i;
      profile = e3 i;
      level = e4 i;
      width = e5 i;
      height = e6 i;
      pixel_format = e7 i;
      frame_rate = e8 i;
      time_base = e9 i;
      rate_control = e10 i;
      gop = e11 i;
      color = e12 i;
    }
