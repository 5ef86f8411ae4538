-- ===== src/Media/Packets/Order.antt =====
-- The order of the timestamps that a muxer gets.
use mathlib.Core.Path.{subst}
use torrent_go.Prelude.{
  ℕ, ◌≡◌, refl, sym, ap, false, if_both, Option, none, some, List, [], ◌∷◌, arith,
}
use torrent_go.Prelude.Int.{ℤ, pos, ◌+ℤ◌, ◌≤ℤ◌, leb_ℤ, ltb_ℤ, int_laws}
use torrent_go.Prelude.Assoc.{lookup, insert}
use torrent_go.Media.Packets.{
  Packet, LastDts, or_pts, past, pts_from, sanitize_from, sanitize_copy_dts, sanitize_all,
}

abbrev Exceeds : Option ℤ → ℤ → Type 0
Exceeds none dts = Unit {0}
Exceeds (some l) dts = (l +ℤ pos 1) ≤ℤ dts

abbrev NotBefore : ℤ → Option ℤ → Type 0
NotBefore dts none = ⊥
NotBefore dts (some pts) = dts ≤ℤ pts

-- The decoding time is after the last one of the stream, and the presentation time is not before it.
abbrev Ordered : Option ℤ → Option ℤ → Option ℤ → Type 0
Ordered low none pts = Unit {0}
Ordered low (some dts) pts = Exceeds low dts × NotBefore dts pts

abbrev noted : Option ℤ → ℕ → LastDts → LastDts
noted none i last = last
noted (some dts) i last = insert i dts last

-- Each packet is in order after the packets of its stream that come before it.
abbrev pub AllOrdered : List (ℕ × Packet) → LastDts → Type 0
AllOrdered [] last = Unit {0}
AllOrdered ((i, p) ∷ ps) last =
    Ordered (lookup i last) p.dts p.pts × AllOrdered ps (noted p.dts i last)

past-Exceeds : (o : Option ℤ) (dts : ℤ) → Exceeds o (past o dts)
past-Exceeds none dts = tt
past-Exceeds (some l) dts =
    if_both (λ (d : ℤ). (l +ℤ pos 1) ≤ℤ d) (leb_ℤ dts l) (λ h. le_self (l +ℤ pos 1)) (λ h. above h)
  where
    le_self : (a : ℤ) → a ≤ℤ a
    le_self a = omega arith

    parts : leb_ℤ dts l ≡ false → ¬ (dts ≤ℤ l)
    parts h = ground arith

    above : leb_ℤ dts l ≡ false → (l +ℤ pos 1) ≤ℤ dts
    above h = let k = parts h in omega (int_laws, k)

pts_from-le : (o : Option ℤ) (dts : ℤ) → dts ≤ℤ pts_from o dts
pts_from-le none dts = omega arith
pts_from-le (some p) dts =
    if_both (λ (q : ℤ). dts ≤ℤ q) (ltb_ℤ p dts) (λ h. le_self dts) (λ h. ground arith)
  where
    le_self : (a : ℤ) → a ≤ℤ a
    le_self a = omega arith

-- What one call leaves.
abbrev Sanitized : ℕ → LastDts → Packet × LastDts → Type 0
Sanitized i last (p, after) = Ordered (lookup i last) p.dts p.pts × (after ≡ noted p.dts i last)

sanitize_from-Sanitized :
    (p : Packet) (i : ℕ) (last : LastDts) (dts pts : Option ℤ)
    → p.dts ≡ dts
    → p.pts ≡ pts
    → Sanitized i last (sanitize_from (or_pts dts pts) p i last)
sanitize_from-Sanitized p i last none none e f =
    (subst (λ d. Ordered (lookup i last) d p.pts) (sym e) tt, sym (ap (λ d. noted d i last) e))
sanitize_from-Sanitized p i last (some d) pts e f =
    ((past-Exceeds (lookup i last) d, pts_from-le p.pts (past (lookup i last) d)), refl)
sanitize_from-Sanitized p i last none (some q) e f =
    ((past-Exceeds (lookup i last) q, pts_from-le p.pts (past (lookup i last) q)), refl)

-- Whatever timestamps the demuxer gives, missing and falling ones too: of the packets of each output
-- stream that have a timestamp at all, each gets a decoding time after the one before it, and a presentation time that
-- is not before its decoding time. The streams may be interleaved in any way.
pub sanitize_all-AllOrdered :
    (ps : List (ℕ × Packet)) (last : LastDts) → AllOrdered (sanitize_all ps last) last
unfolding sanitize_all sanitize_copy_dts
sanitize_all-AllOrdered [] last = tt
sanitize_all-AllOrdered ((i, p) ∷ ps) last =
    let (ordered, after) = sanitize_from-Sanitized p i last p.dts p.pts refl refl in
    (
      ordered,
      subst (AllOrdered (sanitize_all ps (sanitize_copy_dts p i last).1)) after
          (sanitize_all-AllOrdered ps (sanitize_copy_dts p i last).1),
    )
