-- ===== src/Rendition/Identity.antt =====
-- The key of a hardware device in media/rendition/manager.go: `provider.Name() + "/" + device.ID`.
use Prim.Native.Char.{Char, code}
use Prim.Native.String.append
use Prim.Native.String.{String, [], ◌∷◌, ◌++◌}
use torrent_go.Prelude.{◌≡◌, refl, sym, ◌∙◌, ap, Bool, true, false, ◌≢◌, ◌||◌, ◌==◌, arith}

unfoldable pub identity : String → String → String
identity name id = name ++ ("/" ++ id)

abbrev slash : Char
slash = "/"

abbrev has_slash : String → Bool
has_slash [] = false
has_slash (c ∷ s) = (code c == 47) || has_slash s

identity-has_slash : (name id : String) → has_slash (identity name id) ≡ true
unfolding identity
identity-has_slash [] id =
    let f : ([] ++ ("/" ++ id)) ≡ (slash ∷ ([] ++ id)) = append.nil _ ∙ append.cons slash [] id in
    ap has_slash f
identity-has_slash (c ∷ s) id =
    let f : ((c ∷ s) ++ ("/" ++ id)) ≡ (c ∷ (s ++ ("/" ++ id))) = append.cons c s _ in
    let rest = identity-has_slash s id in ap has_slash f ∙ ground arith

cpu-has_slash : has_slash "cpu" ≡ false
cpu-has_slash = refl

-- No device shares the gate of the CPU: its key has a slash.
pub identity_not_cpu : (name id : String) → identity name id ≢ "cpu"
identity_not_cpu name id e =
    let both : true ≡ has_slash "cpu" = sym (identity-has_slash name id) ∙ ap has_slash e in
    absurd (cc (both ∙ cpu-has_slash))
