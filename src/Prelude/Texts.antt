-- ===== src/Prelude/Texts.antt =====
-- Equality of texts as a test, their length in characters, and appending.
use Prim.Native.Nat.{ℕ, suc, ◌+◌}
use Prim.Native.String.append
use native.Mathlib.Omega.{arith}
use Prim.Native.String.{String, ◌++◌}
use mathlib.Core.Path.{◌≡◌, ap, ◌∙◌}
use mathlib.Core.Bool.{Bool, true}
use text.Mathlib.Text.{◌==◌}
use text.Mathlib.TextPositions.{eq_refl}
use text.Mathlib.TextEquality.{eq_iff}

abbrev pub same_text : String → String → Bool
same_text s t = s == t

pub same_text_refl : (s : String) → same_text s s ≡ true
same_text_refl s = eq_refl s

pub same_text→eq : (s t : String) → same_text s t ≡ true → s ≡ t
same_text→eq s t h = (eq_iff s t).0 h

abbrev pub text_length : String → ℕ
text_length String.[] = 0
text_length (String.◌∷◌ c s) = suc (text_length s)

abbrev pub append_text : String → String → String
append_text s t = s ++ t

pub text_length-append :
    (s t : String) → text_length (append_text s t) ≡ text_length s + text_length t
text_length-append String.[] t = ap text_length (append.nil t) ∙ omega arith
text_length-append (String.◌∷◌ c s) t =
    ap text_length (append.cons c s t) ∙ omega (arith, text_length-append s t)
