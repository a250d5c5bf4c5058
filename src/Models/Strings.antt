-- ===== src/Models/Strings.antt =====
-- Strings as lists of bytes.
use Prim.Native.Char.{code}
use buildbeaver.Base.{◌==◌, ℕ, String, Bool, true, false, ◌&&◌, List, [], ◌∷◌}

abbrev pub Text : Type 0
Text = List ℕ

-- The bytes of an ASCII literal.
abbrev pub codes : String → Text
codes String.[] = []
codes (String.◌∷◌ c s) = code c ∷ codes s

unfoldable pub text_eq : Text → Text → Bool
text_eq [] [] = true
text_eq (a ∷ s) (b ∷ t) = a == b && text_eq s t
text_eq _ _ = false

unfoldable pub is_empty : Text → Bool
is_empty [] = true
is_empty _ = false
