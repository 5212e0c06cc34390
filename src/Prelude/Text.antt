-- ===== src/Prelude/Text.antt =====
-- Equality of texts, with the facts about it that the components use.
use Prim.Native.Nat.{ℕ}
use Prim.Native.Char.{code}
use Prim.Native.String.{String, ◌++◌}
use mathlib.Core.List.{List, [], ◌∷◌}
use mathlib.Core.Path.{◌≡◌, refl}
use mathlib.Core.Logic.{◌≢◌}
use mathlib.Core.Bool.{Bool, true, false}
use native.Mathlib.Omega.{arith}
use text.Mathlib.Text.{◌==◌}
use text.Mathlib.TextEquality.{eq_iff}

-- Go's `==` on strings.
abbrev pub str_eq : String → String → Bool
str_eq s t = s == t

pub str_eq_refl : (s : String) → str_eq s s ≡ true
str_eq_refl s = (eq_iff s s).1 refl

pub eq_of_str_eq : (s t : String) → str_eq s t ≡ true → s ≡ t
eq_of_str_eq s t h = (eq_iff s t).0 h

pub str_eq_of_ne : (s t : String) → s ≢ t → str_eq s t ≡ false
str_eq_of_ne s t h = ground (arith, eq_iff s t)

-- `s == ""`.
abbrev pub is_blank : String → Bool
is_blank s = str_eq s ""

-- Go's `+` on strings.
abbrev pub str_append : String → String → String
str_append s t = s ++ t

-- The code points of a text.
abbrev pub codes : String → List ℕ
codes String.[] = []
codes (String.◌∷◌ c s) = code c ∷ codes s
