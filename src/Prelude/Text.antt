-- ===== src/Prelude/Text.antt =====
-- Comparison of texts, and membership of a text in a list (`names.includes(s)`).
use Prim.Native.String.{String}
use mathlib.Core.Path.{◌≡◌}
use mathlib.Core.Logic.{◌≢◌}
use mathlib.Core.Bool.{Bool, true, false, ◌||◌}
use mathlib.Core.List.{List, [], ◌∷◌}
use native.Mathlib.Omega.{arith}
use text.Mathlib.Text.{◌==◌}
use text.Mathlib.TextEquality.{eq_iff}
use text.Mathlib.TextPositions.{eq_refl}

pub str_eq_refl : (s : String) → (s == s) ≡ true
str_eq_refl s = eq_refl s

pub str_eq_true : (s t : String) → (s == t) ≡ true → s ≡ t
str_eq_true s t h = (eq_iff s t).0 h

pub str_eq_false : (s t : String) → s ≢ t → (s == t) ≡ false
str_eq_false s t h = ground (arith, eq_iff s t)

abbrev pub includes : List String → String → Bool
includes [] s = false
includes (x ∷ xs) s = x == s || includes xs s

pub str_eq_sym : (s t : String) → (s == t) ≡ false → (t == s) ≡ false
str_eq_sym s t h = ground (arith, eq_iff s t, eq_iff t s)
