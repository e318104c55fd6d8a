-- ===== src/Prelude/Text.antt =====
-- Comparison of texts.
use Prim.Native.String.{String}
use mathlib.Core.Path.{◌≡◌}
use native.Mathlib.Omega.{arith}
use text.Mathlib.Text.{◌==◌}
use text.Mathlib.TextEquality.{eq_iff}

pub str_eq_comm : (a b : String) → (a == b) ≡ (b == a)
str_eq_comm a b = ground (arith, eq_iff a b, eq_iff b a)
