-- ===== src/Common/Float.antt =====
-- The floats of the program: bucket bounds, scores and thresholds, which are decimal fractions of a
-- second, -1 and infinity. A finite one is a whole number of millionths.
use mathlib.Core.Path.{◌≡◌, refl}
use mathlib.Core.Logic.{◌↔◌}
use mathlib.Core.Bool.{Bool, true, false}
use native.Mathlib.Omega.{arith}
use aristote_dispatcher.Common.Int.{ℤ, negsuc, ltb_ℤ, int_beq, int_beq_iff}
use aristote_dispatcher.Common.Tests.{Eq}

pub data Float : Type 0 where
  finite : ℤ → Float
  inf : Float

-- `a < b`
abbrev pub ltb_float : Float → Float → Bool
ltb_float (finite a) (finite b) = ltb_ℤ a b
ltb_float (finite a) inf = true
ltb_float inf b = false

abbrev pub float_beq : Float → Float → Bool
float_beq (finite a) (finite b) = int_beq a b
float_beq (finite a) inf = false
float_beq inf (finite b) = false
float_beq inf inf = true

pub float_beq_iff : (a b : Float) → (float_beq a b ≡ true) ↔ (a ≡ b)
float_beq_iff (finite a) (finite b) = ground (arith, int_beq_iff a b)
float_beq_iff (finite a) inf = (λ h. cc, λ h. cc)
float_beq_iff inf (finite b) = (λ h. cc, λ h. cc)
float_beq_iff inf inf = (λ _. refl, λ _. refl)

instance abbrev pub float_eq : Eq Float
float_eq = record { test = float_beq; decides = float_beq_iff }

abbrev pub minus_one : Float
minus_one = finite (negsuc 999999)
