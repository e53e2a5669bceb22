-- ===== src/Base/Float.antt =====
-- float64 is a parameter: `strconv.ParseFloat(s, 64)`, which fails on what is no number, and `==`.
-- No law is assumed here; a value that is not equal to itself is a NaN.
use Prim.Native.String.{String}
use mathlib.Core.Bool.{Bool}
use mathlib.Core.Option.{Option}

pub record FloatOps (Float : Type 0) : Type 0 where
  pub parse_float : String → Option Float
  pub float_eq : Float → Float → Bool

abbrev pub parse_float : {Float : Type 0} ⦃N : FloatOps Float⦄ → String → Option Float
parse_float ⦃N⦄ = N.parse_float

abbrev pub float_eq : {Float : Type 0} ⦃N : FloatOps Float⦄ → Float → Float → Bool
float_eq ⦃N⦄ = N.float_eq
