-- ===== src/Base/Float64.antt =====
-- Go's float64, as far as the code computes with it. antt has no floats: the type and its
-- operations are a parameter of the definitions that use them.
use mathlib.Core.Bool.{Bool}
use ultiproxy.Base.Int.{ℤ}

pub record Float : Type 1 where
  pub F : Type 0
  -- float64(n) and int64(x)
  pub of_int : ℤ → F
  pub to_int : F → ℤ
  pub add : F → F → F
  pub sub : F → F → F
  pub mul : F → F → F
  -- x < y and x <= y
  pub lt : F → F → Bool
  pub le : F → F → Bool
