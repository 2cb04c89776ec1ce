-- ===== src/Keyer/Floats.antt =====
-- The `float` arithmetic that the keyer uses. Its rounding is not modelled: a type of floats and its
-- operations are a parameter of what computes with them.
use cwsd.Shared.{ℕ, Bool}

-- `literal n k` is the literal of n / 10 ^ k; `to_u32` is the conversion to an integer, cut to
-- `uint32_t`.
pub record Floats : Type 1 where
  pub Float : Type 0
  pub of_ℕ : ℕ → Float
  pub to_u32 : Float → ℕ
  pub literal : ℕ → ℕ → Float
  pub plus : Float → Float → Float
  pub minus : Float → Float → Float
  pub times : Float → Float → Float
  pub over : Float → Float → Float
  pub abs : Float → Float
  pub at_most : Float → Float → Bool
