-- ===== src/Base/Floats.antt =====
-- Python floats, as far as the program computes with them. The type and its operations are a
-- parameter: IEEE arithmetic and `round` are the language's. NaN is left out, since the columns and
-- requests that the values come from hold numbers.
pub mod Fixed
pub mod Signed
use Prim.Native.Nat.{ℕ}
use mathlib.Core.Path.{◌≡◌}
use mathlib.Core.Bool.{Bool, true, false}
use hotel_server_v.Base.Comparison.{IsComparison}

pub record Floats : Type 1 where
  pub F : Type 0
  -- the literal `n / 10 ** k`
  pub decimal : ℕ → ℕ → F
  pub negate : F → F
  pub add : F → F → F
  pub subtract : F → F → F
  pub multiply : F → F → F
  pub divide : F → F → F
  -- `round(x, k)`
  pub rounded : ℕ → F → F
  pub lt : F → F → Bool
  pub equal : F → F → Bool

module _ (f : Floats) where
  open f use {F, decimal, lt}

  abbrev pub whole : ℕ → F
  whole n = decimal n 0

  -- `min(a, b)` and `max(a, b)`: the first of equal arguments
  abbrev pub float_min : F → F → F
  float_min a b = elim (lt b a) [ true ↦ b | false ↦ a ]

  abbrev pub float_max : F → F → F
  float_max a b = elim (lt a b) [ true ↦ b | false ↦ a ]

-- `<` is a strict total order, and `==` is the equality that goes with it.
abbrev pub IsOrdered : Floats → Type 0
IsOrdered f = IsComparison f.equal f.lt

-- Negation reverses the order.
pub record Negates (f : Floats) : Type 0 where
  pub lt_negate : (a b : f.F) → f.lt (f.negate a) (f.negate b) ≡ f.lt b a
  pub equal_negate : (a b : f.F) → f.equal (f.negate a) (f.negate b) ≡ f.equal a b
