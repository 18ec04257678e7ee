-- ===== src/Base/Floats/Signed.antt =====
-- Fixed-point numbers with three places and a sign, as a concrete instance of the floats for the
-- tests: `(a, b)` is `(a - b) / 1000`. Products, quotients and rounding are for numbers from 0 up.
use Prim.Native.Nat.{ℕ, ◌+◌, ◌-◌, ◌*◌, ◌/◌, ◌^◌}
use native.Mathlib.Omega.{arith}
use hotel_server_v.Base.Tests.{ltb, eqb}
use hotel_server_v.Base.Floats.{Floats, IsOrdered, Negates}

abbrev size : ℕ × ℕ → ℕ
size (a, b) = a - b

abbrev pub signed : Floats
signed = record {
  F = ℕ × ℕ;
  decimal = λ n k. (n * 1000 / 10 ^ k, 0);
  negate = λ a. (a.1, a.0);
  add = λ a b. (a.0 + b.0, a.1 + b.1);
  subtract = λ a b. (a.0 + b.1, a.1 + b.0);
  multiply = λ a b. (size a * size b / 1000, 0);
  divide = λ a b. (size a * 1000 / size b, 0);
  rounded = λ k a. let unit = 10 ^ (3 - k) in (size a / unit * unit, 0);
  lt = λ a b. ltb (a.0 + b.1) (b.0 + a.1);
  equal = λ a b. eqb (a.0 + b.1) (b.0 + a.1);
}

pub signed-IsOrdered : IsOrdered signed
signed-IsOrdered = record {
  symmetric = λ a b. ground arith;
  equal_trans = λ a b c h k. ground (arith, h, k);
  asymmetric = λ a b h. ground (arith, h);
  lt_trans = λ a b c h k. ground (arith, h, k);
  apart = λ a b h k. ground (arith, h, k);
  equal_lt = λ a b c h. ground (arith, h);
  lt_equal = λ a b c h. ground (arith, h);
  irreflexive = λ a b h. ground (arith, h);
}

pub signed-Negates : Negates signed
signed-Negates = record { lt_negate = λ a b. ground arith; equal_negate = λ a b. ground arith }
