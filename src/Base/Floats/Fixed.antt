-- ===== src/Base/Floats/Fixed.antt =====
-- Fixed-point numbers with three places, as a concrete instance of the floats for the tests. The
-- number `x / 1000` is `origin + x`; products, quotients and rounding are for numbers from 0 up.
use Prim.Native.Nat.{ℕ, ◌+◌, ◌-◌, ◌*◌, ◌/◌, ◌^◌}
use native.Mathlib.Omega.{arith}
use hotel_server_v.Base.Tests.{ltb, eqb}
use hotel_server_v.Base.Floats.{Floats, IsOrdered}

abbrev origin : ℕ
origin = 1000000

abbrev pub fixed : Floats
fixed = record {
  F = ℕ;
  decimal = λ n k. origin + n * 1000 / 10 ^ k;
  negate = λ a. origin + origin - a;
  add = λ a b. a + b - origin;
  subtract = λ a b. a + origin - b;
  multiply = λ a b. origin + (a - origin) * (b - origin) / 1000;
  divide = λ a b. origin + (a - origin) * 1000 / (b - origin);
  rounded = λ k a. let unit = 10 ^ (3 - k) in origin + (a - origin) / unit * unit;
  lt = ltb;
  equal = eqb;
}

pub fixed-IsOrdered : IsOrdered fixed
fixed-IsOrdered = record {
  symmetric = λ a b. ground arith;
  equal_trans = λ a b c h k. ground (arith, h, k);
  asymmetric = λ a b h. ground (arith, h);
  lt_trans = λ a b c h k. ground (arith, h, k);
  apart = λ a b h k. ground (arith, h, k);
  equal_lt = λ a b c h. ground (arith, h);
  lt_equal = λ a b c h. ground (arith, h);
  irreflexive = λ a b h. ground (arith, h);
}
