-- ===== src/Base/Rational.antt =====
-- The numbers of a JSON text, and finite floats, as exact fractions. Comparisons are exact, as those
-- of Python between ints and finite floats are.
use Prim.Native.Nat.{ℕ, suc, ◌+◌, ◌-◌, ◌*◌, ◌/◌, ◌^◌}
use mathlib.Core.Bool.{Bool}
use hotel_server_v.Base.Tests.{ltb, leb, eqb}

-- (up - down) / (below + 1)
pub record Rational : Type 0 where
  pub up : ℕ
  pub down : ℕ
  pub below : ℕ

abbrev pub of_ℕ : ℕ → Rational
of_ℕ n = record { up = n; down = 0; below = 0 }

abbrev pub rat_lt : Rational → Rational → Bool
rat_lt a b =
    ltb (a.up * suc b.below + b.down * suc a.below) (b.up * suc a.below + a.down * suc b.below)

abbrev pub rat_le : Rational → Rational → Bool
rat_le a b =
    leb (a.up * suc b.below + b.down * suc a.below) (b.up * suc a.below + a.down * suc b.below)

abbrev pub rat_eq : Rational → Rational → Bool
rat_eq a b =
    eqb (a.up * suc b.below + b.down * suc a.below) (b.up * suc a.below + a.down * suc b.below)

-- A number that is not negative, rounded to a scale, halves up.
abbrev pub round_half_up : ℕ → Rational → Rational
round_half_up scale r = record {
  up = (r.up * 10 ^ scale * 2 + suc r.below) / (2 * suc r.below);
  down = 0;
  below = 10 ^ scale - 1;
}
