-- ===== src/Base/Comparison.antt =====
-- `==` and `<` of sort keys, and `<` of tuples of keys.
use mathlib.Core.Path.{◌≡◌}
use mathlib.Core.Bool.{Bool, true, false}
use native.Mathlib.Omega.{arith}
use hotel_server_v.Base.Tests.{if◌then◌else◌}
use hotel_server_v.Base.Sort.{IsStrict}

pub record IsComparison {ℓ} {K : Type ℓ} (equal lt : K → K → Bool) : Type ℓ where
  pub symmetric : (a b : K) → equal a b ≡ equal b a
  pub equal_trans : (a b c : K) → equal a b ≡ true → equal b c ≡ true → equal a c ≡ true
  pub asymmetric : (a b : K) → lt a b ≡ true → lt b a ≡ false
  pub lt_trans : (a b c : K) → lt a b ≡ true → lt b c ≡ true → lt a c ≡ true
  pub apart : (a b : K) → equal a b ≡ false → lt a b ≡ false → lt b a ≡ true
  pub equal_lt : (a b c : K) → equal a b ≡ true → lt a c ≡ lt b c
  pub lt_equal : (a b c : K) → equal a b ≡ true → lt c a ≡ lt c b
  pub irreflexive : (a b : K) → equal a b ≡ true → lt a b ≡ false

-- Two tuples compared: on `==` first components, the rest decides.
abbrev pub first_or_rest : Bool → Bool → Bool → Bool
first_or_rest equal less rest = if equal then rest else less

-- The comparison of tuples is strict, if that of the rest is.
pub first_or_rest-IsStrict {ℓ κ} :
    {A : Type ℓ} {K : Type κ} (equal lt : K → K → Bool) (key : A → K) (rest : A → A → Bool)
    → IsComparison equal lt
    → IsStrict rest
    → IsStrict (λ a b. first_or_rest (equal (key a) (key b)) (lt (key a) (key b)) (rest a b))
first_or_rest-IsStrict equal lt key rest c s = record {
  asym = λ a b h.
      ground (arith, h, c.symmetric (key a) (key b), c.asymmetric (key a) (key b), s.asym a b);
  trans = λ a b d h k.
      let x = key a in
      let y = key b in
      let z = key d in
      ground (
        arith,
        h,
        k,
        s.trans a b d,
        c.symmetric y x,
        c.symmetric z y,
        c.symmetric z x,
        c.equal_trans z y x,
        c.equal_trans x y z,
        c.equal_trans x z y,
        c.equal_trans y x z,
        c.equal_trans y z x,
        c.equal_trans z x y,
        c.apart y x,
        c.apart z y,
        c.lt_trans x y z,
        c.equal_lt x y z,
        c.lt_equal y z x,
        c.asymmetric x z,
        c.irreflexive x z,
      );
}
