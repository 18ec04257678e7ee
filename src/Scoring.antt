-- ===== src/Scoring.antt =====
-- domain/scoring.py: contributions and the bell curve over any floats.
pub mod Aggregates
mod Tests
use hotel_server_v.Base.{
  ℕ, suc, Bool, false, List, [], ◌∷◌, length, ◌≡◌, inl, inr, Bool-cases, ltb, if◌then◌else◌,
}
use hotel_server_v.Base.Floats.{Floats, whole, float_min, float_max}
use hotel_server_v.Base.Exec.{Result, ok, err}
use hotel_server_v.Errors.{scoring}
use hotel_server_v.Sentiment.Payload.{Sentiment}

-- What the module takes from Python's `math` and `statistics`.
pub record Statistics (f : Floats) : Type 0 where
  pub erf : f.F → f.F
  pub sqrt : f.F → f.F
  pub fmean : List f.F → f.F
  pub pstdev : List f.F → f.F

pub record PopulationStats (F : Type 0) : Type 0 where
  pub mean : F
  pub standard_deviation : F
  pub size : ℕ

module _ (f : Floats) where
  open f use {F, decimal, negate, add, subtract, multiply, divide, lt, equal}

  -- `max(low, min(high, x))`
  abbrev clamp : ℕ → ℕ → F → F
  clamp low high x = float_max f (whole f low) (float_min f (whole f high) x)

  unfoldable pub normalize_rating : F → F → Result F
  normalize_rating rating scale =
      if lt (whole f 0) scale
      then ok (clamp 0 5 (multiply (divide rating scale) (whole f 5)))
      else err (scoring "Rating scale must be positive")

  abbrev adjustment : Sentiment → F
  adjustment Sentiment.positive = whole f 1
  adjustment Sentiment.negative = negate (whole f 1)
  adjustment Sentiment.neutral = whole f 0

  unfoldable pub calculate_contribution : F → Sentiment → F
  calculate_contribution rating s = clamp 0 5 (add rating (adjustment s))

  unfoldable pub score_100 : F → F
  score_100 x = clamp 0 100 (multiply x (whole f 20))

  module _ (m : Statistics f) where
    unfoldable pub relative_score : F → F
    relative_score z =
        let cdf =
          multiply (decimal 5 1) (add (whole f 1) (m.erf (divide z (m.sqrt (whole f 2))))) in
        clamp 1 5 (add (whole f 1) (multiply (whole f 4) cdf))

    unfoldable pub population_statistics : List F → Result (PopulationStats F)
    population_statistics [] = err (scoring "Cannot normalize an empty population")
    population_statistics (x ∷ xs) = ok (record {
      mean = m.fmean (x ∷ xs);
      standard_deviation = m.pstdev (x ∷ xs);
      size = length (x ∷ xs);
    })

    -- The z-score and the relative score.
    unfoldable pub normalize_value : F → PopulationStats F → F × F
    unfolding relative_score
    normalize_value value stats =
        let z =
          if equal stats.standard_deviation (whole f 0)
          then whole f 0
          else divide (subtract value stats.mean) stats.standard_deviation in
        (z, relative_score z)

  -- Neither below the one number nor above the other.
  abbrev pub IsBetween : ℕ → ℕ → F → Type 0
  IsBetween low high x = (lt x (whole f low) ≡ false) × (lt (whole f high) x ≡ false)

  -- `<` of two whole numbers.
  abbrev pub OrdersWholes : Type 0
  OrdersWholes = (m n : ℕ) → lt (whole f m) (whole f n) ≡ ltb m n
