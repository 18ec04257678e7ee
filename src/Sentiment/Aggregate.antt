-- ===== src/Sentiment/Aggregate.antt =====
-- `aggregate_score_0_5` and `aggregate_support_confidence` of domain/sentiment.py. The counts are
-- integers from 0 up; as floats they are exact.
use hotel_server_v.Base.{ℕ, eqb, if◌then◌else◌}
use hotel_server_v.Base.Floats.{Floats, whole, float_min}
use hotel_server_v.Base.Exec.{Result, ok, err}
use hotel_server_v.Errors.{import_validation}

module _ (f : Floats) where
  open f use {F, decimal, add, subtract, multiply, divide}

  unfoldable pub aggregate_score_0_5 : ℕ → ℕ → ℕ → Result F
  aggregate_score_0_5 positive negative total =
      if eqb total 0
      then err (import_validation "INVALID_MENTION_COUNTS")
      else ok (
          add (decimal 25 1) (
            multiply (decimal 25 1)
              (divide (subtract (whole f positive) (whole f negative)) (whole f total))))

  -- `log1p` and `log` are those of Python's `math`.
  unfoldable pub aggregate_support_confidence : (F → F) → (F → F) → ℕ → F
  aggregate_support_confidence log1p log total =
      float_min f (whole f 1) (divide (log1p (whole f total)) (log (whole f 11)))
