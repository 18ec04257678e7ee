-- ===== src/Scoring/Tests.antt =====
-- About scores of fixed-point numbers, and stored scores.
use hotel_server_v.Base.{ℕ, none, some, [], ◌∷◌, List, ◌≡◌, refl}
use hotel_server_v.Base.Floats.Fixed.{fixed}
use hotel_server_v.Sentiment.Payload.{Sentiment}
use hotel_server_v.Scoring.{Statistics, score_100}
use hotel_server_v.Scoring.Aggregates.{
  ScoringSource, ScoreColumns, ScoreRow, upsert_aggregate_hotel_scores,
}

abbrev statistics : Statistics fixed
statistics = record {
  erf = λ x. x;
  sqrt = λ x. x;
  fmean = λ xs. fixed.decimal 0 0;
  pstdev = λ xs. fixed.decimal 0 0;
}

abbrev columns_of : ℕ → ScoreColumns ℕ
columns_of n = record {
  mention_count = n;
  positive_mentions = n;
  negative_mentions = 0;
  neutral_mentions = 0;
  raw_score = some n;
  score_5 = some n;
  score_100 = some n;
  mean = none;
  standard_deviation = none;
  z_score = none;
  relative_score_5 = none;
  confidence_score = n;
  scoring_source = ScoringSource.aggregate_sentiment;
  analysis_version = none;
  review_window = none;
  imported_at = none;
  calculated_at = 0;
}

abbrev row_of : ℕ → ℕ → ScoreRow ℕ
row_of attribute n = record {
  key = record { hotel_id = 1; attribute_id = attribute; algorithm_version_id = 1 };
  columns = columns_of n;
}

abbrev stored : List (ScoreRow ℕ)
stored = row_of 1 3 ∷ row_of 2 4 ∷ []

-- A repeated key is refused.
upsert-repeated : upsert_aggregate_hotel_scores (row_of 1 8 ∷ row_of 1 9 ∷ []) stored ≡ none
unfolding upsert_aggregate_hotel_scores
upsert-repeated = refl
