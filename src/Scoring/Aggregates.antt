-- ===== src/Scoring/Aggregates.antt =====
-- `AggregateScoringService.propagate` of services/aggregate_scoring.py, and
-- `upsert_aggregate_hotel_scores` of repositories/catalog.py.
use hotel_server_v.Base.{
  ℕ, ◌-◌, ◌+◌, String, Bool, true, false, not, ◌&&◌, ◌||◌, Option, none, some, List, [], ◌∷◌, ◌++◌,
  map, keep, any, find, count_if, length, ◌==◌, nat_eq, if◌then◌else◌,
}
use hotel_server_v.Base.Floats.{Floats}
use hotel_server_v.Base.Exec.{Exec, pure, gets, or_raise, modify, ◌>>=◌, ◌>>◌}
use hotel_server_v.Errors.{scoring, unexpected}
use hotel_server_v.Recommendations.Tables.{AlgorithmVersion}
use hotel_server_v.Recommendations.Service.{active_algorithm}
use hotel_server_v.Sentiment.Aggregate.{aggregate_support_confidence}
use hotel_server_v.Scoring.{score_100}

pub data ScoringSource : Type 0 where
  review_based aggregate_sentiment : ScoringSource

-- The columns of `HotelAttributeScore` but for its key.
pub record ScoreColumns (F : Type 0) : Type 0 where
  pub mention_count : ℕ
  pub positive_mentions : ℕ
  pub negative_mentions : ℕ
  pub neutral_mentions : ℕ
  pub raw_score : Option F
  pub score_5 : Option F
  pub score_100 : Option F
  pub mean : Option F
  pub standard_deviation : Option F
  pub z_score : Option F
  pub relative_score_5 : Option F
  pub confidence_score : F
  pub scoring_source : ScoringSource
  pub analysis_version : Option String
  pub review_window : Option String
  pub imported_at : Option ℕ
  pub calculated_at : ℕ

pub record ScoreKey : Type 0 where
  pub hotel_id : ℕ
  pub attribute_id : ℕ
  pub algorithm_version_id : ℕ

pub record ScoreRow (F : Type 0) : Type 0 where
  pub key : ScoreKey
  pub columns : ScoreColumns F

-- The columns of `HotelAttributeSentimentAggregate` that are read.
pub record SentimentAggregate (F : Type 0) : Type 0 where
  pub hotel_id : ℕ
  pub attribute_id : ℕ
  pub total_mentions : ℕ
  pub positive_mentions : ℕ
  pub negative_mentions : ℕ
  pub aggregate_score_0_5 : F
  pub analysis_version : String
  pub review_window : String

pub record ScorePropagationResult : Type 0 where
  pub applied : ℕ
  pub skipped_precedence : ℕ

pub record ScoreTables (F : Type 0) : Type 0 where
  pub algorithms : List AlgorithmVersion
  pub scores : List (ScoreRow F)

abbrev pub is_aggregate : ScoringSource → Bool
is_aggregate ScoringSource.aggregate_sentiment = true
is_aggregate ScoringSource.review_based = false

module _ {F : Type 0} where
  abbrev pub has_key : ScoreKey → ScoreRow F → Bool
  has_key k row =
      row.key.hotel_id == k.hotel_id
      && (row.key.attribute_id == k.attribute_id
          && row.key.algorithm_version_id == k.algorithm_version_id)

  -- A stored row that one of the values conflicts with: `set_` has the columns of the first.
  abbrev pub resolved : ScoreColumns F → List (ScoreRow F) → ScoreRow F → ScoreRow F
  resolved first values row =
      if any (has_key row.key) values && is_aggregate row.columns.scoring_source
      then record row { columns = first }
      else row

  -- Whether a row with the key, as the statement finds it or makes it, may be written to.
  abbrev is_writable : ScoreKey → List (ScoreRow F) → Bool
  is_writable k table = elim (find (has_key k) table) [
    | none ↦ true
    | some old ↦ is_aggregate old.columns.scoring_source
  ]

  -- PostgreSQL raises when one command would write to a row a second time.
  abbrev pub writes_twice : List (ScoreRow F) → List (ScoreRow F) → Bool
  writes_twice [] table = false
  writes_twice (v ∷ values) table =
      any (has_key v.key) values && is_writable v.key table || writes_twice values table

  -- `INSERT ... ON CONFLICT DO UPDATE ... WHERE`, and the number of rows that it returns: those
  -- inserted and those updated. It is `none` if the database raises.
  unfoldable pub upsert_aggregate_hotel_scores :
      List (ScoreRow F) → List (ScoreRow F) → Option (List (ScoreRow F) × ℕ)
  upsert_aggregate_hotel_scores [] table = some (table, 0)
  upsert_aggregate_hotel_scores (first ∷ rest) table =
      let values = first ∷ rest in
      let inserted = keep (λ v. not (any (has_key v.key) table)) values in
      if writes_twice values table
      then none
      else some (
        map (resolved first.columns values) table ++ inserted,
        length inserted
            + count_if
                (λ row. any (has_key row.key) values && is_aggregate row.columns.scoring_source)
                table,
      )

module _ (f : Floats) (log1p log : f.F → f.F) where
  -- A constraint of the table keeps positive and negative mentions within the total.
  abbrev row_for : ℕ → ℕ → SentimentAggregate f.F → ScoreRow f.F
  row_for now algorithm a = record {
    key = record {
      hotel_id = a.hotel_id;
      attribute_id = a.attribute_id;
      algorithm_version_id = algorithm;
    };
    columns = record {
      mention_count = a.total_mentions;
      positive_mentions = a.positive_mentions;
      negative_mentions = a.negative_mentions;
      neutral_mentions = a.total_mentions - a.positive_mentions - a.negative_mentions;
      raw_score = some a.aggregate_score_0_5;
      score_5 = some a.aggregate_score_0_5;
      score_100 = some (score_100 f a.aggregate_score_0_5);
      mean = none;
      standard_deviation = none;
      z_score = none;
      relative_score_5 = none;
      confidence_score = aggregate_support_confidence f log1p log a.total_mentions;
      scoring_source = ScoringSource.aggregate_sentiment;
      analysis_version = some a.analysis_version;
      review_window = some a.review_window;
      imported_at = some now;
      calculated_at = now;
    };
  }

  -- The caller commits.
  unfoldable pub propagate :
      ℕ → List (SentimentAggregate f.F) → Exec (ScoreTables f.F) ScorePropagationResult
  unfolding active_algorithm upsert_aggregate_hotel_scores score_100 aggregate_support_confidence
  propagate now aggregates = do
    active ← gets (λ d. active_algorithm d.algorithms)
    algorithm ← or_raise active (scoring "No active algorithm version")
    let rows = map (row_for now algorithm.id) aggregates
    written ← gets (λ d. upsert_aggregate_hotel_scores rows d.scores)
    result ← or_raise written unexpected
    modify (λ d. record d { scores = result.0 })
    pure (record { applied = result.1; skipped_precedence = length rows - result.1 })

module _ {F : Type 0} (k : ScoreKey) where
  -- What a successful write leaves of the row that had the key: a review score stays as it was, and
  -- an aggregate score whose key is among the values gets the columns of the first of them.
  abbrev pub updated_row : ScoreRow F → List (ScoreRow F) → ScoreRow F → ScoreRow F
  updated_row first values old = elim old.columns.scoring_source [
    | ScoringSource.review_based ↦ old
    | ScoringSource.aggregate_sentiment ↦ elim (find (has_key k) values) [
      | none ↦ old
      | some v ↦ record old { columns = first.columns }
    ]
  ]
