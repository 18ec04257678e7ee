-- ===== src/Ranking.antt =====
-- domain/ranking.py: live personalised ranking from precomputed hotel scores.
use hotel_server_v.Base.{
  ℕ, suc, String, Bool, true, false, not, ◌&&◌, Option, none, some, List, [], ◌∷◌, ◌++◌, map, keep,
  take, ltb, eqb, ◌==◌, nat_eq, string_eq, if◌then◌else◌,
}
use hotel_server_v.Base.Text.{text_append}
use hotel_server_v.Base.Dict.{lookup, insert}
use hotel_server_v.Base.Comparison.{first_or_rest}
use hotel_server_v.Base.Floats.{Floats, whole}
use hotel_server_v.Base.Sort.{sort_by}
use hotel_server_v.Base.Exec.{Result, ok, err}
use hotel_server_v.Errors.{scoring}
pub mod Collect
pub mod Groups
pub mod Order
pub mod Outcome
mod Tests

-- The columns of a score that the explanation repeats.
pub record Evidence (F : Type 0) : Type 0 where
  pub score_5 : Option F
  pub score_100 : Option F
  pub relative_score_5 : Option F
  pub confidence_score : Option F
  pub mention_count : Option ℕ
  pub positive_mentions : Option ℕ
  pub negative_mentions : Option ℕ
  pub neutral_mentions : Option ℕ
  pub scoring_source : Option String

-- A row of `candidates`.
pub record Candidate (F : Type 0) : Type 0 where
  pub hotel_id : ℕ
  pub name : String
  pub source_rating : Option F
  pub source_review_count : Option ℕ
  pub source_rank : Option ℕ
  pub attribute_id : Option ℕ
  pub attribute_name : Option String
  pub evidence : Evidence F

pub record Score (F : Type 0) : Type 0 where
  pub value : F
  pub name : String
  pub attribute_id : ℕ
  pub evidence : Evidence F

pub record Hotel (F : Type 0) : Type 0 where
  pub name : String
  pub source_rating : Option F
  pub source_review_count : Option ℕ
  pub source_rank : Option ℕ
  pub scores : List (ℕ × Score F)

pub record EffectivePreference (F : Type 0) : Type 0 where
  pub attribute_id : ℕ
  pub weight : F
  pub minimum_required_score : Option F
  pub is_mandatory : Bool

-- One element of `matched_attributes`.
pub record Matched (F : Type 0) : Type 0 where
  pub attribute_id : ℕ
  pub attribute : String
  pub score : F
  pub weight : F
  pub evidence : Evidence F

pub record Explanation (F : Type 0) : Type 0 where
  pub matched_attributes : List (Matched F)
  pub strengths : List String
  pub weaknesses : List String
  pub reasons : List String
  pub coverage_score : F
  pub coverage_weight : F
  pub requested_weight : F
  pub source_rating : Option F
  pub source_review_count : Option ℕ
  pub source_rank : Option ℕ

pub record RankedHotel (F : Type 0) : Type 0 where
  pub hotel_id : ℕ
  pub name : String
  pub personalized_rating : F
  pub match_score : F
  pub coverage_score : F
  pub source_rating : Option F
  pub source_review_count : Option ℕ
  pub source_rank : Option ℕ
  pub explanation : Explanation F

-- The variables of the loop in `_rank_one`.
pub record Totals (F : Type 0) : Type 0 where
  pub weighted_sum : F
  pub available_weight : F
  pub matched : List (Matched F)

-- `n if n is not None else -1` of a count, one greater.
abbrev pub count_key : Option ℕ → ℕ
count_key none = 0
count_key (some n) = suc n

-- The negated counts compared.
abbrev pub count_less : Option ℕ → Option ℕ → Bool
count_less a b = ltb (count_key b) (count_key a)

abbrev pub count_equal : Option ℕ → Option ℕ → Bool
count_equal a b = eqb (count_key a) (count_key b)

-- `show_id` is `str` of an identifier.
module _ (f : Floats) (show_id : ℕ → String) where
  open f use {F, decimal, negate, add, multiply, divide, rounded, lt, equal}

  abbrev pub no_scores : Candidate F → Hotel F
  no_scores row = record {
    name = row.name;
    source_rating = row.source_rating;
    source_review_count = row.source_review_count;
    source_rank = row.source_rank;
    scores = [];
  }

  -- `by_hotel.setdefault(...)`
  abbrev pub hotel_of : Candidate F → List (ℕ × Hotel F) → Hotel F
  hotel_of row d = elim (lookup row.hotel_id d) [ none ↦ no_scores row | some h ↦ h ]

  -- `row.get("attribute_name") or str(attribute_id)`
  abbrev name_or_id : Option String → ℕ → String
  name_or_id none attribute = show_id attribute
  name_or_id (some n) attribute = if n == "" then show_id attribute else n

  abbrev pub score_from : Candidate F → ℕ → F → Score F
  score_from row a v = record {
    value = v;
    name = name_or_id row.attribute_name a;
    attribute_id = a;
    evidence = row.evidence;
  }

  -- The score that a row carries.
  abbrev pub row_score : Candidate F → Option (ℕ × Score F)
  row_score row = elim row.attribute_id [
    | none ↦ none
    | some a ↦ elim row.evidence.relative_score_5 [
      | none ↦ none
      | some v ↦ some (a, score_from row a v)
    ]
  ]

  abbrev pub with_score : Option (ℕ × Score F) → Hotel F → Hotel F
  with_score none h = h
  with_score (some (a, s)) h = record h { scores = insert a s h.scores }

  unfoldable pub add_row : Candidate F → List (ℕ × Hotel F) → List (ℕ × Hotel F)
  add_row row d = insert row.hotel_id (with_score (row_score row) (hotel_of row d)) d

  -- The loop over the rows.
  unfoldable pub group_rows : List (ℕ × Hotel F) → List (Candidate F) → List (ℕ × Hotel F)
  unfolding add_row
  group_rows d [] = d
  group_rows d (row ∷ rows) = group_rows (add_row row d) rows

  unfoldable pub total_of : F → List (EffectivePreference F) → F
  total_of acc [] = acc
  total_of acc (p ∷ ps) = total_of (add acc p.weight) ps

  -- A mandatory preference without its score, or below its minimum.
  abbrev pub below_minimum : EffectivePreference F → F → Bool
  below_minimum p value =
      p.is_mandatory && elim p.minimum_required_score [ none ↦ false | some m ↦ lt value m ]

  abbrev pub matched_of : EffectivePreference F → Score F → Matched F
  matched_of p s = record {
    attribute_id = s.attribute_id;
    attribute = s.name;
    score = rounded 3 s.value;
    weight = rounded 4 p.weight;
    evidence = s.evidence;
  }

  abbrev pub counted : EffectivePreference F → Score F → Totals F → Totals F
  counted p s t = record {
    weighted_sum = add t.weighted_sum (multiply s.value p.weight);
    available_weight = add t.available_weight p.weight;
    matched = t.matched ++ matched_of p s ∷ [];
  }

  -- The loop of `_rank_one`: `none` where a mandatory preference fails.
  unfoldable pub collect :
      List (ℕ × Score F) → Totals F → List (EffectivePreference F) → Option (Totals F)
  collect scores t [] = some t
  collect scores t (p ∷ ps) = elim (lookup p.attribute_id scores) [
    | none ↦ if p.is_mandatory then none else collect scores t ps
    | some s ↦ if below_minimum p s.value then none else collect scores (counted p s t) ps
  ]

  abbrev pub no_totals : Totals F
  no_totals = record { weighted_sum = whole f 0; available_weight = whole f 0; matched = [] }

  abbrev names_where : (F → Bool) → List (Matched F) → List String
  names_where p ms = map (λ m. m.attribute) (keep (λ m. p m.score) ms)

  abbrev reasons_for : List String → List String
  reasons_for [] = "Best available match for your weighted preferences" ∷ []
  reasons_for (s ∷ ss) = map (text_append "Strong match for ") (take 3 (s ∷ ss))

  abbrev contribution : Matched F → F
  contribution m = multiply m.score m.weight

  abbrev explain : Hotel F → F → Totals F → F → Explanation F
  explain h total t coverage =
      let strengths = names_where (λ s. not (lt s (whole f 4))) t.matched in
      record {
        matched_attributes = sort_by (λ a b. lt (contribution b) (contribution a)) t.matched;
        strengths = strengths;
        weaknesses = names_where (λ s. lt s (whole f 3)) t.matched;
        reasons = reasons_for strengths;
        coverage_score = rounded 4 coverage;
        coverage_weight = rounded 4 t.available_weight;
        requested_weight = rounded 4 total;
        source_rating = h.source_rating;
        source_review_count = h.source_review_count;
        source_rank = h.source_rank;
      }

  -- The end of `_rank_one`.
  abbrev pub ranked_as : ℕ → Hotel F → F → Totals F → RankedHotel F
  ranked_as hotel_id h total t =
      let rating = rounded 3 (divide t.weighted_sum t.available_weight) in
      let coverage = divide t.available_weight total in
      record {
        hotel_id = hotel_id;
        name = h.name;
        personalized_rating = rating;
        match_score = rounded 2 (multiply (divide rating (whole f 5)) (whole f 100));
        coverage_score = rounded 4 coverage;
        source_rating = h.source_rating;
        source_review_count = h.source_review_count;
        source_rank = h.source_rank;
        explanation = explain h total t coverage;
      }

  unfoldable pub rank_one : ℕ → Hotel F → List (EffectivePreference F) → F → Option (RankedHotel F)
  unfolding collect
  rank_one hotel_id h ps total = elim (collect h.scores no_totals ps) [
    | none ↦ none
    | some t ↦
        if equal t.available_weight (whole f 0) then none else some (ranked_as hotel_id h total t)
  ]

  abbrev pub append_ranked : Option (RankedHotel F) → List (RankedHotel F) → List (RankedHotel F)
  append_ranked none rs = rs
  append_ranked (some r) rs = r ∷ rs

  unfoldable pub rank_all :
      List (ℕ × Hotel F) → List (EffectivePreference F) → F → List (RankedHotel F)
  unfolding rank_one
  rank_all [] ps total = []
  rank_all ((hotel_id, h) ∷ d) ps total =
      append_ranked (rank_one hotel_id h ps total) (rank_all d ps total)

  abbrev pub rating_key : Option F → F
  rating_key none = negate (negate (whole f 1))
  rating_key (some r) = negate r

  -- `<` of the sort keys. Identifiers are ordered as their texts are.
  unfoldable pub rank_less : RankedHotel F → RankedHotel F → Bool
  rank_less a b =
      let ra = negate a.personalized_rating in
      let rb = negate b.personalized_rating in
      let ca = negate a.coverage_score in
      let cb = negate b.coverage_score in
      let sa = rating_key a.source_rating in
      let sb = rating_key b.source_rating in
      first_or_rest (equal ra rb) (lt ra rb) (
        first_or_rest (equal ca cb) (lt ca cb) (
          first_or_rest (equal sa sb) (lt sa sb) (
            first_or_rest (count_equal a.source_review_count b.source_review_count)
              (count_less a.source_review_count b.source_review_count)
              (ltb a.hotel_id b.hotel_id))))

  unfoldable pub rank_hotels :
      List (Candidate F) → List (EffectivePreference F) → Result (List (RankedHotel F))
  unfolding group_rows total_of rank_all rank_less
  rank_hotels rows ps =
      let total = total_of (whole f 0) ps in
      if not (lt (whole f 0) total)
      then err (scoring "At least one positive preference weight is required")
      else ok (sort_by rank_less (rank_all (group_rows [] rows) ps total))
