-- ===== src/Recommendations/Candidates.antt =====
-- `RecommendationRepository.candidates`: the query for the hotels of a destination, with their
-- primary source and all scores of the algorithm version.
use hotel_server_v.Base.{
  ℕ, String, Bool, true, false, not, ◌&&◌, ◌||◌, Option, none, some, List, [], ◌∷◌, ◌++◌, map, keep,
  take, any, find, head?, is_some, ltb, ◌==◌, nat_eq, string_eq,
}
use hotel_server_v.Base.Comparison.{first_or_rest}
use hotel_server_v.Base.Floats.{Floats}
use hotel_server_v.Base.Sort.{sort_by}
use hotel_server_v.Trips.{TripWrite}
use hotel_server_v.Preferences.Store.{Attribute}
use hotel_server_v.Ranking.{Evidence, Candidate, count_less, count_equal}
use hotel_server_v.Recommendations.Tables.{
  CatalogHotel, HotelSourceMapping, HotelAttributeScore, Tables, Filters,
}

-- A filter that is absent or empty lets everything through.
abbrev of_type : Option String → Option String → Bool
of_type none t = true
of_type (some wanted) none = wanted == ""
of_type (some wanted) (some t) = wanted == "" || t == wanted

abbrev id_matches : Option ℕ → ℕ → Bool
id_matches none id = true
id_matches (some wanted) id = id == wanted

abbrev pub candidate_limit : ℕ
candidate_limit = 2000

module _ (f : Floats) where
  open f use {F, lt, equal}

  abbrev pub rated_above : F → HotelSourceMapping F → Bool
  rated_above least m = elim m.source_rating [ none ↦ false | some r ↦ not (lt r least) ]

  abbrev pub rating_matches : Option F → ℕ → List (HotelSourceMapping F) → Bool
  rating_matches none hotel ms = true
  rating_matches (some least) hotel ms =
      any (λ m. m.hotel_id == hotel && (rated_above least m && m.is_active)) ms

  abbrev pub selected : TripWrite → Filters F → List (HotelSourceMapping F) → CatalogHotel → Bool
  selected trip filters ms h =
      h.country_id == trip.destination_country_id
      && (h.is_active
          && (not (is_some h.deleted_at)
              && (id_matches trip.destination_region_id h.region_id
                  && (id_matches trip.destination_city_id h.city_id
                      && (of_type filters.hotel_type h.hotel_type
                          && rating_matches filters.min_source_rating h.id ms)))))

  -- `selected_ids`
  unfoldable pub select_hotels :
      TripWrite → Filters F → List CatalogHotel → List (HotelSourceMapping F) → List CatalogHotel
  select_hotels trip filters hotels ms =
      take candidate_limit (sort_by (λ a b. ltb a.id b.id) (keep (selected trip filters ms) hotels))

  -- `source_rating.desc().nullslast()`
  abbrev rating_less : Option F → Option F → Bool
  rating_less (some a) (some b) = lt b a
  rating_less (some a) none = true
  rating_less none b = false

  abbrev rating_equal : Option F → Option F → Bool
  rating_equal (some a) (some b) = equal a b
  rating_equal none none = true
  rating_equal _ _ = false

  -- The order within a hotel of the window `row_number`.
  abbrev mapping_less : HotelSourceMapping F → HotelSourceMapping F → Bool
  mapping_less a b =
      first_or_rest (count_equal a.source_review_count b.source_review_count)
        (count_less a.source_review_count b.source_review_count)
        (first_or_rest (rating_equal a.source_rating b.source_rating)
          (rating_less a.source_rating b.source_rating) (ltb a.id b.id))

  -- The mapping with row number 1.
  unfoldable pub primary_source : ℕ → List (HotelSourceMapping F) → Option (HotelSourceMapping F)
  primary_source hotel ms =
      head? (sort_by mapping_less (keep (λ m. m.hotel_id == hotel && m.is_active) ms))

  abbrev rating_of : Option (HotelSourceMapping F) → Option F
  rating_of none = none
  rating_of (some m) = m.source_rating

  abbrev review_count_of : Option (HotelSourceMapping F) → Option ℕ
  review_count_of none = none
  review_count_of (some m) = m.source_review_count

  abbrev source_rank_of : Option (HotelSourceMapping F) → Option ℕ
  source_rank_of none = none
  source_rank_of (some m) = m.source_rank

  abbrev no_evidence : Evidence F
  no_evidence = record {
    score_5 = none;
    score_100 = none;
    relative_score_5 = none;
    confidence_score = none;
    mention_count = none;
    positive_mentions = none;
    negative_mentions = none;
    neutral_mentions = none;
    scoring_source = none;
  }

  abbrev pub bare_row : CatalogHotel → Option (HotelSourceMapping F) → Candidate F
  bare_row h source = record {
    hotel_id = h.id;
    name = h.name;
    source_rating = rating_of source;
    source_review_count = review_count_of source;
    source_rank = source_rank_of source;
    attribute_id = none;
    attribute_name = none;
    evidence = no_evidence;
  }

  abbrev attribute_name_of : ℕ → List Attribute → Option String
  attribute_name_of attribute attributes = elim (find (λ a. a.id == attribute) attributes) [
    | none ↦ none
    | some a ↦ some a.name
  ]

  abbrev pub scored_row : List Attribute → Candidate F → HotelAttributeScore F → Candidate F
  scored_row attributes row s = record row {
    attribute_id = some s.attribute_id;
    attribute_name = attribute_name_of s.attribute_id attributes;
    evidence = s.evidence;
  }

  -- The outer join of a hotel with its scores, ordered by attribute.
  abbrev pub joined :
      List Attribute → Candidate F → List (HotelAttributeScore F) → List (Candidate F)
  joined attributes row [] = row ∷ []
  joined attributes row (s ∷ ss) = map (scored_row attributes row) (s ∷ ss)

  abbrev pub hotel_rows : ℕ → Tables F → CatalogHotel → List (Candidate F)
  hotel_rows algorithm d h = joined d.attributes (bare_row h (primary_source h.id d.mappings)) (
      sort_by (λ a b. ltb a.attribute_id b.attribute_id)
        (keep (λ s. s.hotel_id == h.id && s.algorithm_version_id == algorithm) d.scores))

  unfoldable pub all_rows : ℕ → Tables F → List CatalogHotel → List (Candidate F)
  unfolding primary_source
  all_rows algorithm d [] = []
  all_rows algorithm d (h ∷ hs) = hotel_rows algorithm d h ++ all_rows algorithm d hs

  unfoldable pub candidates : TripWrite → ℕ → Filters F → Tables F → List (Candidate F)
  unfolding select_hotels all_rows
  candidates trip algorithm filters d =
      all_rows algorithm d (select_hotels trip filters d.hotels d.mappings)
