-- ===== src/Ranking/Tests.antt =====
-- About concrete rankings: two hotels, the preferences of a traveller.
use hotel_server_v.Base.{
  ℕ, ◌+◌, String, Bool, true, false, Option, none, some, List, [], ◌∷◌, ◌≡◌, refl, head?, length,
  map,
}
use hotel_server_v.Base.Floats.{Floats}
use hotel_server_v.Base.Floats.Fixed.{fixed}
use hotel_server_v.Base.Floats.Signed.{signed, signed-IsOrdered, signed-Negates}
use hotel_server_v.Base.Sort.{sort_by}
use hotel_server_v.Ranking.{
  Candidate, EffectivePreference, RankedHotel, rank_hotels, rank_less, rank_all, group_rows,
  total_of,
}
use hotel_server_v.Ranking.Order.{AreInOrder, rank_hotels-AreInOrder}
use hotel_server_v.Ranking.Outcome.{described}

abbrev pub fixed_decimal : ℕ → ℕ → ℕ
fixed_decimal = fixed.decimal

abbrev pub shown : ℕ → String
shown n = "attribute"

abbrev candidate_of : (f : Floats) → ℕ → String → ℕ → ℕ → Candidate f.F
candidate_of f hotel name attribute tenths = record {
  hotel_id = hotel;
  name = name;
  source_rating = some (f.decimal 45 1);
  source_review_count = some 120;
  source_rank = none;
  attribute_id = some attribute;
  attribute_name = some "pool";
  evidence = record {
    score_5 = none;
    score_100 = none;
    relative_score_5 = some (f.decimal tenths 1);
    confidence_score = none;
    mention_count = some 12;
    positive_mentions = some 10;
    negative_mentions = some 1;
    neutral_mentions = some 1;
    scoring_source = none;
  };
}

abbrev preference_of : (f : Floats) → ℕ → ℕ → Bool → EffectivePreference f.F
preference_of f attribute tenths mandatory = record {
  attribute_id = attribute;
  weight = f.decimal tenths 1;
  minimum_required_score = some (f.decimal 3 0);
  is_mandatory = mandatory;
}

abbrev pub candidate : ℕ → String → ℕ → ℕ → Candidate ℕ
candidate = candidate_of fixed

abbrev pub preference : ℕ → ℕ → Bool → EffectivePreference ℕ
preference = preference_of fixed

-- The last row of hotel 2 replaces its value for attribute 7.
abbrev pub some_rows : List (Candidate ℕ)
some_rows =
    candidate 1 "Sea View" 7 41
    ∷ candidate 1 "Sea View" 8 20
    ∷ candidate 2 "Old Town" 7 25
    ∷ candidate 2 "Old Town" 8 45
    ∷ candidate 2 "Old Town" 7 48
    ∷ candidate 3 "Harbour" 7 20
    ∷ []

abbrev pub some_preferences : List (EffectivePreference ℕ)
some_preferences = preference 7 9 true ∷ preference 8 6 false ∷ preference 9 5 false ∷ []

abbrev some_ranking : List (RankedHotel ℕ)
some_ranking = sort_by (rank_less fixed shown) (
    rank_all fixed shown (group_rows fixed shown [] some_rows) some_preferences
      (total_of fixed shown (fixed_decimal 0 0) some_preferences))

-- Hotel 3 is below the mandatory minimum.
some_ranking-length : length some_ranking ≡ 2
unfolding group_rows total_of rank_all rank_less sort_by hotel_server_v.Base.Dict.insert
    hotel_server_v.Base.Dict.lookup
some_ranking-length = refl

abbrev signed_rows : List (Candidate signed.F)
signed_rows =
    candidate_of signed 1 "Sea View" 7 41
    ∷ candidate_of signed 1 "Sea View" 8 20
    ∷ candidate_of signed 2 "Old Town" 8 45
    ∷ candidate_of signed 2 "Old Town" 7 48
    ∷ []

abbrev signed_preferences : List (EffectivePreference signed.F)
signed_preferences = preference_of signed 7 9 true ∷ preference_of signed 8 6 false ∷ []

abbrev signed_ranking : List (RankedHotel signed.F)
signed_ranking = sort_by (rank_less signed shown) (
    rank_all signed shown (group_rows signed shown [] signed_rows) signed_preferences
      (total_of signed shown (signed.decimal 0 0) signed_preferences))

rank_hotels-AreInOrder_example : AreInOrder signed shown signed_ranking
unfolding rank_hotels
rank_hotels-AreInOrder_example =
    rank_hotels-AreInOrder signed shown signed-IsOrdered signed-Negates signed_rows
      signed_preferences signed_ranking refl

-- The hotel with the higher rating is the first.
signed_ranking-first : map (λ h. h.hotel_id) signed_ranking ≡ 2 ∷ 1 ∷ []
unfolding group_rows total_of rank_all rank_less sort_by hotel_server_v.Base.Dict.insert
    hotel_server_v.Base.Dict.lookup
signed_ranking-first = refl

-- The described rating of hotel 2 is 4.68.
described-hotel_two :
    described fixed shown 2 some_rows some_preferences
    ≡ some (fixed_decimal 468 2, fixed_decimal 75 2)
unfolding total_of
described-hotel_two = refl
