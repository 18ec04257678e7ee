-- ===== src/Trips/Overrides.antt =====
-- The preferences of a trip: `preferences` and `replace_preferences` of services/trips.py over
-- `trip_preferences` and `replace_trip` of repositories/preferences.py.
use hotel_server_v.Base.{
  ℕ, Bool, true, not, ◌&&◌, Option, none, some, List, [], ◌∷◌, ◌++◌, map, keep, all, distinct,
  contains, ◌==◌, nat_eq, ◌≡◌, ◌≢◌, refl, inl, inr, Option-cases, arith,
}
use hotel_server_v.Base.Rational.{Rational}
use hotel_server_v.Base.Exec.{Exec, ok, pure, raise_if, modify, gets, commit, request, ◌>>=◌, ◌>>◌}
use hotel_server_v.Errors.{integrity}
use hotel_server_v.Preferences.Store.{TripPreference, Numeric, trip_preferences}
use hotel_server_v.Trips.{Trip, World, get_owned, owned}

pub record TripPreferenceWrite : Type 0 where
  pub attribute_id : ℕ
  pub weight : Rational
  pub minimum_required_score : Option Rational
  pub is_mandatory : Bool

abbrev pub row_of : ℕ → TripPreferenceWrite → TripPreference
row_of trip w = record {
  trip_id = trip;
  attribute_id = w.attribute_id;
  weight = w.weight;
  minimum_required_score = w.minimum_required_score;
  is_mandatory = w.is_mandatory;
}

abbrev kept_score : Numeric → Option Rational → Option Rational
kept_score numeric none = none
kept_score numeric (some least) = some (numeric 5 3 least)

-- The columns keep of the numbers what their types `NUMERIC(5, 4)` and `NUMERIC(5, 3)` keep.
abbrev pub stored_row : Numeric → ℕ → TripPreferenceWrite → TripPreference
stored_row numeric trip w = record (row_of trip w) {
  weight = numeric 5 4 w.weight;
  minimum_required_score = kept_score numeric w.minimum_required_score;
}

-- The unique index on trip and attribute, and the foreign key to the attributes.
abbrev pub storable : List TripPreferenceWrite → World → Bool
storable ws d =
    distinct (map (λ w. w.attribute_id) ws) && all (λ w. contains w.attribute_id d.attributes) ws

abbrev without_trip : ℕ → List TripPreference → List TripPreference
without_trip trip rows = keep (λ row. not (row.trip_id == trip)) rows

-- `PreferenceRepository.replace_trip`; the objects that it answers are not read again.
abbrev pub replace_trip : Numeric → ℕ → List TripPreferenceWrite → Exec World (List TripPreference)
replace_trip numeric trip ws = do
  modify (λ d. record d { preferences = without_trip trip d.preferences })
  valid ← gets (storable ws)
  raise_if (not valid) integrity
  modify (λ d. record d { preferences = d.preferences ++ map (stored_row numeric trip) ws })
  pure (map (row_of trip) ws)

unfoldable pub preferences : ℕ → ℕ → Exec World (List TripPreference)
unfolding get_owned
preferences user trip = do found ← owned user trip; gets (λ d. trip_preferences trip d.preferences)

unfoldable pub replace_preferences :
    Numeric → ℕ → ℕ → List TripPreferenceWrite → Exec World (List TripPreference)
unfolding get_owned
replace_preferences numeric user trip ws = do
  found ← owned user trip
  rows ← replace_trip numeric trip ws
  commit
  pure rows

own-rows :
    (numeric : Numeric) (trip : ℕ) (ws : List TripPreferenceWrite)
    → trip_preferences trip (map (stored_row numeric trip) ws) ≡ map (stored_row numeric trip) ws
own-rows numeric trip [] = refl
own-rows numeric trip (w ∷ ws) = ground (arith, own-rows numeric trip ws)

replaced-rows :
    (numeric : Numeric) (trip : ℕ) (ws : List TripPreferenceWrite) (rows : List TripPreference)
    → trip_preferences trip (without_trip trip rows ++ map (stored_row numeric trip) ws)
      ≡ map (stored_row numeric trip) ws
replaced-rows numeric trip ws [] = own-rows numeric trip ws
replaced-rows numeric trip ws (x ∷ rows) = ground (arith, replaced-rows numeric trip ws rows)

foreign-rows :
    (numeric : Numeric) (trip other : ℕ) (ws : List TripPreferenceWrite)
    → other ≢ trip
    → trip_preferences other (map (stored_row numeric trip) ws) ≡ []
foreign-rows numeric trip other [] n = refl
foreign-rows numeric trip other (w ∷ ws) n = ground (arith, n, foreign-rows numeric trip other ws n)

other-rows :
    (numeric : Numeric) (trip other : ℕ) (ws : List TripPreferenceWrite)
    (rows : List TripPreference)
    → other ≢ trip
    → trip_preferences other (without_trip trip rows ++ map (stored_row numeric trip) ws)
      ≡ trip_preferences other rows
other-rows numeric trip other ws [] n = foreign-rows numeric trip other ws n
other-rows numeric trip other ws (x ∷ rows) n =
    ground (arith, n, other-rows numeric trip other ws rows n)

-- A row of the trip for a write, with a weight and a minimum.
abbrev pub row : ℕ → TripPreferenceWrite → Rational → Option Rational → TripPreference
row trip w weight least = record {
  trip_id = trip;
  attribute_id = w.attribute_id;
  weight = weight;
  minimum_required_score = least;
  is_mandatory = w.is_mandatory;
}

-- The rows as they are written, and as columns of four and of three decimal places keep them.
abbrev pub written : ℕ → List TripPreferenceWrite → List TripPreference
written trip ws = map (λ w. row trip w w.weight w.minimum_required_score) ws

abbrev pub kept : Numeric → ℕ → List TripPreferenceWrite → List TripPreference
kept numeric trip [] = []
kept numeric trip (w ∷ ws) =
    let least : Option Rational = elim w.minimum_required_score [
      | none ↦ none
      | some r ↦ some (numeric 5 3 r)
    ] in
    row trip w (numeric 5 4 w.weight) least ∷ kept numeric trip ws

stored_row-kept :
    (numeric : Numeric) (trip : ℕ) (ws : List TripPreferenceWrite)
    → map (stored_row numeric trip) ws ≡ kept numeric trip ws
stored_row-kept numeric trip [] = refl
stored_row-kept numeric trip (w ∷ ws) = elim (Option-cases w.minimum_required_score) [
  | inl e ↦ ground (arith, e, stored_row-kept numeric trip ws)
  | inr (r, e) ↦ ground (arith, e, stored_row-kept numeric trip ws)
]

-- For a trip that its user finds, and writes of distinct attributes that exist, a replacement answers the written rows, reading the preferences of the trip then gives exactly them with what the columns keep of their numbers, and the rows of every other trip are as before.
pub replace_preferences-stored :
    (numeric : Numeric) (user trip other : ℕ) (ws : List TripPreferenceWrite) (t : Trip) (d : World)
    → get_owned trip user d.trips ≡ some t
    → storable ws d ≡ true
    → other ≢ trip
    → ((request (replace_preferences numeric user trip ws) d).0 ≡ ok (written trip ws))
      × ((request
            (preferences user trip)
            (request (replace_preferences numeric user trip ws) d).1).0
          ≡ ok (kept numeric trip ws))
      × (trip_preferences other (request (replace_preferences numeric user trip ws) d).1.preferences
          ≡ trip_preferences other d.preferences)
unfolding preferences replace_preferences
replace_preferences-stored numeric user trip other ws t d e s n = (
  ground (arith, e, s),
  ground
      (arith, e, s, replaced-rows numeric trip ws d.preferences, stored_row-kept numeric trip ws),
  ground (arith, e, s, other-rows numeric trip other ws d.preferences n),
)
