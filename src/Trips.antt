-- ===== src/Trips.antt =====
-- Trips: services/trips.py over repositories/trips.py, and `validate_hierarchy` of
-- repositories/locations.py. The preferences of a trip are in
-- Trips/Overrides.antt.
pub mod Isolation
pub mod Overrides
mod Tests
use hotel_server_v.Base.{
  ℕ, String, Bool, true, false, not, ◌&&◌, Option, none, some, List, [], ◌∷◌, ◌++◌, ltb, ◌==◌,
  nat_eq, find, keep, any, is_some, if◌then◌else◌,
}
use hotel_server_v.Base.Exec.{Exec, pure, raise_if, or_raise, modify, gets, commit, ◌>>=◌, ◌>>◌}
use hotel_server_v.Base.Rational.{Rational}
use hotel_server_v.Preferences.Store.{TripPreference}
use hotel_server_v.Errors.{trip_not_found, invalid_destination}

pub record Country : Type 0 where
  pub id : ℕ
  pub is_active : Bool

pub record Region : Type 0 where
  pub id : ℕ
  pub country_id : ℕ
  pub is_active : Bool

pub record City : Type 0 where
  pub id : ℕ
  pub region_id : ℕ
  pub is_active : Bool

-- `TripWrite`; dates are numbers of days.
pub record TripWrite : Type 0 where
  pub destination_country_id : ℕ
  pub destination_region_id : Option ℕ
  pub destination_city_id : Option ℕ
  pub check_in_date : Option ℕ
  pub check_out_date : Option ℕ
  pub trip_purpose : String
  pub party_type : Option String
  pub adult_count : ℕ
  pub child_count : ℕ
  pub room_count : ℕ
  pub budget_min : Option Rational
  pub budget_max : Option Rational
  pub currency : String
  pub status : String

-- `Trip`; the columns that a payload fills are `content`.
pub record Trip : Type 0 where
  pub id : ℕ
  pub user_id : ℕ
  pub created_at : ℕ
  pub content : TripWrite
  pub deleted_at : Option ℕ

pub record World : Type 0 where
  pub countries : List Country
  pub regions : List Region
  pub cities : List City
  pub trips : List Trip
  -- the identifiers of the attributes, and `trip_attribute_preferences`
  pub attributes : List ℕ
  pub preferences : List TripPreference

abbrev region_known : ℕ → Option ℕ → World → Bool
region_known country none d = true
region_known country (some r) d =
    any (λ x. x.id == r && (x.country_id == country && x.is_active)) d.regions

abbrev city_known : Option ℕ → Option ℕ → World → Bool
city_known region none d = true
city_known none (some c) d = false
city_known (some r) (some c) d = any (λ x. x.id == c && (x.region_id == r && x.is_active)) d.cities

unfoldable pub validate_hierarchy : TripWrite → World → Bool
validate_hierarchy w d =
    any (λ x. x.id == w.destination_country_id && x.is_active) d.countries
    && (region_known w.destination_country_id w.destination_region_id d
        && city_known w.destination_region_id w.destination_city_id d)

abbrev pub owns : ℕ → Trip → Bool
owns user t = t.user_id == user && not (is_some t.deleted_at)

unfoldable pub get_owned : ℕ → ℕ → List Trip → Option Trip
get_owned trip user ts = find (λ t. t.id == trip && owns user t) ts

place : Trip → List Trip → List Trip
place t [] = t ∷ []
place t (x ∷ xs) = if ltb t.created_at x.created_at then x ∷ place t xs else t ∷ x ∷ xs

latest_first : List Trip → List Trip
unfolding place
latest_first [] = []
latest_first (t ∷ ts) = place t (latest_first ts)

unfoldable pub list_owned : ℕ → List Trip → List Trip
unfolding latest_first
list_owned user ts = latest_first (keep (owns user) ts)

-- Writes a trip back under its primary key.
unfoldable pub put_trip : Trip → List Trip → List Trip
put_trip new [] = []
put_trip new (t ∷ ts) = if t.id == new.id then new ∷ ts else t ∷ put_trip new ts

-- `_owned`
abbrev pub owned : ℕ → ℕ → Exec World Trip
owned user trip = do found ← gets (λ d. get_owned trip user d.trips); or_raise found trip_not_found

-- `_validate_destination`
abbrev pub validate_destination : TripWrite → Exec World Unit
validate_destination w = do
  valid ← gets (validate_hierarchy w)
  raise_if (not valid) invalid_destination

abbrev save : Trip → Exec World Unit
save t = modify (λ d. record d { trips = put_trip t d.trips })

-- `now` and `new_id` are the clock and the fresh identifier of the call.
unfoldable pub create : ℕ → ℕ → ℕ → TripWrite → Exec World Trip
unfolding validate_hierarchy
create now new_id user w = do
  validate_destination w
  let trip : Trip = record {
    id = new_id;
    user_id = user;
    created_at = now;
    content = w;
    deleted_at = none;
  }
  modify (λ d. record d { trips = d.trips ++ trip ∷ [] })
  commit
  pure trip

unfoldable pub list : ℕ → Exec World (List Trip)
unfolding list_owned
list user = gets (λ d. list_owned user d.trips)

unfoldable pub get : ℕ → ℕ → Exec World Trip
unfolding get_owned
get user trip = owned user trip

unfoldable pub update : ℕ → ℕ → TripWrite → Exec World Trip
unfolding validate_hierarchy get_owned put_trip
update user trip w = do
  validate_destination w
  found ← owned user trip
  let changed : Trip = record found { content = w }
  save changed
  commit
  pure changed

unfoldable pub delete : ℕ → ℕ → ℕ → Exec World Unit
unfolding get_owned put_trip
delete now user trip = do
  found ← owned user trip
  save (record found { deleted_at = some now })
  commit
