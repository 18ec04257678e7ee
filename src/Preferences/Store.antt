-- ===== src/Preferences/Store.antt =====
-- The preference tables and repositories/preferences.py.
use hotel_server_v.Base.{
  ℕ, String, Bool, true, false, not, ◌&&◌, Option, none, some, List, [], ◌∷◌, map, keep, any, leb,
  ◌==◌, nat_eq, if◌then◌else◌,
}
use hotel_server_v.Base.Dict.{lookup, insert}
use hotel_server_v.Base.Rational.{Rational}

-- `PreferenceSource`, and the label that a trip override gets.
pub data Source : Type 0 where
  onboarding_ai onboarding_deterministic user_manual trip_specific : Source

pub record UserPreference : Type 0 where
  pub user_id : ℕ
  pub attribute_id : ℕ
  pub importance_weight : Rational
  pub preferred_value : Option String
  pub source : Source

pub record Attribute : Type 0 where
  pub id : ℕ
  pub name : String
  pub slug : String
  pub display_order : ℕ
  pub is_active : Bool
  -- of its category
  pub category_is_active : Bool

pub record TripPreference : Type 0 where
  pub trip_id : ℕ
  pub attribute_id : ℕ
  pub weight : Rational
  pub minimum_required_score : Option Rational
  pub is_mandatory : Bool

unfoldable pub same_source : Source → Source → Bool
same_source Source.onboarding_ai Source.onboarding_ai = true
same_source Source.onboarding_deterministic Source.onboarding_deterministic = true
same_source Source.user_manual Source.user_manual = true
same_source Source.trip_specific Source.trip_specific = true
same_source _ _ = false

abbrev pub is_manual : UserPreference → Bool
is_manual p = same_source p.source Source.user_manual

-- The unique index (user_id, attribute_id, preference_source).
abbrev pub has_key : ℕ → ℕ → Source → UserPreference → Bool
has_key user attribute source p =
    p.user_id == user && (p.attribute_id == attribute && same_source p.source source)

-- What a column of PostgreSQL's type `NUMERIC(precision, scale)` keeps of a number.
abbrev pub Numeric : Type 0
Numeric = ℕ → ℕ → Rational → Rational

-- `insert ... on conflict do update`; `importance_weight` is `NUMERIC(5, 4)`.
unfoldable pub upsert :
    Numeric → ℕ → ℕ → Rational → Option String → Source → List UserPreference → List UserPreference
upsert numeric user attribute weight value source [] =
    record {
      user_id = user;
      attribute_id = attribute;
      importance_weight = numeric 5 4 weight;
      preferred_value = value;
      source = source;
    }
    ∷ []
upsert numeric user attribute weight value source (p ∷ ps) =
    if has_key user attribute source p
    then record p { importance_weight = numeric 5 4 weight; preferred_value = value } ∷ ps
    else p ∷ upsert numeric user attribute weight value source ps

-- One element of `PreferencesReplace`.
pub record PreferenceWrite : Type 0 where
  pub attribute_id : ℕ
  pub importance_weight : Rational
  pub preferred_value : Option String

unfoldable pub upsert_all :
    Numeric → ℕ → List PreferenceWrite → List UserPreference → List UserPreference
unfolding upsert
upsert_all numeric user [] ps = ps
upsert_all numeric user (w ∷ ws) ps =
    upsert_all numeric user ws (
      upsert numeric user w.attribute_id w.importance_weight w.preferred_value Source.user_manual
        ps)

abbrev pub others : ℕ → UserPreference → Bool
others user p = not (p.user_id == user && is_manual p)

unfoldable pub replace_manual :
    Numeric → ℕ → List PreferenceWrite → List UserPreference → List UserPreference
unfolding upsert_all
replace_manual numeric user values ps = upsert_all numeric user values (keep (others user) ps)

abbrev pub is_override : ℕ → ℕ → UserPreference → Bool
is_override user attribute p = has_key user attribute Source.user_manual p

-- The rows left, and whether any was deleted.
unfoldable pub delete_manual : ℕ → ℕ → List UserPreference → List UserPreference × Bool
delete_manual user attribute ps =
    (keep (λ p. not (is_override user attribute p)) ps, any (is_override user attribute) ps)

-- A row of the join of preferences and active attributes.
abbrev pub Joined : Type 0
Joined = UserPreference × Attribute

join_one : UserPreference → List Attribute → List Joined → List Joined
join_one p [] rest = rest
join_one p (a ∷ attributes) rest =
    if a.id == p.attribute_id && a.is_active
    then (p, a) ∷ join_one p attributes rest
    else join_one p attributes rest

join : ℕ → List UserPreference → List Attribute → List Joined
unfolding join_one
join user [] attributes = []
join user (p ∷ ps) attributes =
    let rest = join user ps attributes in
    if p.user_id == user then join_one p attributes rest else rest

place : Joined → List Joined → List Joined
place x [] = x ∷ []
place x (y ∷ ys) = if leb x.1.display_order y.1.display_order then x ∷ y ∷ ys else y ∷ place x ys

-- `order_by(Attribute.display_order)`
order_by : List Joined → List Joined
unfolding place
order_by [] = []
order_by (x ∷ xs) = place x (order_by xs)

abbrev pub replaces : Option Joined → UserPreference → Bool
replaces none p = true
replaces (some _) p = is_manual p

-- The loop of `list_effective` over the rows of the query.
unfoldable pub select_rows : List (ℕ × Joined) → List Joined → List (ℕ × Joined)
select_rows selected [] = selected
select_rows selected ((p, a) ∷ rows) =
    select_rows
      (if replaces (lookup p.attribute_id selected) p
        then insert p.attribute_id (p, a) selected
        else selected)
      rows

-- An effective preference, `{**base, ...}` of `resolve_for_trip` included: `named` is the base.
pub record Effective : Type 0 where
  pub attribute_id : ℕ
  pub named : Option (String × String × Option String)
  pub importance_weight : Rational
  pub minimum_required_score : Option Rational
  pub is_mandatory : Bool
  pub source : Source

abbrev pub effective_of : Joined → Effective
effective_of (p, a) = record {
  attribute_id = a.id;
  named = some (a.name, a.slug, p.preferred_value);
  importance_weight = p.importance_weight;
  minimum_required_score = none;
  is_mandatory = false;
  source = p.source;
}

unfoldable pub list_effective : ℕ → List UserPreference → List Attribute → List Effective
unfolding join order_by select_rows
list_effective user ps attributes =
    map (λ entry. effective_of entry.1) (select_rows [] (order_by (join user ps attributes)))

by_attribute : List (ℕ × Effective) → List Effective → List (ℕ × Effective)
by_attribute d [] = d
by_attribute d (e ∷ es) = by_attribute (insert e.attribute_id e d) es

abbrev named_of : Option Effective → Option (String × String × Option String)
named_of none = none
named_of (some e) = e.named

abbrev pub override : Option Effective → TripPreference → Effective
override base row = record {
  attribute_id = row.attribute_id;
  named = named_of base;
  importance_weight = row.weight;
  minimum_required_score = row.minimum_required_score;
  is_mandatory = row.is_mandatory;
  source = Source.trip_specific;
}

-- The second loop of `resolve_for_trip`.
unfoldable pub overlay : List (ℕ × Effective) → List TripPreference → List (ℕ × Effective)
overlay d [] = d
overlay d (row ∷ rows) =
    overlay (insert row.attribute_id (override (lookup row.attribute_id d) row) d) rows

abbrev pub trip_preferences : ℕ → List TripPreference → List TripPreference
trip_preferences trip rows = keep (λ row. row.trip_id == trip) rows

unfoldable pub resolve_for_trip :
    ℕ → ℕ → List UserPreference → List Attribute → List TripPreference → List (ℕ × Effective)
unfolding list_effective by_attribute overlay
resolve_for_trip user trip ps attributes rows =
    overlay (by_attribute [] (list_effective user ps attributes)) (trip_preferences trip rows)
