-- ===== src/Preferences/Precedence.antt =====
-- About the precedence of preferences in repositories/preferences.py.
use hotel_server_v.Base.{
  ℕ, ◌≡◌, refl, ◌∙◌, ◌&&◌, Option, none, some, List, [], ◌∷◌, arith, ◌==◌, nat_eq, eqb_iff,
  if◌then◌else◌,
}
use hotel_server_v.Base.Dict.{lookup, insert, lookup-insert}
use hotel_server_v.Preferences.Store.{
  UserPreference, Attribute, Joined, is_manual, select_rows, Effective, TripPreference, override,
  overlay, resolve_for_trip, trip_preferences,
}

-- Of the rows of an attribute, the last manual one, and the first of any kind.
abbrev last_manual : ℕ → List Joined → Option Joined
last_manual attribute [] = none
last_manual attribute ((p, a) ∷ rows) = elim (last_manual attribute rows) [
  | some later ↦ some later
  | none ↦ if p.attribute_id == attribute && is_manual p then some (p, a) else none
]

abbrev first_row : ℕ → List Joined → Option Joined
first_row attribute [] = none
first_row attribute ((p, a) ∷ rows) =
    if p.attribute_id == attribute then some (p, a) else first_row attribute rows

abbrev or_else {ℓ} : {A : Type ℓ} → Option A → Option A → Option A
or_else none o = o
or_else (some a) o = some a

select_rows-lookup :
    (attribute : ℕ) (selected : List (ℕ × Joined)) (rows : List Joined)
    → lookup attribute (select_rows selected rows)
      ≡ or_else
          (last_manual attribute rows)
          (or_else (lookup attribute selected) (first_row attribute rows))
unfolding select_rows
select_rows-lookup attribute selected [] = ground arith
select_rows-lookup attribute selected ((p, a) ∷ rows) = ground (
  arith,
  eqb_iff p.attribute_id attribute,
  lookup-insert p.attribute_id attribute (p, a) selected,
  select_rows-lookup attribute selected rows,
  select_rows-lookup attribute (insert p.attribute_id (p, a) selected) rows,
)

-- In whatever order the query returns its rows, `list_effective` keeps the manual preference of an
-- attribute where there is one, and otherwise the first row of the attribute.
pub select_rows-precedence :
    (attribute : ℕ) (rows : List Joined)
    → lookup attribute (select_rows [] rows)
      ≡ or_else (last_manual attribute rows) (first_row attribute rows)
select_rows-precedence attribute rows = select_rows-lookup attribute [] rows ∙ unfold lookup in refl

-- The last override of an attribute.
abbrev pub last_override : ℕ → List TripPreference → Option TripPreference
last_override attribute [] = none
last_override attribute (row ∷ rows) = elim (last_override attribute rows) [
  | some later ↦ some later
  | none ↦ if row.attribute_id == attribute then some row else none
]

abbrev pub apply_override : Option Effective → Option TripPreference → Option Effective
apply_override base none = base
apply_override base (some row) = some (override base row)

overlay-lookup :
    (attribute : ℕ) (d : List (ℕ × Effective)) (rows : List TripPreference)
    → lookup attribute (overlay d rows)
      ≡ apply_override (lookup attribute d) (last_override attribute rows)
unfolding overlay
overlay-lookup attribute d [] = refl
overlay-lookup attribute d (row ∷ rows) =
    let new = override (lookup row.attribute_id d) row in
    ground (
      arith,
      eqb_iff row.attribute_id attribute,
      lookup-insert row.attribute_id attribute new d,
      overlay-lookup attribute (insert row.attribute_id new d) rows,
    )

-- For each attribute, `resolve_for_trip` gives the trip's override where there is one, with the name
-- and value of the permanent preference that it covers, and otherwise the permanent preference.
pub resolve_for_trip-precedence :
    (user trip attribute : ℕ) (ps : List UserPreference) (attributes : List Attribute)
    (rows : List TripPreference)
    → lookup attribute (resolve_for_trip user trip ps attributes rows)
      ≡ apply_override
          (lookup attribute (resolve_for_trip user trip ps attributes []))
          (last_override attribute (trip_preferences trip rows))
unfolding resolve_for_trip
resolve_for_trip-precedence user trip attribute ps attributes rows =
    overlay-lookup attribute _ (trip_preferences trip rows)
