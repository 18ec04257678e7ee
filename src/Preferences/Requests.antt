-- ===== src/Preferences/Requests.antt =====
-- About the requests of services/preferences.py, each as a whole.
use hotel_server_v.Base.{
  ℕ, ◌≡◌, refl, ◌&&◌, none, some, List, [], ◌∷◌, arith, all, any, Bool, true, false, ◌==◌, nat_eq,
  if◌then◌else◌, is_some,
}
use hotel_server_v.Base.Exec.{ok, err, Tx, request, is_ok}
use hotel_server_v.Errors.{preference_not_found}
use hotel_server_v.Preferences.Store.{
  Attribute, Source, PreferenceWrite, Numeric, replace_manual, list_effective,
}
use hotel_server_v.Preferences.Service.{
  Tables, check_all, replace_manual_preferences, upsert_manual, delete_manual_preference,
}
use hotel_server_v.Preferences.Updates.{stored, row, same_key, stored-upsert, delete_manual-stored}

-- An attribute that is stored as active, in a category that is.
abbrev pub is_known : ℕ → List Attribute → Bool
is_known attribute [] = false
is_known attribute (a ∷ attributes) =
    if a.id == attribute && a.is_active && a.category_is_active
    then true
    else is_known attribute attributes

attribute_exists-is_known :
    (attribute : ℕ) (attributes : List Attribute)
    → any (λ a. a.id == attribute && (a.is_active && a.category_is_active)) attributes
      ≡ is_known attribute attributes
attribute_exists-is_known attribute [] = refl
attribute_exists-is_known attribute (a ∷ attributes) =
    ground (arith, attribute_exists-is_known attribute attributes)

check_all-result :
    (ws : List PreferenceWrite) (s : Tx Tables)
    → check_all ws s ≡ (
      if all (λ w. is_known w.attribute_id s.db.attributes) ws
          then ok tt
          else err (preference_not_found "Attribute not found"),
      s,
    )
unfolding check_all
check_all-result [] s = refl
check_all-result (w ∷ ws) s =
    ground (arith, check_all-result ws s, attribute_exists-is_known w.attribute_id s.db.attributes)

-- A replacement is all or nothing: with an attribute that is unknown, inactive or of an
-- inactive category anywhere in the request it is refused and stores nothing; otherwise it stores the replacement and returns the
-- effective preferences that follow from it.
pub replace_manual_preferences-atomic :
    (numeric : Numeric) (user : ℕ) (ws : List PreferenceWrite) (d : Tables)
    → request (replace_manual_preferences numeric user ws) d ≡ (
        if all (λ w. is_known w.attribute_id d.attributes) ws
        then (
          ok (list_effective user (replace_manual numeric user ws d.preferences) d.attributes),
          record d { preferences = replace_manual numeric user ws d.preferences },
        )
        else (err (preference_not_found "Attribute not found"), d))
unfolding replace_manual_preferences
replace_manual_preferences-atomic numeric user ws d =
    ground (arith, check_all-result ws (record { db = d; saved = d }))

-- An update of one manual preference is refused, and stores nothing, when the path and the body name
-- different attributes or the attribute is unknown, inactive or of an inactive category. Otherwise
-- the row of that key holds what the column keeps of the written weight, and the value, and every row of another key is as before.
pub upsert_manual-stored :
    (numeric : Numeric) (user attribute : ℕ) (w : PreferenceWrite) (d : Tables) (u a : ℕ)
    (s : Source)
    → let (r, d') = request (upsert_manual numeric user attribute w) d in
      (is_ok r ≡ (w.attribute_id == attribute && is_known attribute d.attributes))
      × (stored u a s d'.preferences ≡ (
          if is_ok r && same_key u a s user attribute Source.user_manual
          then some (
              row user attribute
                (numeric 5 4 w.importance_weight)
                w.preferred_value
                Source.user_manual)
          else stored u a s d.preferences))
unfolding upsert_manual
upsert_manual-stored numeric user attribute w d u a s = ground (
  arith,
  attribute_exists-is_known attribute d.attributes,
  stored-upsert numeric u a s user attribute w.importance_weight w.preferred_value
      Source.user_manual d.preferences,
)

-- A deletion succeeds exactly when the user has a manual preference of the attribute. Then that row
-- is gone and every row of another key as before; otherwise the answer is the error and nothing
-- changes.
pub delete_manual_preference-stored :
    (user attribute : ℕ) (d : Tables) (u a : ℕ) (s : Source)
    → let (r, d') = request (delete_manual_preference user attribute) d in
      (is_ok r ≡ is_some (stored user attribute Source.user_manual d.preferences))
      × (stored u a s d'.preferences ≡ (
          if is_ok r && same_key u a s user attribute Source.user_manual
          then none
          else stored u a s d.preferences))
unfolding delete_manual_preference
delete_manual_preference-stored user attribute d u a s =
    ground (arith, delete_manual-stored user attribute d.preferences u a s)
