-- ===== src/Preferences/Service.antt =====
-- services/preferences.py over the tables of Preferences/Store.antt.
use hotel_server_v.Base.{ℕ, Bool, not, List, [], ◌∷◌, any, ◌==◌, nat_eq, ◌&&◌}
use hotel_server_v.Base.Exec.{Exec, pure, raise_if, modify, gets, commit, ◌>>=◌, ◌>>◌}
use hotel_server_v.Errors.{preference_not_found}
use hotel_server_v.Preferences.Store.{
  UserPreference, Attribute, Source, Effective, PreferenceWrite, Numeric, upsert, replace_manual,
  delete_manual, list_effective,
}

pub record Tables : Type 0 where
  pub preferences : List UserPreference
  pub attributes : List Attribute

-- `AttributeRepository.list_attributes` returns the active ones of active categories.
abbrev pub attribute_exists : ℕ → Tables → Bool
attribute_exists attribute d =
    any (λ a. a.id == attribute && (a.is_active && a.category_is_active)) d.attributes

abbrev effective : ℕ → Tables → List Effective
effective user d = list_effective user d.preferences d.attributes

unfoldable pub check_all : List PreferenceWrite → Exec Tables Unit
check_all [] = pure tt
check_all (w ∷ ws) = do
  known ← gets (attribute_exists w.attribute_id)
  raise_if (not known) (preference_not_found "Attribute not found")
  check_all ws

unfoldable pub replace_manual_preferences :
    Numeric → ℕ → List PreferenceWrite → Exec Tables (List Effective)
unfolding check_all
replace_manual_preferences numeric user ws = do
  check_all ws
  modify (λ d. record d { preferences = replace_manual numeric user ws d.preferences })
  commit
  gets (effective user)

unfoldable pub upsert_manual : Numeric → ℕ → ℕ → PreferenceWrite → Exec Tables (List Effective)
upsert_manual numeric user attribute w = do
  raise_if (not (w.attribute_id == attribute))
      (preference_not_found "Path and payload attribute IDs differ")
  known ← gets (attribute_exists attribute)
  raise_if (not known) (preference_not_found "Attribute not found")
  modify (λ d. record d {
    preferences =
        upsert numeric user attribute w.importance_weight w.preferred_value Source.user_manual
          d.preferences;
  })
  commit
  gets (effective user)

unfoldable pub delete_manual_preference : ℕ → ℕ → Exec Tables Unit
delete_manual_preference user attribute = do
  result ← gets (λ d. delete_manual user attribute d.preferences)
  modify (λ d. record d { preferences = result.0 })
  raise_if (not result.1) (preference_not_found "Preference not found")
  commit
