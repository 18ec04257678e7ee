-- ===== src/Preferences/Updates.antt =====
-- About the updates of repositories/preferences.py.
use hotel_server_v.Base.{
  ℕ, String, ◌≡◌, refl, ap, ◌↔◌, ◌∙◌, Bool, true, ◌&&◌, Option, none, some, List, [], ◌∷◌, arith,
  ◌==◌, nat_eq, eqb_iff, if◌then◌else◌, find, keep, is_some, ◌≢◌,
}
use hotel_server_v.Base.Rational.{Rational}
use hotel_server_v.Preferences.Store.{
  UserPreference, PreferenceWrite, Numeric, Source, same_source, has_key, upsert, upsert_all,
  replace_manual, others, delete_manual,
}

-- The row of a user's preference from one source.
abbrev pub stored : ℕ → ℕ → Source → List UserPreference → Option UserPreference
stored user attribute source ps = find (has_key user attribute source) ps

abbrev pub row : ℕ → ℕ → Rational → Option String → Source → UserPreference
row user attribute weight value source = record {
  user_id = user;
  attribute_id = attribute;
  importance_weight = weight;
  preferred_value = value;
  source = source;
}

pub same_source_iff : (s t : Source) → (same_source s t ≡ true) ↔ (s ≡ t)
unfolding same_source
same_source_iff s t = ground arith

abbrev pub same_key : ℕ → ℕ → Source → ℕ → ℕ → Source → Bool
same_key u a s v b t = v == u && (b == a && same_source t s)

-- An upsert replaces one row, or adds it, and leaves every other.
pub stored-upsert :
    (numeric : Numeric) (u a : ℕ) (s : Source) (v b : ℕ) (w : Rational) (x : Option String)
    (t : Source) (ps : List UserPreference)
    → stored u a s (upsert numeric v b w x t ps)
      ≡ (if same_key u a s v b t then some (row v b (numeric 5 4 w) x t) else stored u a s ps)
unfolding upsert
stored-upsert numeric u a s v b w x t [] = ground arith
stored-upsert numeric u a s v b w x t (p ∷ ps) = ground (
  arith,
  same_source_iff p.source s,
  same_source_iff p.source t,
  same_source_iff t s,
  eqb_iff p.user_id u,
  stored-upsert numeric u a s v b w x t ps,
)

-- What is kept of a list is found as before, if the key's rows are kept.
stored-keep :
    (u a : ℕ) (s : Source) (q : UserPreference → Bool) (ps : List UserPreference)
    → ((p : UserPreference) → has_key u a s p ≡ true → q p ≡ true)
    → stored u a s (keep q ps) ≡ stored u a s ps
stored-keep u a s q [] h = refl
stored-keep u a s q (p ∷ ps) h = ground (arith, h p, stored-keep u a s q ps h)

stored-upsert_all :
    (numeric : Numeric) (u a : ℕ) (s : Source) (v : ℕ) (ws : List PreferenceWrite)
    (ps : List UserPreference)
    → s ≢ Source.user_manual
    → stored u a s (upsert_all numeric v ws ps) ≡ stored u a s ps
unfolding upsert_all
stored-upsert_all numeric u a s v [] ps n = refl
stored-upsert_all numeric u a s v (w ∷ ws) ps n =
    let ps' =
      upsert numeric v w.attribute_id w.importance_weight w.preferred_value Source.user_manual ps in
    ground (
      arith,
      same_source_iff Source.user_manual s,
      stored-upsert_all numeric u a s v ws ps' n,
      stored-upsert numeric u a s v w.attribute_id w.importance_weight w.preferred_value
          Source.user_manual ps,
    )

-- Replacing a user's manual preferences changes no preference that onboarding wrote, of any user.
pub replace_manual-keeps_onboarding :
    (numeric : Numeric) (user : ℕ) (ws : List PreferenceWrite) (ps : List UserPreference) (u a : ℕ)
    (s : Source)
    → s ≢ Source.user_manual
    → stored u a s (replace_manual numeric user ws ps) ≡ stored u a s ps
unfolding replace_manual
replace_manual-keeps_onboarding numeric user ws ps u a s n =
    stored-upsert_all numeric u a s user ws (keep (others user) ps) n
    ∙ stored-keep u a s (others user) ps (λ p h.
      ground (arith, same_source_iff p.source s, same_source_iff p.source Source.user_manual))

-- A manual preference of another user stays too.
stored-upsert_all_other :
    (numeric : Numeric) (u a : ℕ) (v : ℕ) (ws : List PreferenceWrite) (ps : List UserPreference)
    → u ≢ v
    → stored u a Source.user_manual (upsert_all numeric v ws ps) ≡ stored u a Source.user_manual ps
unfolding upsert_all
stored-upsert_all_other numeric u a v [] ps n = refl
stored-upsert_all_other numeric u a v (w ∷ ws) ps n =
    let ps' =
      upsert numeric v w.attribute_id w.importance_weight w.preferred_value Source.user_manual ps in
    ground (
      arith,
      stored-upsert_all_other numeric u a v ws ps' n,
      stored-upsert numeric u a Source.user_manual v w.attribute_id w.importance_weight
          w.preferred_value Source.user_manual ps,
    )

stored-keep-others :
    (user a : ℕ) (ps : List UserPreference)
    → stored user a Source.user_manual (keep (others user) ps) ≡ none
stored-keep-others user a [] = refl
stored-keep-others user a (p ∷ ps) = ground (arith, stored-keep-others user a ps)

-- The last write to an attribute.
abbrev pub last_write : ℕ → List PreferenceWrite → Option PreferenceWrite
last_write a [] = none
last_write a (w ∷ ws) = elim (last_write a ws) [
  | some later ↦ some later
  | none ↦ if w.attribute_id == a then some w else none
]

abbrev pub written :
    Numeric → ℕ → Option PreferenceWrite → Option UserPreference → Option UserPreference
written numeric user none old = old
written numeric user (some w) old =
    some (
      row user w.attribute_id (numeric 5 4 w.importance_weight) w.preferred_value
        Source.user_manual)

stored-upsert_all_self :
    (numeric : Numeric) (user a : ℕ) (ws : List PreferenceWrite) (ps : List UserPreference)
    → stored user a Source.user_manual (upsert_all numeric user ws ps)
      ≡ written numeric user (last_write a ws) (stored user a Source.user_manual ps)
unfolding upsert_all
stored-upsert_all_self numeric user a [] ps = refl
stored-upsert_all_self numeric user a (w ∷ ws) ps =
    let ps' =
      upsert numeric user w.attribute_id w.importance_weight w.preferred_value Source.user_manual
        ps in
    ground (
      arith,
      same_source_iff Source.user_manual Source.user_manual,
      eqb_iff user user,
      stored-upsert_all_self numeric user a ws ps',
      stored-upsert numeric user a Source.user_manual user w.attribute_id w.importance_weight
          w.preferred_value Source.user_manual ps,
    )

-- After a replacement the user's manual preferences are exactly the last writes of the request, each
-- with what the column of the weight keeps: an attribute that the request does not name has none.
pub replace_manual-stored :
    (numeric : Numeric) (user : ℕ) (ws : List PreferenceWrite) (ps : List UserPreference) (a : ℕ)
    → stored user a Source.user_manual (replace_manual numeric user ws ps)
      ≡ written numeric user (last_write a ws) none
unfolding replace_manual
replace_manual-stored numeric user ws ps a =
    stored-upsert_all_self numeric user a ws (keep (others user) ps)
    ∙ ap (written numeric user (last_write a ws)) (stored-keep-others user a ps)

-- Deleting a manual preference removes that row, says whether there was one, and leaves every row of
-- another key.
pub delete_manual-stored :
    (user attribute : ℕ) (ps : List UserPreference) (u a : ℕ) (s : Source)
    → let (rest, deleted) = delete_manual user attribute ps in
      (deleted ≡ is_some (stored user attribute Source.user_manual ps))
      × (stored u a s rest
          ≡ (if same_key u a s user attribute Source.user_manual then none else stored u a s ps))
unfolding delete_manual
delete_manual-stored user attribute [] u a s = (refl, ground arith)
delete_manual-stored user attribute (p ∷ ps) u a s = ground (
  arith,
  same_source_iff p.source s,
  same_source_iff p.source Source.user_manual,
  same_source_iff Source.user_manual s,
  delete_manual-stored user attribute ps u a s,
)
