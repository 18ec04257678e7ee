-- ===== src/Onboarding/Service/Complete.antt =====
-- `adaptive_complete` of services/onboarding.py, after the check of its route in
-- api/v1/onboarding.py.
pub mod Stored
use hotel_server_v.Base.{
  ℕ, suc, String, Bool, true, false, not, ◌&&◌, Option, none, some, List, [], ◌∷◌, ◌++◌, ltb,
  string_eq, contains, if◌then◌else◌,
}
use hotel_server_v.Base.Exec.{
  Exec, ok, pure, raise, raise_if, or_raise, modify, gets, commit, ◌>>=◌, ◌>>◌,
}
use hotel_server_v.Errors.{import_validation, dependency_unavailable, user_not_found}
use hotel_server_v.Auth.Store.{User, get_by_id, put_user}
use hotel_server_v.Preferences.Store.{UserPreference, Source, upsert}
use hotel_server_v.Onboarding.Types.{
  Session, Status, skipped, completed, ready_to_complete, Generation, idle, profile_generating,
  Payload,
}
use hotel_server_v.Onboarding.Keys.{min_questions}
use hotel_server_v.Onboarding.Branches.{Row}
use hotel_server_v.Onboarding.Readiness.{completion_readiness}
use hotel_server_v.Onboarding.Store.{Db, adaptive_answer_rows, counts, put_session, is_skipped}
use hotel_server_v.Onboarding.Service.{
  Env, ProfilePreference, owned, save, require_adaptive_session, mark_generation_failed,
}
use hotel_server_v.Onboarding.Service.Ask.{of_option, or_text}

abbrev pub is_completed : Status → Bool
is_completed completed = true
is_completed _ = false

abbrev is_ready : Status → Bool
is_ready ready_to_complete = true
is_ready _ = false

abbrev is_profile_generating : Generation → Bool
is_profile_generating profile_generating = true
is_profile_generating _ = false

module _ (env : Env) (now : ℕ) where
  open env use {
    Profile, rendering, meanwhile, resolve_attribute, build_profile, preferences_of, unresolved_of,
    summary_of, numeric,
  }

  -- The answer of the route.
  pub record Completion : Type 0 where
    pub preferences_created : ℕ
    pub profile : Option Profile
    pub unresolved_attributes : List String

  -- The variables of the loop over the profile's preferences.
  pub record Resolved : Type 0 where
    pub count : ℕ
    pub unresolved : List String
    pub table : List UserPreference

  resolve_one : ℕ → ProfilePreference → Option ℕ → Resolved → Resolved
  resolve_one user item none r = record r {
    unresolved =
        if contains item.attribute_slug r.unresolved
        then r.unresolved
        else r.unresolved ++ item.attribute_slug ∷ [];
  }
  resolve_one user item (some attribute) r = record r {
    count = suc r.count;
    table =
        upsert numeric user attribute item.importance_weight item.preferred_value
          Source.onboarding_deterministic r.table;
  }

  pub resolve_all : ℕ → List ProfilePreference → Resolved → Resolved
  unfolding resolve_one
  resolve_all user [] r = r
  resolve_all user (item ∷ items) r =
      resolve_all user items (resolve_one user item (resolve_attribute item.attribute_slug) r)

  abbrev pub resolve_profile : ℕ → Profile → List UserPreference → Resolved
  resolve_profile user p table =
      resolve_all user (preferences_of p)
        (record { count = 0; unresolved = unresolved_of p; table = table })

  abbrev pub done : Session Profile → Completion
  done s = record {
    preferences_created = s.profile_payload.resolved_preference_count;
    profile = s.profile_payload.profile;
    unresolved_attributes = s.profile_payload.unresolved_attributes;
  }

  -- What other requests commit while the profile is built. Number 3 of the request's waits.
  abbrev others : Exec (Db Profile) Unit
  others s = let d = meanwhile 3 s.saved in (ok tt, record { db = d; saved = d })

  abbrev pub completed_session : Profile → Resolved → Session Profile → Session Profile
  completed_session p r s = record s {
    status = completed;
    completed_at = some now;
    generation_state = idle;
    completion_reason = or_text s.completion_reason "DETERMINISTIC_PROFILE_GENERATED";
    profile_summary = some (summary_of p);
    profile_payload = record s.profile_payload {
      profile = some p;
      resolved_preference_count = r.count;
      unresolved_attributes = r.unresolved;
    };
  }

  abbrev pub finish : ℕ → ℕ → Profile → Resolved → Exec (Db Profile) Completion
  finish user sid p r = do
    found ← gets (λ d. get_by_id user d.users)
    u ← or_raise found user_not_found
    session ← owned user sid
    save (completed_session p r session)
    modify (λ d. record d {
      users =
          put_user (record u { onboarding_completed = true; onboarding_skipped_at = none }) d.users;
    })
    commit
    pure (record {
      preferences_created = r.count;
      profile = some p;
      unresolved_attributes = r.unresolved;
    })

  abbrev pub generate : ℕ → ℕ → Option Profile → Exec (Db Profile) Completion
  generate user sid none = do
    mark_generation_failed sid
    raise (dependency_unavailable "Adaptive onboarding deterministic profile generation failed")
  generate user sid (some p) = do
    table ← gets (λ d. d.preferences)
    let r = resolve_profile user p table
    modify (λ d. record d { preferences = r.table })
    finish user sid p r

  -- The gate of `adaptive_complete`: the stored rows and the stored routing state.
  unfoldable pub complete_gate : Session Profile → Db Profile → Bool
  complete_gate s d =
      let answered = (counts s.id d).0 in
      (completion_readiness rendering (of_option s.profile_payload.routing_state)
        (adaptive_answer_rows s.id d) answered).ready

  abbrev too_few : Session Profile → Db Profile → Bool
  too_few s d = ltb (counts s.id d).0 min_questions && not (is_ready s.status)

  abbrev pub build : ℕ → Session Profile → Exec (Db Profile) Completion
  build user session = do
    few ← gets (too_few session)
    raise_if few (import_validation "Answer at least 5 adaptive questions before completing")
    rows ← gets (adaptive_answer_rows session.id)
    ready ← gets (complete_gate session)
    raise_if (not ready)
        (import_validation "Adaptive onboarding is missing required destination or group signals")
    let working : Session Profile = record session { generation_state = profile_generating }
    save working
    commit
    others
    generate user session.id (
        build_profile rows session.profile_payload.location_context
          session.profile_payload.routing_state)

  unfoldable pub adaptive_complete : ℕ → ℕ → Exec (Db Profile) Completion
  unfolding owned resolve_all complete_gate put_session get_by_id put_user mark_generation_failed
  adaptive_complete user sid = do
    session ← owned user sid
    require_adaptive_session session
    raise_if (is_skipped session.status)
        (import_validation "Skipped onboarding sessions cannot be completed")
    if is_completed session.status then pure (done session) else do
      raise_if (is_profile_generating session.generation_state)
          (dependency_unavailable "Profile generation is already in progress")
      build user session
