-- ===== src/Onboarding/Service/Skip.antt =====
-- `skip` and `status` of services/onboarding.py.
pub mod Closed
pub mod Reported
use hotel_server_v.Base.{
  ℕ, String, Bool, true, false, not, ◌&&◌, Option, none, some, List, is_some, if◌then◌else◌,
}
use hotel_server_v.Base.Exec.{Exec, pure, raise_if, or_raise, modify, gets, commit, ◌>>=◌, ◌>>◌}
use hotel_server_v.Errors.{user_not_found, import_validation}
use hotel_server_v.Auth.Store.{User, get_by_id, put_user}
use hotel_server_v.Onboarding.Types.{Session, Status, skipped, Generation, idle, Mode, adaptive}
use hotel_server_v.Onboarding.Store.{
  Db, active_session, latest_skipped_session, put_session, counts,
}
use hotel_server_v.Onboarding.Service.{save, is_adaptive}

-- `OnboardingSkipRead`
pub record SkipRead : Type 0 where
  pub skipped : Bool
  pub completed : Bool
  pub session_id : Option ℕ
  pub status : Status

-- `OnboardingStatusRead`
pub record StatusRead : Type 0 where
  pub completed : Bool
  pub skipped : Bool
  pub active_session_id : Option ℕ
  pub answered_count : ℕ
  pub question_count : ℕ
  pub mode : Mode
  pub generation_state : Generation
  pub completion_reason : Option String

abbrev pub stamp : ℕ → User → User
stamp now u =
    if is_some u.onboarding_skipped_at then u else record u { onboarding_skipped_at = some now }

abbrev pub no_session : Bool → Bool → Option String → StatusRead
no_session completed was reason = record {
  completed = completed;
  skipped = was;
  active_session_id = none;
  answered_count = 0;
  question_count = 0;
  mode = adaptive;
  generation_state = idle;
  completion_reason = reason;
}

module _ {Profile : Type 0} where
  -- The open session, or on a repeated skip the one that was skipped.
  abbrev pub skip_target : ℕ → User → Db Profile → Option (Session Profile)
  skip_target user u d = elim (active_session user d) [
    | some s ↦ some s
    | none ↦ if is_some u.onboarding_skipped_at then latest_skipped_session user d else none
  ]

  abbrev pub as_skipped : Session Profile → Session Profile
  as_skipped s = record s {
    status = skipped;
    generation_state = idle;
    completion_reason = some "USER_SKIPPED";
  }

  abbrev skip_session : Option (Session Profile) → Exec (Db Profile) Unit
  skip_session none = pure tt
  skip_session (some s) = save (as_skipped s)

  abbrev id_of : Option (Session Profile) → Option ℕ
  id_of none = none
  id_of (some s) = some s.id

  unfoldable pub skip : ℕ → ℕ → Exec (Db Profile) SkipRead
  unfolding get_by_id put_user active_session latest_skipped_session put_session
  skip now user = do
    found ← gets (λ d. get_by_id user d.users)
    u ← or_raise found user_not_found
    raise_if u.onboarding_completed (import_validation "Onboarding is already completed")
    target ← gets (skip_target user u)
    skip_session target
    modify (λ d. record d { users = put_user (stamp now u) d.users })
    commit
    pure (record { skipped = true; completed = false; session_id = id_of target; status = skipped })

  abbrev was_skipped : ℕ → Db Profile → Bool
  was_skipped user d = elim (get_by_id user d.users) [
    | none ↦ false
    | some u ↦ is_some u.onboarding_skipped_at
  ]

  abbrev status_of : ℕ → Bool → Option (Session Profile) → Db Profile → StatusRead
  status_of user completed none d = no_session completed (not completed && was_skipped user d) none
  status_of user completed (some s) d =
      if not (is_adaptive s.mode)
      then no_session completed false (some "LEGACY_STATIC_SESSION_RESTART_REQUIRED")
      else record {
        completed = completed;
        skipped = false;
        active_session_id = some s.id;
        answered_count = (counts s.id d).0;
        question_count = (counts s.id d).1;
        mode = s.mode;
        generation_state = s.generation_state;
        completion_reason = s.completion_reason;
      }

  unfoldable pub status : ℕ → Bool → Exec (Db Profile) StatusRead
  unfolding active_session get_by_id counts
  status user completed = do
    active ← gets (active_session user)
    gets (status_of user completed active)
