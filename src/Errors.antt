-- ===== src/Errors.antt =====
-- app/exceptions.py: the domain errors, their public codes and HTTP statuses. A subclass is a
-- constructor of its own; a message that the caller passes is the constructor's argument.
use Prim.Native.Nat.{ℕ}
use Prim.Native.String.{String}

pub data Error : Type 0 where
  user_not_found hotel_not_found review_not_found trip_not_found : Error
  preference_not_found : String → Error
  recommendation_run_not_found : String → Error
  onboarding_session_not_found : Error
  invalid_credentials refresh_token_reuse : Error
  invalid_token : String → Error
  email_already_exists phone_already_exists : Error
  unauthorized forbidden ownership : Error
  invalid_destination unsupported_source duplicate_source_entity : Error
  import_validation : String → Error
  scoring insufficient_attribute_data : String → Error
  onboarding_not_completed : Error
  rate_limit_exceeded : ℕ → Error
  dependency_unavailable : String → Error
  source_rate_limit : ℕ → Error
  invalid_cursor : Error
  -- no domain errors: what SQLAlchemy raises, and any other exception
  integrity unexpected : Error

-- `status_code` of the class.
abbrev pub status_code : Error → ℕ
status_code user_not_found = 404
status_code hotel_not_found = 404
status_code review_not_found = 404
status_code trip_not_found = 404
status_code (preference_not_found _) = 404
status_code (recommendation_run_not_found _) = 404
status_code onboarding_session_not_found = 404
status_code invalid_credentials = 401
status_code refresh_token_reuse = 401
status_code (invalid_token _) = 401
status_code email_already_exists = 409
status_code phone_already_exists = 409
status_code unauthorized = 401
status_code forbidden = 403
status_code ownership = 403
status_code invalid_destination = 422
status_code unsupported_source = 422
status_code duplicate_source_entity = 409
status_code (import_validation _) = 422
status_code (scoring _) = 422
status_code (insufficient_attribute_data _) = 422
status_code onboarding_not_completed = 409
status_code (rate_limit_exceeded _) = 429
status_code (dependency_unavailable _) = 503
status_code (source_rate_limit _) = 503
status_code invalid_cursor = 422
status_code integrity = 500
status_code unexpected = 500
