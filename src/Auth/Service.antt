-- ===== src/Auth/Service.antt =====
-- services/auth.py: registration, login, rotation of refresh tokens and logout.
use hotel_server_v.Base.{
  ℕ, String, ◌*◌, Bool, false, not, ◌||◌, Option, none, some, leb, ◌==◌, nat_eq, string_eq,
  if◌then◌else◌, is_some,
}
use hotel_server_v.Base.Text.{Unicode}
use hotel_server_v.Base.Exec.{
  Exec, Tx, Result, ok, err, pure, raise, raise_if, or_raise, lift, modify, gets, commit, ◌>>=◌,
  ◌>>◌,
}
use hotel_server_v.Errors.{
  Error, email_already_exists, phone_already_exists, invalid_credentials, unexpected, invalid_token,
  refresh_token_reuse, integrity,
}
use hotel_server_v.Auth.Store.{
  UserStatus, UserRole, User, RefreshToken, Accounts, is_active, get_by_id, get_by_email,
  get_by_phone, add_user, put_user, get_by_hash, add_token, put_token, revoke_family,
}
use hotel_server_v.Auth.Security.{
  JwtConfig, Crypto, Draw, hash_password, verify_password, hash_token_identifier,
  create_access_token, create_refresh_token, decode_token,
}

pub record TokenPair : Type 0 where
  pub access_token : String
  pub refresh_token : String
  pub expires_in : ℕ

pub record RegisterRequest : Type 0 where
  pub email : String
  pub phone : Option String
  pub first_name : String
  pub last_name : String
  pub password : String

-- The message of `InvalidTokenError` without one.
abbrev pub bad_token : Error
bad_token = invalid_token "Authentication token is invalid or expired"

abbrev role_text : UserRole → String
role_text UserRole.user = "USER"
role_text UserRole.data_operator = "DATA_OPERATOR"
role_text UserRole.admin = "ADMIN"

module _ (c : Crypto) (config : JwtConfig) (unicode : Unicode) where
  abbrev pub refresh_row : Draw → ℕ → ℕ → Option String → Option String → RefreshToken
  refresh_row draw user_id family_id user_agent ip_address =
      let (_, jti, expires_at) = create_refresh_token c config draw user_id family_id in
      record {
        id = draw.token_id;
        user_id = user_id;
        family_id = family_id;
        token_hash = hash_token_identifier c jti;
        expires_at = expires_at;
        revoked_at = none;
        replaced_by_id = none;
        user_agent = user_agent;
        ip_address = ip_address;
      }

  unfoldable pub build_pair :
      Draw → User → ℕ → Option String → Option String → Exec Accounts (TokenPair × RefreshToken)
  unfolding create_access_token create_refresh_token hash_token_identifier add_token
  build_pair draw user family_id user_agent ip_address = do
    let access = create_access_token c config draw user.id (role_text user.role)
    let (refresh, _, _) = create_refresh_token c config draw user.id family_id
    let model = refresh_row draw user.id family_id user_agent ip_address
    add_token model
    pure (
      record {
        access_token = access;
        refresh_token = refresh;
        expires_in = config.access_token_minutes * 60;
      },
      model,
    )

  unfoldable pub issue_pair :
      Draw → User → ℕ → Option String → Option String → Exec Accounts TokenPair
  unfolding build_pair
  issue_pair draw user family_id user_agent ip_address = do
    made ← build_pair draw user family_id user_agent ip_address
    pure made.0

  -- `if request.phone and await get_by_phone(request.phone)`
  abbrev phone_taken : Option String → Accounts → Bool
  phone_taken none d = false
  phone_taken (some p) d = if p == "" then false else is_some (get_by_phone p d.users)

  abbrev new_user : Draw → RegisterRequest → User
  new_user draw r = record {
    id = draw.user_id;
    email = unicode.lower r.email;
    phone = r.phone;
    first_name = r.first_name;
    last_name = r.last_name;
    password_hash = hash_password c r.password;
    status = UserStatus.active;
    role = UserRole.user;
    onboarding_completed = false;
    onboarding_skipped_at = none;
    last_login_at = none;
    deleted_at = none;
  }

  -- `except IntegrityError`: roll back, then say which of the two columns clashed.
  abbrev on_integrity :
      RegisterRequest
      → Result (User × TokenPair) × Tx Accounts
      → Result (User × TokenPair) × Tx Accounts
  on_integrity r (ok a, s) = (ok a, s)
  on_integrity r (err integrity, s) = (
    if phone_taken r.phone s.saved then err phone_already_exists else err email_already_exists,
    record s { db = s.saved },
  )
  on_integrity r (err e, s) = (err e, s)

  abbrev store_user :
      Draw → RegisterRequest → Option String → Option String → Exec Accounts (User × TokenPair)
  store_user draw r user_agent ip_address = do
    let user = new_user draw r
    add_user user
    tokens ← issue_pair draw user draw.family_id user_agent ip_address
    commit
    pure (user, tokens)

  unfoldable pub register :
      Draw → RegisterRequest → Option String → Option String → Exec Accounts (User × TokenPair)
  unfolding issue_pair add_user get_by_email get_by_phone
  register draw r user_agent ip_address = do
    known ← gets (λ d. get_by_email (unicode.lower (unicode.lower r.email)) d.users)
    raise_if (is_some known) email_already_exists
    raise_if (← gets (phone_taken r.phone)) phone_already_exists
    (λ s. on_integrity r (store_user draw r user_agent ip_address s))

  abbrev may_log_in : String → Option User → Option User
  may_log_in password none = none
  may_log_in password (some u) =
      if not (is_active u.status) || not (verify_password c password u.password_hash)
      then none
      else some u

  unfoldable pub login :
      Draw → String → String → Option String → Option String → Exec Accounts (User × TokenPair)
  unfolding issue_pair get_by_email put_user
  login draw email password user_agent ip_address = do
    found ← gets (λ d. get_by_email (unicode.lower (unicode.lower email)) d.users)
    user ← or_raise (may_log_in password found) invalid_credentials
    let user' : User = record user { last_login_at = some draw.now }
    modify (λ d. record d { users = put_user user' d.users })
    tokens ← issue_pair draw user' draw.family_id user_agent ip_address
    commit
    pure (user', tokens)

  abbrev pub of_family : ℕ → Option RefreshToken → Option RefreshToken
  of_family f none = none
  of_family f (some t) = if t.family_id == f then some t else none

  abbrev active_user : Option User → Option User
  active_user none = none
  active_user (some u) = if is_active u.status then some u else none

  -- A token that was used before: its whole family is revoked, and that is committed.
  unfoldable pub punish_reuse : Draw → RefreshToken → Exec Accounts TokenPair
  unfolding revoke_family
  punish_reuse draw stored = do
    modify (λ d. record d { tokens = revoke_family stored.family_id draw.now d.tokens })
    commit
    raise refresh_token_reuse

  unfoldable pub rotate :
      Draw → RefreshToken → Option String → Option String → Exec Accounts TokenPair
  unfolding build_pair get_by_id put_token
  rotate draw stored user_agent ip_address = do
    raise_if (leb stored.expires_at draw.now) bad_token
    user ← or_raise (active_user (← gets (λ d. get_by_id stored.user_id d.users))) bad_token
    made ← build_pair draw user stored.family_id user_agent ip_address
    let spent : RefreshToken = record stored {
      revoked_at = some draw.now;
      replaced_by_id = some made.1.id;
    }
    modify (λ d. record d { tokens = put_token spent d.tokens })
    commit
    pure made.0

  unfoldable pub refresh : Draw → String → Option String → Option String → Exec Accounts TokenPair
  unfolding decode_token hash_token_identifier get_by_hash punish_reuse rotate
  refresh draw token user_agent ip_address = do
    payload ← lift (decode_token c draw.now token "refresh")
    found ← gets (λ d. get_by_hash (hash_token_identifier c payload.jti) d.tokens)
    family ← or_raise payload.family unexpected
    stored ← or_raise (of_family family found) bad_token
    if is_some stored.revoked_at || is_some stored.replaced_by_id
        then punish_reuse draw stored
        else rotate draw stored user_agent ip_address

  abbrev revoke_found : Draw → Option RefreshToken → Exec Accounts Unit
  revoke_found draw none = pure tt
  revoke_found draw (some t) = if is_some t.revoked_at then pure tt else do
    modify (λ d. record d { tokens = put_token (record t { revoked_at = some draw.now }) d.tokens })
    commit

  unfoldable pub logout : Draw → String → Exec Accounts Unit
  unfolding decode_token hash_token_identifier get_by_hash put_token
  logout draw token = do
    payload ← lift (decode_token c draw.now token "refresh")
    found ← gets (λ d. get_by_hash (hash_token_identifier c payload.jti) d.tokens)
    revoke_found draw found
