-- ===== src/Auth/Store.antt =====
-- The account tables (models/account.py) and their queries (repositories/users.py).
use hotel_server_v.Base.{
  ℕ, String, Bool, true, false, not, ◌&&◌, ◌||◌, Option, some, List, [], ◌∷◌, ◌++◌, ◌==◌, nat_eq,
  string_eq, if◌then◌else◌, find, any, is_some,
}
use hotel_server_v.Base.Exec.{Exec, raise_if, modify, gets, ◌>>=◌, ◌>>◌}
use hotel_server_v.Errors.{integrity}

pub data UserStatus : Type 0 where
  active suspended disabled : UserStatus

pub data UserRole : Type 0 where
  user data_operator admin : UserRole

pub record User : Type 0 where
  pub id : ℕ
  pub email : String
  pub phone : Option String
  pub first_name : String
  pub last_name : String
  pub password_hash : String
  pub status : UserStatus
  pub role : UserRole
  pub onboarding_completed : Bool
  pub onboarding_skipped_at : Option ℕ
  pub last_login_at : Option ℕ
  pub deleted_at : Option ℕ

pub record RefreshToken : Type 0 where
  pub id : ℕ
  pub user_id : ℕ
  pub family_id : ℕ
  pub token_hash : String
  pub expires_at : ℕ
  pub revoked_at : Option ℕ
  pub replaced_by_id : Option ℕ
  pub user_agent : Option String
  pub ip_address : Option String

pub record Accounts : Type 0 where
  pub users : List User
  pub tokens : List RefreshToken

abbrev pub is_active : UserStatus → Bool
is_active UserStatus.active = true
is_active _ = false

abbrev same_phone : Option String → Option String → Bool
same_phone (some a) (some b) = a == b
same_phone _ _ = false

unfoldable pub get_by_id : ℕ → List User → Option User
get_by_id user_id users = find (λ u. u.id == user_id && not (is_some u.deleted_at)) users

-- The caller passes the address through `lower`.
unfoldable pub get_by_email : String → List User → Option User
get_by_email email users = find (λ u. u.email == email && not (is_some u.deleted_at)) users

unfoldable pub get_by_phone : String → List User → Option User
get_by_phone phone users =
    find (λ u. same_phone u.phone (some phone) && not (is_some u.deleted_at)) users

-- The unique columns `email` and `phone`, which deleted rows keep too.
abbrev clashes : User → User → Bool
clashes new u = u.email == new.email || same_phone u.phone new.phone

unfoldable pub add_user : User → Exec Accounts Unit
add_user new = do
  raise_if (any (clashes new) (← gets (λ d. d.users))) integrity
  modify (λ d. record d { users = d.users ++ new ∷ [] })

-- Writes a row back under its primary key.
unfoldable pub put_user : User → List User → List User
put_user new [] = []
put_user new (u ∷ us) = if u.id == new.id then new ∷ us else u ∷ put_user new us

unfoldable pub get_by_hash : String → List RefreshToken → Option RefreshToken
get_by_hash h tokens = find (λ t. t.token_hash == h) tokens

-- `token_hash` is unique.
unfoldable pub add_token : RefreshToken → Exec Accounts Unit
add_token new = do
  raise_if (any (λ t. t.token_hash == new.token_hash) (← gets (λ d. d.tokens))) integrity
  modify (λ d. record d { tokens = d.tokens ++ new ∷ [] })

unfoldable pub put_token : RefreshToken → List RefreshToken → List RefreshToken
put_token new [] = []
put_token new (t ∷ ts) = if t.id == new.id then new ∷ ts else t ∷ put_token new ts

abbrev pub revoke_one : ℕ → ℕ → RefreshToken → RefreshToken
revoke_one family_id now t =
    if t.family_id == family_id && not (is_some t.revoked_at)
    then record t { revoked_at = some now }
    else t

unfoldable pub revoke_family : ℕ → ℕ → List RefreshToken → List RefreshToken
revoke_family family_id now [] = []
revoke_family family_id now (t ∷ ts) = revoke_one family_id now t ∷ revoke_family family_id now ts
