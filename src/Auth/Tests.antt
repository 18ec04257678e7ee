-- ===== src/Auth/Tests.antt =====
-- Runs of services/auth.py on a small store.
use hotel_server_v.Base.{
  arith, ℕ, String, ◌≡◌, refl, true, false, none, some, [], ◌∷◌, ◌⊎◌, ◌==◌, string_eq, nat_eq,
}
use hotel_server_v.Base.Exec.{err, request}
use hotel_server_v.Base.Text.{Unicode}
use hotel_server_v.Errors.{
  status_code, integrity, refresh_token_reuse, email_already_exists, invalid_credentials,
}
use hotel_server_v.Auth.Store.{User, UserStatus, UserRole, RefreshToken, Accounts}
use hotel_server_v.Auth.Security.{Crypto, JwtConfig, Claims, Draw}
use hotel_server_v.Auth.Service.{RegisterRequest, register, login, refresh, bad_token}
use hotel_server_v.Auth.Refusals.{register-refusal, login-refusal, IsRefusal, refresh-IsRefusal}
use hotel_server_v.Auth.Rotation.Rows.{live_count}
use hotel_server_v.Auth.Rotation.OneLive.{IsValid}
use hotel_server_v.Auth.Rotation.Reach.{refreshed, here, next, Reach-IsValid}
use hotel_server_v.Auth.Rotation.Replay.{refresh-refresh}

-- A token is its identifier, and every token is one of family 7.
abbrev claims : String → Claims
claims jti = record {
  sub = 1;
  type = "refresh";
  jti = jti;
  role = none;
  family = some 7;
  iat = 0;
  nbf = 0;
  exp = 900;
  iss = "i";
  aud = "a";
}

abbrev crypto : Crypto
crypto = record {
  encode = λ p. p.jti;
  decode = λ now token. some (claims token);
  sha256 = λ s. s;
  hash = λ s. s;
  verify = λ h p. h == p;
}

abbrev config : JwtConfig
config = record { access_token_minutes = 15; refresh_token_days = 30; issuer = "i"; audience = "a" }

abbrev unicode : Unicode
unicode = record { fold = λ c. ""; alnum = λ c. true; lower = λ s. s }

-- The draw of the n-th request.
abbrev draw : ℕ → String → ℕ → Draw
draw now jti family = record {
  now = now;
  user_id = 1;
  family_id = family;
  token_id = now;
  access_jti = "x";
  refresh_jti = jti;
}

abbrev request_of : RegisterRequest
request_of = record {
  email = "a@b.c";
  phone = none;
  first_name = "A";
  last_name = "B";
  password = "secret";
}

abbrev empty : Accounts
empty = record { users = []; tokens = [] }

abbrev token_row : RefreshToken
token_row = record {
  id = 1;
  user_id = 1;
  family_id = 7;
  token_hash = "t1";
  expires_at = 2592001;
  revoked_at = none;
  replaced_by_id = none;
  user_agent = none;
  ip_address = none;
}

abbrev member : User
member = record {
  id = 1;
  email = "a@b.c";
  phone = none;
  first_name = "A";
  last_name = "B";
  password_hash = "secret";
  status = UserStatus.active;
  role = UserRole.user;
  onboarding_completed = false;
  onboarding_skipped_at = none;
  last_login_at = none;
  deleted_at = none;
}

-- One member with one live token.
abbrev one_token : Accounts
one_token = record { users = member ∷ []; tokens = token_row ∷ [] }

one_token-IsValid : IsValid one_token
one_token-IsValid = record { keyed = (refl, tt); one_live = λ f. ground arith }

-- The member rotates the token and presents it again.
abbrev rotated : Accounts
rotated = (request (refresh crypto config unicode (draw 2 "t2" 8) "t1" none none) one_token).1

abbrev replayed : Accounts
replayed = (request (refresh crypto config unicode (draw 3 "t3" 9) "t1" none none) rotated).1

refresh-refresh_example :
    let (r, d) = request (refresh crypto config unicode (draw 3 "t3" 9) "t1" none none) rotated in
    (r ≡ err refresh_token_reuse) × (live_count 7 d.tokens ≡ 0)
unfolding refresh
refresh-refresh_example =
    refresh-refresh crypto config unicode none none (draw 2 "t2" 8) (draw 3 "t3" 9) "t1"
      (claims "t1") 7 7 (record { access_token = "x"; refresh_token = "t2"; expires_in = 900 })
      one_token refl refl refl (refl, tt) refl refl

Reach-IsValid_example : IsValid replayed
unfolding refresh
Reach-IsValid_example =
    Reach-IsValid crypto config unicode
      (next
        (next here
          (refreshed (draw 2 "t2" 8) "t1" none none (record { new_id = refl; new_family = refl })))
        (refreshed (draw 3 "t3" 9) "t1" none none (record { new_id = refl; new_family = refl })))
      one_token-IsValid

register-refusal_example :
    (status_code email_already_exists ≡ 409)
    × ((request (register crypto config unicode (draw 2 "t2" 8) request_of none none) one_token).1
        ≡ one_token)
unfolding register
register-refusal_example =
    register-refusal crypto config unicode (draw 2 "t2" 8) request_of none none one_token
      email_already_exists refl

login-refusal_example :
    ((status_code invalid_credentials ≡ 401) ⊎ (invalid_credentials ≡ integrity))
    × ((request (login crypto config unicode (draw 2 "t2" 8) "a@b.c" "wrong" none none) one_token).1
        ≡ one_token)
unfolding login
login-refusal_example =
    login-refusal crypto config unicode (draw 2 "t2" 8) "a@b.c" "wrong" none none one_token
      invalid_credentials refl

refresh-IsRefusal_example :
    IsRefusal crypto (draw 2 "t2" 8) "other" bad_token
    × ((bad_token ≡ refresh_token_reuse)
        ⊎ ((request (refresh crypto config unicode (draw 2 "t2" 8) "other" none none) one_token).1
            ≡ one_token))
unfolding refresh
refresh-IsRefusal_example =
    refresh-IsRefusal crypto config unicode (draw 2 "t2" 8) "other" none none one_token bad_token
      refl
