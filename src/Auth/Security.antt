-- ===== src/Auth/Security.antt =====
-- common/security.py. PyJWT, Argon2 and SHA-256 are the record `Crypto`; the random identifiers and
-- the clock of a call are the record `Draw`.
use hotel_server_v.Base.{
  ℕ, String, ◌+◌, ◌*◌, Bool, Option, none, some, ◌==◌, nat_eq, string_eq, if◌then◌else◌,
}
use hotel_server_v.Base.Exec.{Result, ok, err}
use hotel_server_v.Errors.{invalid_token}

pub record JwtConfig : Type 0 where
  pub access_token_minutes : ℕ
  pub refresh_token_days : ℕ
  pub issuer : String
  pub audience : String

-- The claims of a token; `role` and `family` are those of one of the two kinds. A `family` that is
-- missing or no UUID is `none`.
pub record Claims : Type 0 where
  pub sub : ℕ
  pub type : String
  pub jti : String
  pub role : Option String
  pub family : Option ℕ
  pub iat : ℕ
  pub nbf : ℕ
  pub exp : ℕ
  pub iss : String
  pub aud : String

pub record Crypto : Type 0 where
  pub encode : Claims → String
  -- `jwt.decode` at a time: signature, expiry, issuer, audience and required claims
  pub decode : ℕ → String → Option Claims
  pub sha256 : String → String
  pub hash : String → String
  -- `PasswordHasher.verify hash password`; an exception is `false`
  pub verify : String → String → Bool

-- What one call draws: the time and fresh identifiers.
pub record Draw : Type 0 where
  pub now : ℕ
  pub user_id : ℕ
  pub family_id : ℕ
  pub token_id : ℕ
  pub access_jti : String
  pub refresh_jti : String

abbrev pub hash_password : Crypto → String → String
hash_password c password = c.hash password

abbrev pub verify_password : Crypto → String → String → Bool
verify_password c password password_hash = c.verify password_hash password

unfoldable pub hash_token_identifier : Crypto → String → String
hash_token_identifier c identifier = c.sha256 identifier

unfoldable pub create_access_token : Crypto → JwtConfig → Draw → ℕ → String → String
create_access_token c config draw user_id role = c.encode (record {
  sub = user_id;
  type = "access";
  jti = draw.access_jti;
  role = some role;
  family = none;
  iat = draw.now;
  nbf = draw.now;
  exp = draw.now + config.access_token_minutes * 60;
  iss = config.issuer;
  aud = config.audience;
})

-- The token, its raw identifier and its expiry.
unfoldable pub create_refresh_token : Crypto → JwtConfig → Draw → ℕ → ℕ → String × String × ℕ
create_refresh_token c config draw user_id family_id =
    let expires_at = draw.now + config.refresh_token_days * 86400 in
    (
      c.encode (record {
        sub = user_id;
        type = "refresh";
        jti = draw.refresh_jti;
        role = none;
        family = some family_id;
        iat = draw.now;
        nbf = draw.now;
        exp = expires_at;
        iss = config.issuer;
        aud = config.audience;
      }),
      draw.refresh_jti,
      expires_at,
    )

abbrev of_type : String → Option Claims → Result Claims
of_type expected none = err (invalid_token "Authentication token is invalid or expired")
of_type expected (some p) =
    if p.type == expected then ok p else err (invalid_token "Unexpected token type")

unfoldable pub decode_token : Crypto → ℕ → String → String → Result Claims
decode_token c now token expected_type = of_type expected_type (c.decode now token)
