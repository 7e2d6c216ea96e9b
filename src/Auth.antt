-- ===== src/Auth.antt =====
-- internal/auth: the tokens of a session. `sign` and `parse` are jwt.NewWithClaims with SignedString and
-- jwt.ParseWithClaims, the latter with the check of the issuer and of the times; `numeric_date` is the
-- precision of jwt.NewNumericDate; `itoa` and `parse_int` are strconv.Itoa and strconv.ParseInt at 32
-- bits. Times are numbers of nanoseconds, and one handler reads the clock once.
pub mod RoundTrip
use laburi_to.Base.{ℕ, ℤ, String, Bool, not, ◌+◌, if◌then◌else◌}
use laburi_to.Errors.{Result, ok, err, sentinel, invalid_token, ◌>>=◌}
use laburi_to.Recommendation.Service.{UserRole, role_valid, Principal}

-- accessTokenClaims
pub record AccessTokenClaims : Type 0 where
  pub role : UserRole
  pub issuer : String
  pub issued_at : ℕ
  pub expires_at : ℕ
  pub subject : String

-- TokenTypeAccess
abbrev pub token_type_access : String
token_type_access = "chirpy-access"

-- 30 * time.Minute, and 60 days
abbrev pub access_token_expiration_time : ℕ
access_token_expiration_time = 1800000000000

abbrev pub refresh_token_lifetime : ℕ
refresh_token_lifetime = 5184000000000000

pub record Grants : Type 0 where
  pub token : String
  pub refresh_token : String
  pub refresh_token_expiration : ℕ

module _ (sign : AccessTokenClaims → String → Result String) (numeric_date : ℕ → ℕ)
    (itoa : ℤ → String) where
  unfoldable pub make_jwt : ℤ → UserRole → String → ℕ → ℕ → Result String
  make_jwt user_id role token_secret now expires_in =
      if role_valid role
      then sign
          (record {
            role = role;
            issuer = token_type_access;
            issued_at = numeric_date now;
            expires_at = numeric_date (now + expires_in);
            subject = itoa user_id;
          })
          token_secret
      else err (sentinel invalid_token)

  -- `fresh` is the random value of MakeRefreshToken.
  unfoldable pub generate_grants : ℤ → UserRole → String → String → ℕ → Result Grants
  unfolding make_jwt
  generate_grants user_id role secret_key fresh now = do
    token ← make_jwt user_id role secret_key now access_token_expiration_time
    ok (record {
      token = token;
      refresh_token = fresh;
      refresh_token_expiration = now + refresh_token_lifetime;
    })

module _ (parse : String → String → Result AccessTokenClaims) (parse_int : String → Result ℤ) where
  -- The checks of the claims that were parsed.
  unfoldable pub principal_of : AccessTokenClaims → Result Principal
  principal_of claims =
      if role_valid claims.role
      then (do
        user_id ← parse_int claims.subject
        ok (record { user_id = user_id; role = claims.role }))
      else err (sentinel invalid_token)

  unfoldable pub validate_jwt : String → String → Result Principal
  unfolding principal_of
  validate_jwt token_string token_secret = do
    claims ← parse token_string token_secret
    principal_of claims
