-- ===== src/Auth/RoundTrip.antt =====
-- A token that was made is validated.
use laburi_to.Base.{◌<◌, ◌+◌, ℕ, ℤ, String, ◌≡◌, refl, Bool-cases, inl, inr}
use laburi_to.Errors.{Result, ok}
use laburi_to.Recommendation.Service.{UserRole, role_valid}
use laburi_to.Auth.{AccessTokenClaims, make_jwt, token_type_access, principal_of, validate_jwt}

-- A token that MakeJWT returns for a user and a role is validated before it expires, with the same
-- secret, as the principal of that user and role: where a signed token of the issuer is parsed back
-- to its claims before it expires, and the text of the identifier to that identifier.
pub validate-make_jwt :
    (sign : AccessTokenClaims → String → Result String)
    (parse : String → String → Result AccessTokenClaims) (numeric_date : ℕ → ℕ) (itoa : ℤ → String)
    (parse_int : String → Result ℤ) (user_id : ℤ) (role : UserRole) (token_secret token : String)
    (now expires_in checked_at : ℕ)
    → ((claims : AccessTokenClaims) (t : String)
        → claims.issuer ≡ token_type_access
        → checked_at < claims.expires_at
        → sign claims token_secret ≡ ok t
        → parse t token_secret ≡ ok claims)
    → parse_int (itoa user_id) ≡ ok user_id
    → checked_at < numeric_date (now + expires_in)
    → make_jwt sign numeric_date itoa user_id role token_secret now expires_in ≡ ok token
    → validate_jwt parse parse_int token token_secret
      ≡ ok (record { user_id = user_id; role = role })
unfolding make_jwt validate_jwt principal_of
validate-make_jwt sign parse numeric_date itoa parse_int user_id role token_secret token now
      expires_in checked_at parsed read early h =
    elim (Bool-cases (role_valid role)) [
      | inl e ↦ (let back = parsed _ token refl early (rw e at h) in rw back (rw e (rw read refl)))
      | inr e ↦ cc
    ]
