-- ===== src/User/Service.antt =====
-- internal/user/service.go over the repository. `create_hash` and `compare` are
-- argon2id.CreateHash and ComparePasswordAndHash, `sign` and `itoa` those of Auth, `fresh` the random
-- value of the refresh token and `now` the clock. ErrCouldNotGenerateToken carries the text of its
-- cause, which no code reads and the model leaves out.
use laburi_to.Base.{ℕ, ℤ, String, Bool, if◌then◌else◌}
use laburi_to.Errors.{
  GoError, Result, sentinel, foreign, is, no_rows, invalid_user_role, invalid_credentials,
  could_not_validate_user,
}
use laburi_to.Database.Connection.{M, pure, raise, on_error, of_result, ◌>>=◌, ◌>>◌}
use laburi_to.Recommendation.Service.{UserRole, role_valid}
use laburi_to.Auth.{AccessTokenClaims, generate_grants}
use laburi_to.User.Repo.{
  CreateUserReq, LoginRes, User, find_by_email, save, save_refresh_token, get_current_user,
}

unfoldable pub save_user : (String → Result String) → CreateUserReq → M (Unit {0})
save_user create_hash user =
    if role_valid user.role
    then (do
      hashed_password ← of_result (create_hash user.password)
      save (record user { password = hashed_password }))
    else raise (sentinel invalid_user_role)

-- An account that does not exist is answered as a wrong password.
unfoldable pub hide_account : GoError → GoError
hide_account e = if is e no_rows then sentinel invalid_credentials else e

-- The result of a login: the user, the role and the two tokens.
pub record Session : Type 0 where
  pub user_id : ℤ
  pub role : UserRole
  pub token : String
  pub refresh_token : String

module _ (compare : String → String → Result Bool)
    (sign : AccessTokenClaims → String → Result String) (numeric_date : ℕ → ℕ) (itoa : ℤ → String)
    (secret_key fresh : String) (now : ℕ) where
  unfoldable pub grant : LoginRes → M Session
  grant user = do
    grants ←
        on_error (λ e. foreign "could not generate token")
          (of_result
            (generate_grants sign numeric_date itoa user.id user.role secret_key fresh now))
    save_refresh_token now (record {
      token = grants.refresh_token;
      user_id = user.id;
      expires_at = grants.refresh_token_expiration;
    })
    pure (record {
      user_id = user.id;
      role = user.role;
      token = grants.token;
      refresh_token = grants.refresh_token;
    })

  unfoldable pub login : String → String → M Session
  unfolding grant hide_account
  login email password = do
    user ← on_error hide_account (find_by_email email)
    match ←
        on_error (λ e. sentinel could_not_validate_user)
          (of_result (compare password user.hashed_password))
    if match then grant user else raise (sentinel invalid_credentials)

-- GetCurrentUser of get_current_user.go
unfoldable pub current_user : ℤ → M User
current_user user_id = get_current_user user_id
