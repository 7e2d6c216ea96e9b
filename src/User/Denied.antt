-- ===== src/User/Denied.antt =====
-- When a login is answered as invalid credentials.
use laburi_to.Base.{ℕ, ℤ, String, ◌≡◌, refl, ◌⊎◌, inl, inr, Bool, true, false, none, some, find}
use laburi_to.Errors.{is, Result, ok, err, sentinel, invalid_credentials}
use laburi_to.Database.Schema.{UserRow, Tables}
use laburi_to.Database.Connection.{pure, raise, on_error, of_result, call, called, answered, ◌>>=◌}
use laburi_to.Database.Batches.{the_row}
use laburi_to.Database.Users.{has_email, get_user_by_email}
use laburi_to.Database.Total.{calm}
use laburi_to.Recommendation.Service.{role_valid}
use laburi_to.Auth.{AccessTokenClaims}
use laburi_to.User.Repo.{login_res, role_from, find_by_email}
use laburi_to.User.Service.{hide_account, login}

-- No account has the e-mail address, or the password is not the one of the account that has it.
abbrev pub IsRefused : (String → String → Result Bool) → String → String → Tables → Type 0
IsRefused compare email password t =
    (find (has_email email) t.users ≡ none)
    ⊎ ((row : UserRow) × (find (has_email email) t.users ≡ some row)
        × (role_valid (role_from row.role) ≡ true)
        × (compare password row.hashed_password ≡ ok false))

module _ (compare : String → String → Result Bool)
    (sign : AccessTokenClaims → String → Result String) (numeric_date : ℕ → ℕ) (itoa : ℤ → String)
    (secret_key fresh : String) (now : ℕ) where
  -- Where no call fails for an outside reason, an e-mail address without an account and a wrong
  -- password of an account of a valid role are answered by the same error, and nothing is stored.
  pub login-denied :
      (email password : String) (t : Tables)
      → IsRefused compare email password t
      → login compare sign numeric_date itoa secret_key fresh now email password (calm t)
        ≡ (err (sentinel invalid_credentials), calm t)
  unfolding login hide_account find_by_email get_user_by_email login_res call called answered pure
      raise on_error of_result ◌>>=◌ the_row is
  login-denied email password t (inl absent) = rw absent refl
  login-denied email password t (inr (row, present, valid, wrong)) = rw (present, valid, wrong) refl
