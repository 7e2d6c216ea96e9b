-- ===== src/User/Repo.antt =====
-- internal/user/repo.go, with the types of models.go that it reads and writes. Roles are stored as
-- their text.
use laburi_to.Base.{ℕ, ℤ, String, none, ◌==◌, string_eq, if◌then◌else◌}
use laburi_to.Errors.{sentinel, invalid_user_role}
use laburi_to.Database.Schema.{UserRow, RefreshTokenRow}
use laburi_to.Database.Connection.{M, call, pure, raise, ◌>>=◌, ◌>>◌}
use laburi_to.Database.Users.{create_user, get_user_by_email, get_user_by_id, create_refresh_token}
use laburi_to.Recommendation.Service.{UserRole, role_employee, role_employer, other, role_valid}

-- UserRole(text)
unfoldable pub role_from : String → UserRole
role_from text =
    if text == "employee"
    then role_employee
    else if text == "employer"
    then role_employer
    else other text

-- string(role)
unfoldable pub role_text : UserRole → String
role_text role_employee = "employee"
role_text role_employer = "employer"
role_text (other text) = text

pub record CreateUserReq : Type 0 where
  pub email : String
  pub password : String
  pub role : UserRole

pub record LoginRes : Type 0 where
  pub id : ℤ
  pub email : String
  pub hashed_password : String
  pub role : UserRole

pub record User : Type 0 where
  pub id : ℤ
  pub email : String
  pub role : UserRole

pub record SaveRefreshToken : Type 0 where
  pub token : String
  pub user_id : ℤ
  pub expires_at : ℕ

unfoldable pub save : CreateUserReq → M (Unit {0})
unfolding role_text
save user = do
  call (
      create_user (record {
        email = user.email;
        hashed_password = user.password;
        role = role_text user.role;
      }))
  pure tt

unfoldable pub login_res : UserRow → LoginRes
unfolding role_from
login_res row = record {
  id = row.id;
  email = row.email;
  hashed_password = row.hashed_password;
  role = role_from row.role;
}

unfoldable pub find_by_email : String → M LoginRes
unfolding login_res role_from
find_by_email email = do
  row ← call (get_user_by_email email)
  if role_valid (role_from row.role)
      then pure (login_res row)
      else raise (sentinel invalid_user_role)

unfoldable pub user_from_row : UserRow → User
unfolding role_from
user_from_row row = record { id = row.id; email = row.email; role = role_from row.role }

unfoldable pub get_current_user : ℤ → M User
unfolding user_from_row role_from
get_current_user user_id = do
  row ← call (get_user_by_id user_id)
  if role_valid (role_from row.role)
      then pure (user_from_row row)
      else raise (sentinel invalid_user_role)

-- `now` is time.Now(), and the columns are those that the statement writes.
unfoldable pub refresh_token_row : ℕ → SaveRefreshToken → RefreshTokenRow
refresh_token_row now token = record {
  token = token.token;
  created_at = now;
  updated_at = now;
  user_id = token.user_id;
  expires_at = token.expires_at;
  revoked_at = none;
}

unfoldable pub save_refresh_token : ℕ → SaveRefreshToken → M (Unit {0})
unfolding refresh_token_row
save_refresh_token now token = do call (create_refresh_token (refresh_token_row now token)); pure tt
