-- ===== src/Database/Users.antt =====
-- The statements of sql/queries/users.sql, and CreateRefreshToken of refresh_token.sql, with the
-- constraints of sql/schema that they meet.
use laburi_to.Base.{
  ℤ, pos, String, Bool, ◌||◌, ◌+◌, Option, none, some, [], ◌∷◌, ◌++◌, ◌==◌, int_eq, string_eq, any,
  find, if◌then◌else◌,
}
use laburi_to.Errors.{Result, ok, err, pq_error}
use laburi_to.Database.Schema.{UserRow, RefreshTokenRow, Tables}
use laburi_to.Database.Connection.{Query}
use laburi_to.Database.Batches.{the_row}

pub record CreateUserParams : Type 0 where
  pub email : String
  pub hashed_password : String
  pub role : String

unfoldable pub has_email : String → UserRow → Bool
has_email email u = u.email == email

-- users_role_check, then the unique e-mail address of 0002_users.sql
unfoldable pub user_refusal : CreateUserParams → Tables → Option String
unfolding has_email
user_refusal arg t =
    if arg.role == "employee" || arg.role == "employer"
    then if any (has_email arg.email) t.users then some "23505" else none
    else some "23514"

unfoldable pub new_user : CreateUserParams → Tables → UserRow
new_user arg t = record {
  id = pos t.next_user_id;
  email = arg.email;
  hashed_password = arg.hashed_password;
  role = arg.role;
  created_at = t.now;
  updated_at = t.now;
}

unfoldable pub stored_user : Option String → UserRow → Tables → Result UserRow × Tables
stored_user (some state) row t = (err (pq_error state), t)
stored_user none row t = (ok row, record t { users = t.users ++ row ∷ [] })

-- CreateUser. The sequence advances also when the row is refused.
unfoldable pub create_user : CreateUserParams → Query UserRow
unfolding stored_user user_refusal new_user
create_user arg t =
    stored_user (user_refusal arg t) (new_user arg t)
      (record t { next_user_id = t.next_user_id + 1 })

-- GetUserByEmail
unfoldable pub get_user_by_email : String → Query UserRow
unfolding has_email
get_user_by_email email t = (the_row (find (has_email email) t.users), t)

-- GetUserByID
unfoldable pub get_user_by_id : ℤ → Query UserRow
get_user_by_id i t = (the_row (find (λ u. u.id == i) t.users), t)

unfoldable pub token_refusal : RefreshTokenRow → Tables → Option String
token_refusal row t =
    if any (λ r. r.token == row.token) t.refresh_tokens
    then some "23505"
    else if any (λ u. u.id == row.user_id) t.users
    then none
    else some "23503"

unfoldable pub stored_token :
    Option String → RefreshTokenRow → Tables → Result RefreshTokenRow × Tables
stored_token (some state) row t = (err (pq_error state), t)
stored_token none row t = (ok row, record t { refresh_tokens = t.refresh_tokens ++ row ∷ [] })

-- CreateRefreshToken, whose parameters are the columns
unfoldable pub create_refresh_token : RefreshTokenRow → Query RefreshTokenRow
unfolding stored_token token_refusal
create_refresh_token row t = stored_token (token_refusal row t) row t
