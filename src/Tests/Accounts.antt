-- ===== src/Tests/Accounts.antt =====
-- Accounts and tokens at concrete inputs.
use laburi_to.Base.{
  count, ◌≤◌, int_beq, nat_beq_iff, ◌<◌, ◌&&◌, nat_eq, sym, ap, eq_iff, Bool-cases, ℤ, pos, String,
  ◌≡◌, refl, Bool, true, false, some, [], ◌∷◌, find, any, inl, inr, ◌==◌, int_eq, string_eq,
  if◌then◌else◌, arith,
}
use laburi_to.Errors.{Result, ok, err, sentinel, foreign, invalid_credentials, invalid_token}
use laburi_to.Database.Schema.{UserRow, Tables}
use laburi_to.Database.Users.{has_email}
use laburi_to.Database.Total.{calm}
use laburi_to.Recommendation.Service.{UserRole, role_employee, role_employer, other, role_valid}
use laburi_to.Auth.{AccessTokenClaims, make_jwt, validate_jwt, token_type_access}
use laburi_to.Auth.RoundTrip.{validate-make_jwt}
use laburi_to.User.Repo.{role_from}
use laburi_to.User.Service.{Session, login}
use laburi_to.User.Denied.{login-denied}
use laburi_to.User.Login.{IsStored, login-authenticated}
use laburi_to.Database.Connection.{of_result, call, called, answered, pure, ◌>>=◌}
use laburi_to.Database.Users.{create_user, user_refusal, stored_user, new_user}
use laburi_to.User.Repo.{CreateUserReq, save, role_text}
use laburi_to.User.Service.{save_user}
use laburi_to.User.Registered.{login-save_user}
use laburi_to.User.Unique.{HasUniqueEmails, save_user-HasUniqueEmails}
use laburi_to.Tests.{acme_account, ana_account, tables_with, waiting}

-- A comparison that accepts the password "secret" for the hash "h-70".
abbrev compared : String → String → Result Bool
compared password hash =
    if hash == "h-70" then ok (password == "secret") else err (foreign "not a hash")

-- One signed token, for an employee with identifier 70.
abbrev claims : AccessTokenClaims
claims = record {
  role = role_employee;
  issuer = token_type_access;
  issued_at = 1000;
  expires_at = 1800000001000;
  subject = "70";
}

is_employee : UserRole → Bool
is_employee role_employee = true
is_employee role_employer = false
is_employee (other text) = false

is_employee_lem : (role : UserRole) → is_employee role ≡ true → role ≡ role_employee
unfolding is_employee
is_employee_lem role_employee h = refl
is_employee_lem role_employer h = cc
is_employee_lem (other text) h = cc

abbrev is_claims : AccessTokenClaims → Bool
is_claims c =
    is_employee c.role
    && c.issuer == claims.issuer
    && c.issued_at == claims.issued_at
    && c.expires_at == claims.expires_at
    && c.subject == claims.subject

is_claims_lem : (c : AccessTokenClaims) → is_claims c ≡ true → claims ≡ c
is_claims_lem c h =
    let (role, issuer, issued, expires, subject) : (is_employee c.role ≡ true)
        × (c.issuer == claims.issuer ≡ true)
        × (c.issued_at == claims.issued_at ≡ true)
        × (c.expires_at == claims.expires_at ≡ true)
        × (c.subject == claims.subject ≡ true) =
      ground arith in
    let e1 = is_employee_lem c.role role in
    let e2 : c.issuer ≡ claims.issuer = (eq_iff _ _).0 issuer in
    let e3 : c.issued_at ≡ claims.issued_at = (nat_beq_iff _ _).0 issued in
    let e4 : c.expires_at ≡ claims.expires_at = (nat_beq_iff _ _).0 expires in
    let e5 : c.subject ≡ claims.subject = (eq_iff _ _).0 subject in cc

-- The only claims that are signed are those above.
abbrev signed : AccessTokenClaims → String → Result String
signed c secret = if is_claims c then ok "token-70" else err (foreign "not signed")

abbrev parsed : String → String → Result AccessTokenClaims
parsed token secret = if token == "token-70" then ok claims else err (foreign "not a token")

abbrev shown : ℤ → String
shown i = if i == pos 70 then "70" else "another"

abbrev read : String → Result ℤ
read text = if text == "70" then ok (pos 70) else err (foreign "not a number")

signed-parsed :
    (c : AccessTokenClaims) (t : String)
    → c.issuer ≡ token_type_access
    → 5000 < c.expires_at
    → signed c "s" ≡ ok t
    → parsed t "s" ≡ ok c
signed-parsed c t i e h = elim (Bool-cases (is_claims c)) [
  | inl same ↦
      (let token : "token-70" ≡ t = (let k = rw same at h in cc) in
        rw (sym token) (ap ok (is_claims_lem c same)))
  | inr differs ↦ (let k = rw differs at h in cc)
]

validate-make_jwt_example :
    validate_jwt parsed read "token-70" "s" ≡ ok (record { user_id = pos 70; role = role_employee })
unfolding make_jwt role_valid is_employee int_beq
validate-make_jwt_example =
    validate-make_jwt signed parsed (λ n. n) shown read (pos 70) role_employee "s" "token-70" 1000
      1800000000000 5000 signed-parsed refl (omega arith) refl

abbrev ana_session : Session
ana_session = record {
  user_id = pos 70;
  role = role_employee;
  token = "token-70";
  refresh_token = "r-1";
}

login-authenticated_example :
    (row : UserRow) × (find (has_email "ana@example.com") (tables_with waiting).users ≡ some row)
    × (compared "secret" row.hashed_password ≡ ok true)
    × (pos 70 ≡ row.id)
    × (role_employee ≡ role_from row.role)
    × (role_valid role_employee ≡ true)
    × IsStored ana_session
        (login compared signed
          (λ n. n)
          shown
          "s"
          "r-1"
          1000
          "ana@example.com"
          "secret"
          (calm (tables_with waiting))).1.tables
unfolding login laburi_to.Database.Connection.◌>>=◌ laburi_to.Database.Connection.on_error
    laburi_to.User.Repo.find_by_email laburi_to.Database.Connection.call
    laburi_to.Database.Users.get_user_by_email laburi_to.Database.Batches.the_row find role_valid
    laburi_to.Database.Connection.pure laburi_to.Database.Connection.of_result
    laburi_to.Auth.generate_grants is_employee int_beq laburi_to.User.Repo.save_refresh_token
    laburi_to.Database.Users.create_refresh_token any make_jwt
    laburi_to.Database.Connection.answered laburi_to.Database.Connection.called
    laburi_to.Database.Connection.raise has_email laburi_to.Database.Users.stored_token
    laburi_to.Database.Users.token_refusal laburi_to.Errors.is laburi_to.User.Repo.login_res
    laburi_to.User.Repo.refresh_token_row role_from laburi_to.User.Service.grant
    laburi_to.User.Service.hide_account
login-authenticated_example =
    login-authenticated compared signed (λ n. n) shown "s" "r-1" 1000 "ana@example.com" "secret"
      (calm (tables_with waiting)) ana_session refl

login-denied_example :
    login compared signed
      (λ n. n)
      shown
      "s"
      "r-1"
      1000
      "ana@example.com"
      "guess"
      (calm (tables_with waiting))
    ≡ (err (sentinel invalid_credentials), calm (tables_with waiting))
unfolding find has_email role_valid role_from
login-denied_example =
    login-denied compared signed (λ n. n) shown "s" "r-1" 1000 "ana@example.com" "guess"
      (tables_with waiting) (inr (ana_account, refl, refl, refl))

-- A registration of an employee, whose hash is "h-70".
abbrev hashed : String → Result String
hashed password = ok "h-70"

abbrev eva : CreateUserReq
eva = record { email = "eva@example.com"; password = "secret"; role = role_employee }

-- The tables of a database whose next user has identifier 70.
abbrev before_eva : Tables
before_eva = record (tables_with waiting) { users = acme_account ∷ []; next_user_id = 70 }

login-save_user_example :
    (login compared signed
      (λ n. n)
      shown
      "s"
      "r-1"
      1000
      "eva@example.com"
      "secret"
      (calm (save_user hashed eva (calm before_eva)).1.tables)).0
    ≡ ok ana_session
unfolding make_jwt role_valid is_employee int_beq any save_user save of_result call called answered
    pure ◌>>=◌ create_user user_refusal stored_user new_user role_text has_email
login-save_user_example =
    login-save_user compared signed (λ n. n) shown "s" "r-1" 1000 hashed eva "token-70"
      (calm before_eva) tt (λ hash e. rw (sym (hash_of hash e)) refl) refl refl refl
  where
    hash_of : (hash : String) → hashed "secret" ≡ ok hash → "h-70" ≡ hash
    hash_of hash e = cc

one_account : (email : String) → count (has_email email) (acme_account ∷ []) ≤ 1
unfolding count
one_account email = ground arith

save_user-HasUniqueEmails_example :
    HasUniqueEmails (save_user hashed eva (calm before_eva)).1.tables
save_user-HasUniqueEmails_example =
    save_user-HasUniqueEmails hashed eva (calm before_eva) one_account
