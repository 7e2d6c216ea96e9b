-- ===== src/User/Login.antt =====
-- Who is logged in.
use laburi_to.Base.{
  ℕ, ℤ, String, ◌≡◌, refl, sym, ap, ◌∙◌, subst, Bool, true, false, ◌&&◌, Option, none, some, find,
  any, any-append_last, ◌==◌, int_eq, string_eq, int_beq_iff, eq_iff, Bool-cases, inl, inr,
  if◌then◌else◌,
}
use laburi_to.Errors.{GoError, Result, ok, err, sentinel, invalid_credentials, invalid_user_role}
use laburi_to.Database.Schema.{UserRow, RefreshTokenRow, Tables}
use laburi_to.Database.Connection.{
  Connection, M, Keeps-pure, call, called, pure, raise, on_error, of_result, translated, continue,
  ◌>>=◌,
}
use laburi_to.Database.Users.{has_email, get_user_by_email, create_refresh_token, stored_token}
use laburi_to.Database.Tokens.{unrevoked}
use laburi_to.Database.Triples.{Triple}
use laburi_to.Database.Outcomes.{
  OnOk, OnOk-of, OnOk-call, OnOk-bind, OnOk-Keeps, OnOk-pure, OnOk-any,
}
use laburi_to.Recommendation.Owners.{the_row-ok, called-ok}
use laburi_to.Recommendation.Service.{role_valid}
use laburi_to.Recommendation.Service.Access.{first_ok}
use laburi_to.Auth.{AccessTokenClaims}
use laburi_to.User.Repo.{
  LoginRes, login_res, role_from, find_by_email, save_refresh_token, refresh_token_row,
}
use laburi_to.User.Service.{Session, hide_account, grant, login}

-- A computation that succeeds is, from there on, its second part.
succeeded :
    {A B : Type 0} (m : M A) (k : A → M B) (c : Connection) (b : B)
    → ((m >>= k) c).0 ≡ ok b
    → (a : A) × ((m c).0 ≡ ok a) × ((m >>= k) c ≡ k a (m c).1)
unfolding ◌>>=◌
succeeded m k c b h = continued (m c) h
  where
    continued :
        (s : Result _ × Connection)
        → (continue k s).0 ≡ ok b
        → (a : _) × (s.0 ≡ ok a) × (continue k s ≡ k a s.1)
    continued (ok a, c') e = (a, refl, refl)
    continued (err _, c') e = cc

translated_ok :
    {A : Type 0} (f : GoError → GoError) (r : Result A × Connection) (a : A)
    → (translated f r).0 ≡ ok a
    → r.0 ≡ ok a
translated_ok f (ok b, c) a h = h
translated_ok f (err e, c) a h = cc

on_error_ok :
    {A : Type 0} (f : GoError → GoError) (m : M A) (c : Connection) (a : A)
    → (on_error f m c).0 ≡ ok a
    → (m c).0 ≡ ok a
unfolding on_error
on_error_ok f m c a h = translated_ok f (m c) a h

result_ok :
    {A : Type 0} (f : GoError → GoError) (r : Result A) (c : Connection) (a : A)
    → (on_error f (of_result r) c).0 ≡ ok a
    → r ≡ ok a
unfolding of_result
result_ok f r c a h = on_error_ok f (of_result r) c a h

admitted :
    (row : UserRow) (user : LoginRes) (c : Connection)
    → ((if role_valid (role_from row.role)
          then pure (login_res row)
          else raise (sentinel invalid_user_role))
        c).0
      ≡ ok user
    → (login_res row ≡ user) × (role_valid user.role ≡ true)
unfolding pure raise login_res
admitted row user c h = elim (Bool-cases (role_valid (role_from row.role))) [
  | inl v ↦
      (let made : login_res row ≡ user = (let k = rw v at h in cc) in
        (made, subst (λ u. role_valid u.role ≡ true) made v))
  | inr v ↦ cc
]

found :
    (email : String) (c : Connection) (user : LoginRes)
    → (find_by_email email c).0 ≡ ok user
    → (row : UserRow) × (find (has_email email) c.tables.users ≡ some row)
      × (login_res row ≡ user)
      × (role_valid user.role ≡ true)
unfolding find_by_email get_user_by_email call login_res
found email c user h =
    let (row, read, last) = first_ok _ _ c user h in
    let same = the_row-ok (find (has_email email) c.tables.users) row (
      called-ok (λ e. e) (get_user_by_email email) c.tables c.faults row
        (unchanged (called (get_user_by_email email) c.tables c.faults) row read)) in
    let (made, valid) = admitted row user _ last in (row, same, made, valid)
  where
    unchanged :
        (r : Result UserRow × Connection) (a : UserRow)
        → r.0 ≡ ok a
        → (translated (λ e. e) r).0 ≡ ok a
    unchanged (ok b, c') a e = e
    unchanged (err e', c') a e = cc

-- A session whose refresh token is stored for its user, and is not revoked.
abbrev pub IsStored : Session → Tables → Type 0
IsStored session t =
    any (λ r. r.token == session.refresh_token && r.user_id == session.user_id && unrevoked r)
      t.refresh_tokens
    ≡ true

stored_token-any :
    (o : Option String) (row : RefreshTokenRow) (t : Tables) (p : RefreshTokenRow → Bool)
    → p row ≡ true
    → OnOk
        (λ _ t'. any p t'.refresh_tokens ≡ true)
        (stored_token o row t).0
        (stored_token o row t).1
unfolding stored_token
stored_token-any (some state) row t p h = tt
stored_token-any none row t p h = any-append_last p t.refresh_tokens row h

names_itself : (s : String) (i : ℤ) → s == s && i == i && true ≡ true
names_itself s i =
    let text : s == s ≡ true = (eq_iff s s).1 refl in
    let number : i == i ≡ true = (int_beq_iff i i).1 refl in rw (text, number) refl

module _ (compare : String → String → Result Bool)
    (sign : AccessTokenClaims → String → Result String) (numeric_date : ℕ → ℕ) (itoa : ℤ → String)
    (secret_key fresh : String) (now : ℕ) where
  grant-IsStored :
      (user : LoginRes)
      → Triple
          (λ t. Unit {0})
          (grant compare sign numeric_date itoa secret_key fresh now user)
          (OnOk (λ session t.
            (session.user_id ≡ user.id) × (session.role ≡ user.role) × IsStored session t))
  unfolding grant save_refresh_token create_refresh_token refresh_token_row
  grant-IsStored user =
      let Any = λ (t : Tables). Unit {0} in
      let Saved = λ (token : String) (t : Tables).
        any (λ (r : RefreshTokenRow). r.token == token && r.user_id == user.id && unrevoked r)
          t.refresh_tokens
        ≡ true in
      let Post = λ (session : Session) (t : Tables).
        (session.user_id ≡ user.id) × (session.role ≡ user.role) × IsStored session t in
      OnOk-bind Any (λ _ _. Unit {0}) Post _ _ (OnOk-any Any _)
        (λ grants.
          OnOk-bind (λ t. Unit {0}) (λ _. Saved grants.refresh_token) Post _ _
            (OnOk-bind Any (λ _. Saved grants.refresh_token) (λ _. Saved grants.refresh_token) _ _
              (OnOk-call Any (λ _. Saved grants.refresh_token) _
                (λ t _.
                  stored_token-any _ _ t
                    (λ r. r.token == grants.refresh_token && r.user_id == user.id && unrevoked r)
                    (names_itself grants.refresh_token user.id)))
              (λ row.
                OnOk-Keeps (Saved grants.refresh_token) _
                  (Keeps-pure (Saved grants.refresh_token) tt)))
            (λ _. OnOk-pure (Saved grants.refresh_token) Post _ (λ t saved. (refl, refl, saved))))

  granted :
      (user : LoginRes) (c : Connection) (session : Session) (r : Result Session × Connection)
      → r ≡ grant compare sign numeric_date itoa secret_key fresh now user c
      → r.0 ≡ ok session
      → (session.user_id ≡ user.id) × (session.role ≡ user.role) × IsStored session r.1.tables
  granted user c session r e h =
      let Post =
        λ (s : Session) (t : Tables). (s.user_id ≡ user.id) × (s.role ≡ user.role) × IsStored s t in
      OnOk-of Post r.0 r.1.tables session
        (subst (λ (x : Result Session × Connection). OnOk Post x.0 x.1.tables) (sym e)
          ((grant-IsStored user).at c tt))
        h

  matched :
      (match : Bool) (user : LoginRes) (c : Connection) (session : Session)
      (r : Result Session × Connection)
      → r
        ≡ (if match
              then grant compare sign numeric_date itoa secret_key fresh now user
              else raise (sentinel invalid_credentials))
            c
      → r.0 ≡ ok session
      → (match ≡ true) × (r ≡ grant compare sign numeric_date itoa secret_key fresh now user c)
  unfolding raise
  matched true user c session r e h = (refl, e)
  matched false user c session r e h =
      let refused : err (sentinel invalid_credentials) ≡ ok session = sym (ap (λ x. x.0) e) ∙ h in
      cc

  -- A login that succeeds is of the account with that e-mail address and with a valid role, against
  -- whose hash the password is accepted; the session is of its user and its role, and its refresh token
  -- is stored for that user, not revoked.
  pub login-authenticated :
      (email password : String) (c : Connection) (session : Session)
      → (login compare sign numeric_date itoa secret_key fresh now email password c).0 ≡ ok session
      → (row : UserRow) × (find (has_email email) c.tables.users ≡ some row)
        × (compare password row.hashed_password ≡ ok true)
        × (session.user_id ≡ row.id)
        × (session.role ≡ role_from row.role)
        × (role_valid session.role ≡ true)
        × IsStored session
            (login compare sign numeric_date itoa secret_key fresh now email password c).1.tables
  unfolding login login_res
  login-authenticated email password c session h =
      let (user, read, first) = succeeded _ _ c session h in
      let (row, same, made, valid) = found email c user (on_error_ok hide_account _ c user read) in
      let (match, agreed, second) = succeeded _ _ _ session (sym (ap (λ r. r.0) first) ∙ h) in
      let (right, last) = matched match user _ session _ (first ∙ second) h in
      let (same_user, same_role, stored) = granted user _ session _ last h in
      let accepted =
        result_ok _ (compare password user.hashed_password) _ match agreed ∙ ap ok right in
      (
        row,
        same,
        subst (λ u. compare password u.hashed_password ≡ ok true) (sym made) accepted,
        same_user ∙ sym (ap (λ u. u.id) made),
        same_role ∙ sym (ap (λ u. u.role) made),
        ap role_valid same_role ∙ valid,
        stored,
      )
