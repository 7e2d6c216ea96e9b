-- ===== src/User/Registered.antt =====
-- An account that was registered is logged in.
use laburi_to.Base.{
  any-append_last, find-append_last, ℕ, ℤ, pos, String, ◌≡◌, refl, sym, ap, subst, ◌∙◌, Bool, true,
  false, Bool-cases, inl, inr, Option, none, some, [], ◌∷◌, ◌++◌, ◌+◌, ◌==◌, string_eq, int_eq,
  int_beq_iff, eq_iff, any, find, arith,
}
use laburi_to.Errors.{Result, ok}
use laburi_to.Database.Schema.{UserRow, Tables}
use laburi_to.Database.Connection.{
  Connection, Keeps-of_result, Keeps-pure, call, called, answered, pure, raise, on_error, of_result,
  ◌>>=◌,
}
use laburi_to.Database.Batches.{the_row}
use laburi_to.Database.Users.{
  CreateUserParams, has_email, get_user_by_email, create_user, user_refusal, new_user, stored_user,
  create_refresh_token, stored_token, token_refusal,
}
use laburi_to.Database.Triples.{Triple}
use laburi_to.Database.Outcomes.{
  OnOk, OnOk-of, OnOk-call, OnOk-bind, OnOk-Keeps, OnOk-raise, OnOk-known,
}
use laburi_to.Database.Total.{calm}
use laburi_to.Recommendation.Service.{UserRole, role_employee, role_employer, other, role_valid}
use laburi_to.Auth.{AccessTokenClaims, make_jwt, generate_grants, access_token_expiration_time}
use laburi_to.User.Repo.{
  CreateUserReq, login_res, role_from, role_text, find_by_email, save, save_refresh_token,
  refresh_token_row,
}
use laburi_to.User.Service.{save_user, grant, login}

abbrev columns : CreateUserReq → String → CreateUserParams
columns request hash = record {
  email = request.email;
  hashed_password = hash;
  role = role_text request.role;
}

-- What a registration leaves.
abbrev Registered : (String → Result String) → CreateUserReq → Tables → Tables → Type 0
Registered create_hash request before t =
    (hash : String) × (create_hash request.password ≡ ok hash)
    × (role_valid request.role ≡ true)
    × (any (has_email request.email) before.users ≡ false)
    × (t ≡ record before {
      users = before.users ++ new_user (columns request hash) before ∷ [];
      next_user_id = before.next_user_id + 1;
    })

pub unlisted :
    (arg : CreateUserParams) (t : Tables)
    → user_refusal arg t ≡ none
    → any (has_email arg.email) t.users ≡ false
unfolding user_refusal
unlisted arg t h = ground arith

stored_user-OnOk :
    (P : Tables → Type 0) (o : Option String) (row : UserRow) (t : Tables)
    → (o ≡ none → P (record t { users = t.users ++ row ∷ [] }))
    → OnOk (λ _. P) (stored_user o row t).0 (stored_user o row t).1
unfolding stored_user
stored_user-OnOk P (some state) row t h = tt
stored_user-OnOk P none row t h = h refl

create_user-Registered :
    (create_hash : String → Result String) (request : CreateUserReq) (before : Tables)
    (hash : String)
    → create_hash request.password ≡ ok hash
    → role_valid request.role ≡ true
    → let made = create_user (columns request hash) before in
      OnOk (λ _. Registered create_hash request before) made.0 made.1
unfolding create_user
create_user-Registered create_hash request before hash e v =
    stored_user-OnOk (Registered create_hash request before) _ _ _
      (λ none_refused. (hash, e, v, unlisted (columns request hash) before none_refused, refl))

module _ (create_hash : String → Result String) (request : CreateUserReq) (before : Tables) where
  save_user-Registered :
      Triple
        (λ t. t ≡ before)
        (save_user create_hash request)
        (OnOk (λ _. Registered create_hash request before))
  unfolding save_user save of_result
  save_user-Registered =
      let Here = λ (t : Tables). t ≡ before in
      let Made = λ (t : Tables). Registered create_hash request before t in
      elim (Bool-cases (role_valid request.role)) [
        | inl v ↦ rw v (
            OnOk-bind Here (λ hash t. (t ≡ before) × (create_hash request.password ≡ ok hash))
              (λ _. Made) _ _
              (OnOk-known Here (λ hash. create_hash request.password ≡ ok hash) _
                (Keeps-of_result Here _) (λ c hash _ e. e))
              (λ hash.
                OnOk-bind _ (λ _. Made) (λ _. Made) _ _
                  (OnOk-call _ (λ _. Made) _
                    (λ t (same, e).
                      subst
                        (λ t'.
                          OnOk (λ _. Made) (create_user (columns request hash) t').0
                            (create_user (columns request hash) t').1)
                        (sym same) (create_user-Registered create_hash request before hash e v)))
                  (λ row. OnOk-Keeps Made _ (Keeps-pure Made _))))
        | inr v ↦ rw v (OnOk-raise Here _ _)
      ]

role_from-role_text : (role : UserRole) → role_valid role ≡ true → role_from (role_text role) ≡ role
unfolding role_from role_text role_valid
role_from-role_text role_employee h = refl
role_from-role_text role_employer h = refl
role_from-role_text (other text) h = cc

module _ (compare : String → String → Result Bool)
    (sign : AccessTokenClaims → String → Result String) (numeric_date : ℕ → ℕ) (itoa : ℤ → String)
    (secret_key fresh : String) (now : ℕ) where
  login-accepted :
      (email password token : String) (t : Tables) (row : UserRow)
      → find (has_email email) t.users ≡ some row
      → role_valid (role_from row.role) ≡ true
      → compare password row.hashed_password ≡ ok true
      → make_jwt sign numeric_date itoa row.id
          (role_from row.role)
          secret_key
          now
          access_token_expiration_time
        ≡ ok token
      → any (λ r. r.token == fresh) t.refresh_tokens ≡ false
      → any (λ u. u.id == row.id) t.users ≡ true
      → (login compare sign numeric_date itoa secret_key fresh now email password (calm t)).0
        ≡ ok (record {
          user_id = row.id;
          role = role_from row.role;
          token = token;
          refresh_token = fresh;
        })
  unfolding login find_by_email get_user_by_email login_res call called answered pure raise on_error
      of_result ◌>>=◌ the_row grant generate_grants save_refresh_token create_refresh_token
      token_refusal stored_token refresh_token_row
  login-accepted email password token t row found valid accepted made unused present =
      rw (found, valid, accepted, made, unused, present) refl

  -- After a registration that succeeds, a login with the e-mail address and the password of the
  -- request succeeds, as the user that was registered, with the role of the request: where the
  -- hash of the password is accepted for the password, the token is signed, the refresh token is not
  -- stored yet, and no call of the login fails for an outside reason.
  pub login-save_user :
      (create_hash : String → Result String) (request : CreateUserReq) (token : String)
      (c : Connection) (done : Unit {0})
      → ((hash : String)
          → create_hash request.password ≡ ok hash
          → compare request.password hash ≡ ok true)
      → make_jwt sign numeric_date itoa
          (pos c.tables.next_user_id)
          request.role
          secret_key
          now
          access_token_expiration_time
        ≡ ok token
      → any (λ r. r.token == fresh) c.tables.refresh_tokens ≡ false
      → (save_user create_hash request c).0 ≡ ok done
      → (login compare sign numeric_date itoa secret_key fresh now request.email request.password
          (calm (save_user create_hash request c).1.tables)).0
        ≡ ok (record {
          user_id = pos c.tables.next_user_id;
          role = request.role;
          token = token;
          refresh_token = fresh;
        })
  unfolding new_user has_email
  login-save_user create_hash request token c done accepts made unused h =
      let (hash, hashed, valid, absent, after) =
        OnOk-of (λ _. Registered create_hash request c.tables) _ _ done
          ((save_user-Registered create_hash request c.tables).at c refl) h in
      let row = new_user (columns request hash) c.tables in
      let role = role_from-role_text request.role valid in
      let t = record c.tables {
        users = c.tables.users ++ row ∷ [];
        next_user_id = c.tables.next_user_id + 1;
      } in
      rw after (
        subst
          (λ (r : UserRole).
            (login compare sign numeric_date itoa secret_key fresh now request.email
              request.password (calm t)).0
            ≡ ok (record {
              user_id = pos c.tables.next_user_id;
              role = r;
              token = token;
              refresh_token = fresh;
            }))
          role
          (login-accepted request.email request.password token t row
            (find-append_last (has_email request.email) c.tables.users row absent
              ((eq_iff request.email request.email).1 refl))
            (ap role_valid role ∙ valid) (accepts hash hashed) (rw role made) unused
            (any-append_last (λ u. u.id == row.id) c.tables.users row
              ((int_beq_iff row.id row.id).1 refl))))
