-- ===== src/User/Unique.antt =====
-- No two accounts have one e-mail address.
use laburi_to.Base.{
  refl, subst, false, List, eq_iff, any-false, count-append, String, ◌≡◌, ◌≤◌, Bool-cases, inl, inr,
  Option, none, some, [], ◌∷◌, ◌++◌, ◌==◌, string_eq, any, count, arith,
}
use laburi_to.Errors.{Result}
use laburi_to.Database.Schema.{UserRow, Tables}
use laburi_to.Database.Connection.{
  Connection, Keeps, Keeps-call, Keeps-pure, Keeps-raise, Keeps-bind, Keeps-if, Keeps-of_result,
}
use laburi_to.Database.Users.{CreateUserParams, has_email, create_user, new_user, stored_user}
use laburi_to.User.Repo.{CreateUserReq, save}
use laburi_to.User.Registered.{unlisted}
use laburi_to.User.Service.{save_user}

abbrev pub HasUniqueEmails : Tables → Type 0
HasUniqueEmails t = (email : String) → count (has_email email) t.users ≤ 1

one_more :
    (email : String) (row : UserRow) (rows : List UserRow)
    → count (has_email email) rows ≤ 1
    → any (has_email row.email) rows ≡ false
    → count (has_email email) (rows ++ row ∷ []) ≤ 1
unfolding count has_email
one_more email row rows h k = elim (Bool-cases (row.email == email)) [
  | inl e ↦
      (let same : row.email ≡ email = (eq_iff row.email email).0 e in
        let absent : count (has_email email) rows ≡ 0 =
          any-false _ _ (subst (λ other. any (has_email other) rows ≡ false) same k) in
        rw (count-append (has_email email) rows (row ∷ [])) (ground arith))
  | inr e ↦ rw (count-append (has_email email) rows (row ∷ [])) (ground arith)
]

stored_user-Keeps :
    (P : Tables → Type 0) (o : Option String) (row : UserRow) (t : Tables)
    → P t
    → (o ≡ none → P (record t { users = t.users ++ row ∷ [] }))
    → P (stored_user o row t).1
unfolding stored_user
stored_user-Keeps P (some state) row t h k = h
stored_user-Keeps P none row t h k = k refl

create_user-HasUniqueEmails :
    (arg : CreateUserParams) (t : Tables)
    → HasUniqueEmails t
    → HasUniqueEmails (create_user arg t).1
unfolding create_user new_user
create_user-HasUniqueEmails arg t h =
    stored_user-Keeps HasUniqueEmails _ _ _ h (λ none_refused email.
      one_more email (new_user arg t) t.users (h email) (unlisted arg t none_refused))

save_user-Keeps :
    (create_hash : String → Result String) (request : CreateUserReq)
    → Keeps HasUniqueEmails (save_user create_hash request)
unfolding save_user save
save_user-Keeps create_hash request =
    Keeps-if HasUniqueEmails _ _ _
      (Keeps-bind HasUniqueEmails _ _ (Keeps-of_result HasUniqueEmails _) (λ hash.
        Keeps-bind HasUniqueEmails _ _
          (Keeps-call HasUniqueEmails _ (create_user-HasUniqueEmails _))
          (λ row. Keeps-pure HasUniqueEmails tt)))
      (Keeps-raise HasUniqueEmails _)

-- A registration, whether it succeeds or fails, keeps the e-mail addresses of the accounts unique.
pub save_user-HasUniqueEmails :
    (create_hash : String → Result String) (request : CreateUserReq) (c : Connection)
    → HasUniqueEmails c.tables
    → HasUniqueEmails (save_user create_hash request c).1.tables
save_user-HasUniqueEmails create_hash request c h = (save_user-Keeps create_hash request).at c h
