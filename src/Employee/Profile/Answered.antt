-- ===== src/Employee/Profile/Answered.antt =====
-- What is answered to whom about an employee.
use laburi_to.Base.{
  ℕ, ℤ, String, ◌≡◌, refl, sym, ap, ◌∙◌, Bool, true, false, none, some, find, ◌==◌, int_eq, ◌⊎◌,
  inl, inr, if◌then◌else◌,
}
use laburi_to.Errors.{Result, ok, err, sentinel, profile_access_forbidden}
use laburi_to.Database.Schema.{Tables}
use laburi_to.Database.Connection.{Connection, M, pure, ◌>>=◌}
use laburi_to.Database.Total.{calm}
use laburi_to.Recommendation.Listings.{employer_has_current_recommendation}
use laburi_to.Recommendation.Service.{role_employee, role_employer, Principal}
use laburi_to.Recommendation.Service.Access.{first_ok}
use laburi_to.Employee.Models.{EmployeeProfile, EmployeeProfileResponse, EmployeeStore, StoredFile}
use laburi_to.Employee.Access.Allowed.{
  over_database, is_of_user, IsOwner, authorize_profile_access-MayRead,
  authorize_profile_access-denied,
}
use laburi_to.Employee.Profile.{profile_response, get_employee_profile}
use laburi_to.Employee.Delivery.{
  download_url, certificate_download_url, education_document_download_url,
}

-- A profile is answered only to the user of the row of that employee, with role employee, or to a
-- principal with role employer who is told to have a current recommendation for that employee, and
-- to the latter without the e-mail address.
pub get_employee_profile-answered :
    (store : EmployeeStore) (i : ℤ) (principal : Principal) (c : Connection)
    (response : EmployeeProfileResponse)
    → (get_employee_profile
        (over_database store)
        employer_has_current_recommendation
        i
        principal
        c).0
      ≡ ok response
    → ((principal.role ≡ role_employee) × IsOwner principal.user_id i c.tables)
      ⊎ ((principal.role ≡ role_employer)
          × ((employer_has_current_recommendation i principal.user_id c).0 ≡ ok true)
          × (response.email ≡ none))
unfolding get_employee_profile pure profile_response
get_employee_profile-answered store i principal c response h =
    let (viewer, allowed, next) = first_ok _ _ c response h in
    let (profile, _, last) =
      first_ok _ (λ (profile : EmployeeProfile). pure (profile_response profile viewer)) _ response
        next in
    let made : profile_response profile viewer ≡ response = cc in
    elim (authorize_profile_access-MayRead store i principal c viewer allowed) [
      | inl own ↦ inl own
      | inr (role, linked, stranger) ↦ inr (
        role,
        linked,
        sym (ap (λ r. r.email) made) ∙ ap (λ b. if b then some profile.email else none) stranger,
      )
    ]

module _ (store : EmployeeStore) (access : ℤ → ℤ → M Bool)
    (presign : StoredFile → ℕ → Result String) (now : ℕ) (i : ℤ) (principal : Principal)
    (t : Tables) where
  -- To a principal with role employee, the three routes of a profile answer the same for an employee
  -- who is not there and for one who is another user's: that access is forbidden, whatever is asked
  -- for. No call of the database is taken to fail.
  pub get_employee_profile-denied :
      (file_id education_id : ℤ)
      → principal.role ≡ role_employee
      → is_of_user principal.user_id (find (λ e. e.id == i) t.employees) ≡ false
      → ((get_employee_profile (over_database store) access i principal (calm t)).0
          ≡ err (sentinel profile_access_forbidden))
        × ((certificate_download_url
              (over_database store)
              access
              presign
              now
              i
              file_id
              principal
              (calm t)).0
            ≡ err (sentinel profile_access_forbidden))
        × ((education_document_download_url
              (over_database store)
              access
              presign
              now
              i
              education_id
              principal
              (calm t)).0
            ≡ err (sentinel profile_access_forbidden))
  unfolding get_employee_profile certificate_download_url education_document_download_url
      download_url ◌>>=◌
  get_employee_profile-denied file_id education_id role h =
      let denied = authorize_profile_access-denied store access i principal t role h in
      (rw denied refl, rw denied refl, rw denied refl)
