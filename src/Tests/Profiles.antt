-- ===== src/Tests/Profiles.antt =====
-- Profiles of employees and employers at concrete inputs.
use laburi_to.Base.{
  ℕ, ℤ, pos, String, ◌≡◌, refl, Bool, true, false, Option, none, some, List, [], ◌∷◌, find, ◌==◌,
  int_eq, string_eq, ◌⊎◌, count, any, ◌≤◌, negsuc, int_beq, arith,
}
use laburi_to.Errors.{Result, ok, err, sentinel, profile_access_forbidden}
use laburi_to.Database.Schema.{EmployeeRow}
use laburi_to.Database.Connection.{Connection, M, pure}
use laburi_to.Database.Total.{calm}
use laburi_to.Database.Employers.{employer_of_user, employee_of_user}
use laburi_to.Queue.Fake.{Fake, new}
use laburi_to.Recommendation.Listings.{employer_has_current_recommendation}
use laburi_to.Recommendation.Publisher.{World}
use laburi_to.Recommendation.Service.{Principal, role_employee, role_employer}
use laburi_to.Employee.Models.{EmployeeProfile, EmployeeProfileResponse, EmployeeStore, StoredFile}
use laburi_to.Employee.Repo.{complete, is_profile_complete}
use laburi_to.Employee.Access.Allowed.{over_database, is_of_user, IsOwner}
use laburi_to.Employee.Profile.{get_employee_profile}
use laburi_to.Employee.Delivery.{certificate_download_url, education_document_download_url}
use laburi_to.Employee.Profile.Answered.{get_employee_profile-answered, get_employee_profile-denied}
use laburi_to.Employer.Models.{CreateEmployerRequest}
use laburi_to.Employer.Repo.{repository}
use laburi_to.Employer.Service.{create_employer}
use laburi_to.Employer.Exclusive.{AreExclusive, create_employer-AreExclusive}
use laburi_to.Tests.{ana, acme, acme_account, waiting, tables_with}

abbrev profile : EmployeeProfile
profile = record {
  id = pos 7;
  user_id = pos 70;
  email = "ana@example.com";
  position = "backend";
  role = "developer";
  years_of_experience = "1y";
  certifications = none;
  portfolio_url = "";
  timezone = "";
  os = "";
  paid_software = none;
  available_hours_per_day = pos 8;
  compatible_projects = none;
  incompatible_projects = none;
  internet_connections = some [];
  education = some [];
  files = some [];
  created_at = 1;
  updated_at = 2;
}

abbrev file : StoredFile
file = record {
  bucket = "b";
  object_key = "k";
  filename = "a.pdf";
  content_type = "application/pdf";
}

abbrev store : EmployeeStore
store = over_database (record {
  get_employee_by_id = λ i. pure (record { id = i; user_id = i });
  get_employee_profile_by_id = λ i. pure profile;
  is_profile_complete = λ i. pure true;
  get_employee_file = λ i file_id. pure file;
  get_employee_education_document = λ i education_id. pure file;
})

abbrev start : Connection
start = calm (tables_with waiting)

abbrev ana_principal : Principal
ana_principal = record { user_id = pos 70; role = role_employee }

abbrev ana_answer : EmployeeProfileResponse
ana_answer = record {
  id = pos 7;
  user_id = pos 70;
  email = some "ana@example.com";
  position = "backend";
  role = "developer";
  years_of_experience = "1y";
  certifications = [];
  portfolio_url = "";
  timezone = "";
  os = "";
  paid_software = [];
  available_hours_per_day = pos 8;
  compatible_projects = none;
  incompatible_projects = none;
  internet_connections = [];
  education = [];
  files = [];
  created_at = 1;
  updated_at = 2;
}

profile_read :
    (get_employee_profile store employer_has_current_recommendation (pos 7) ana_principal start).0
    ≡ ok ana_answer
unfolding get_employee_profile laburi_to.Database.Connection.◌>>=◌
    laburi_to.Employee.Access.authorize_profile_access laburi_to.Database.Connection.on_error
    laburi_to.Employee.Repo.get_employee_by_id laburi_to.Database.Connection.call
    laburi_to.Employee.Repo.get_employee_row laburi_to.Database.Batches.the_row find
    laburi_to.Base.int_beq pure
profile_read = refl

get_employee_profile-answered_example :
    ((ana_principal.role ≡ role_employee) × IsOwner (pos 70) (pos 7) (tables_with waiting))
    ⊎ ((ana_principal.role ≡ role_employer)
        × ((employer_has_current_recommendation (pos 7) (pos 70) start).0 ≡ ok true)
        × (ana_answer.email ≡ none))
get_employee_profile-answered_example =
    get_employee_profile-answered store (pos 7) ana_principal start ana_answer profile_read

abbrev presign : StoredFile → ℕ → Result String
presign f ttl = ok f.object_key

-- Another employee
abbrev stranger : Principal
stranger = record { user_id = pos 71; role = role_employee }

not_hers : is_of_user (pos 71) (find (λ (e : EmployeeRow). e.id == pos 7) (ana ∷ [])) ≡ false
unfolding find laburi_to.Base.int_beq
not_hers = refl

get_employee_profile-denied_example :
    ((get_employee_profile store employer_has_current_recommendation (pos 7) stranger start).0
      ≡ err (sentinel profile_access_forbidden))
    × ((certificate_download_url store employer_has_current_recommendation presign 5
          (pos 7)
          (pos 1)
          stranger
          start).0
        ≡ err (sentinel profile_access_forbidden))
    × ((education_document_download_url store employer_has_current_recommendation presign 5
          (pos 7)
          (pos 2)
          stranger
          start).0
        ≡ err (sentinel profile_access_forbidden))
get_employee_profile-denied_example =
    get_employee_profile-denied store employer_has_current_recommendation presign 5 (pos 7) stranger
      (tables_with waiting) (pos 1) (pos 2) refl not_hers

abbrev world : World Fake
world = record { connection = start; queue = new }

-- A user with no profile yet
abbrev newcomer : Connection
newcomer = calm (record (tables_with waiting) { users = record acme_account { id = pos 21 } ∷ [] })

abbrev newcomer_principal : Principal
newcomer_principal = record { user_id = pos 21; role = role_employer }

abbrev request : CreateEmployerRequest
request = record {
  name = "globex";
  industry = "energy";
  location = "UY";
  hiring_modalities = some ("remote" ∷ []);
}

one_here : (i : ℤ) → count (employer_of_user i) (acme ∷ []) ≤ 1
unfolding count
one_here i = ground arith

not_both_here :
    (i : ℤ)
    → any (employer_of_user i) (acme ∷ []) ≡ true
    → any (employee_of_user i) (ana ∷ []) ≡ false
unfolding any employer_of_user employee_of_user int_beq
not_both_here (pos n) h = ground arith
not_both_here (negsuc n) h = ground arith

newcomer-AreExclusive : AreExclusive newcomer.tables
newcomer-AreExclusive = record { one_employer = one_here; not_both = not_both_here }

create_employer-AreExclusive_example :
    AreExclusive (create_employer repository request newcomer_principal newcomer).1.tables
create_employer-AreExclusive_example =
    create_employer-AreExclusive request newcomer_principal newcomer newcomer-AreExclusive
