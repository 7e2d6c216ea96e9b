-- ===== src/Employee/Models.antt =====
-- The types of internal/employee/models.go and store.go that the reads of a profile use. A nil slice
-- and a nil pointer are `none`.
use laburi_to.Base.{ℕ, ℤ, String, Bool, Option, List}
use laburi_to.Database.Connection.{M}

pub record CertificationResponseItem : Type 0 where
  pub name : String
  pub document_id : Option ℤ

pub record InternetConnection : Type 0 where
  pub type : String
  pub speed : String

pub record ProfileFileItem : Type 0 where
  pub id : ℤ
  pub title : String

pub record ProfileEducationItem : Type 0 where
  pub education_type : String
  pub title : String
  pub status : String
  pub certification_document_id : Option ℤ

pub record EmployeeProfile : Type 0 where
  pub id : ℤ
  pub user_id : ℤ
  pub email : String
  pub position : String
  pub role : String
  pub years_of_experience : String
  pub certifications : Option (List CertificationResponseItem)
  pub portfolio_url : String
  pub timezone : String
  pub os : String
  pub paid_software : Option (List String)
  pub available_hours_per_day : ℤ
  pub compatible_projects : Option ℤ
  pub incompatible_projects : Option ℤ
  pub internet_connections : Option (List InternetConnection)
  pub education : Option (List ProfileEducationItem)
  pub files : Option (List ProfileFileItem)
  pub created_at : ℕ
  pub updated_at : ℕ

-- The lists are never nil.
pub record EmployeeProfileResponse : Type 0 where
  pub id : ℤ
  pub user_id : ℤ
  pub email : Option String
  pub position : String
  pub role : String
  pub years_of_experience : String
  pub certifications : List CertificationResponseItem
  pub portfolio_url : String
  pub timezone : String
  pub os : String
  pub paid_software : List String
  pub available_hours_per_day : ℤ
  pub compatible_projects : Option ℤ
  pub incompatible_projects : Option ℤ
  pub internet_connections : List InternetConnection
  pub education : List ProfileEducationItem
  pub files : List ProfileFileItem
  pub created_at : ℕ
  pub updated_at : ℕ

-- The two fields of Employee that GetEmployeeByID fills
pub record EmployeeOwner : Type 0 where
  pub id : ℤ
  pub user_id : ℤ

pub record StoredFile : Type 0 where
  pub bucket : String
  pub object_key : String
  pub filename : String
  pub content_type : String

pub record DownloadUrlResponse : Type 0 where
  pub url : String
  pub expires_at : ℕ

-- The operations of EmployeeStore that read.
pub record EmployeeStore : Type 0 where
  pub get_employee_by_id : ℤ → M EmployeeOwner
  pub get_employee_profile_by_id : ℤ → M EmployeeProfile
  pub is_profile_complete : ℤ → M Bool
  pub get_employee_file : ℤ → ℤ → M StoredFile
  pub get_employee_education_document : ℤ → ℤ → M StoredFile
