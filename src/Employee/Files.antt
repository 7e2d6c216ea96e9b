-- ===== src/Employee/Files.antt =====
-- The types of internal/employee/certifications.go, store.go and models.go that a change of the base step
-- uses, and the object storage: what was uploaded, and what was asked to be deleted.
use laburi_to.Base.{ℤ, String, Option, none, some, List}
use laburi_to.Database.Connection.{M}
use laburi_to.Recommendation.Publisher.{World}

pub record CreateEmployeeRequest : Type 0 where
  pub position : String
  pub role : String
  pub years_of_experience : String
  pub certifications : List String
  pub portfolio_url : String

-- CertificationUpload, with `F` for multipart.File
pub record CertificationUpload (F : Type 0) : Type 0 where
  pub file : F
  pub filename : String
  pub content_type : String
  pub size : ℤ

pub record CertificationEntry (F : Type 0) : Type 0 where
  pub name : String
  pub keep_file_id : Option ℤ
  pub upload : Option (CertificationUpload F)

pub record KeptCertificationFile : Type 0 where
  pub file_id : ℤ
  pub name : String

pub record RemovedFile : Type 0 where
  pub bucket : String
  pub object_key : String

pub record EmployeeFileMetadata : Type 0 where
  pub type : String
  pub bucket : String
  pub object_key : String
  pub original_filename : String
  pub content_type : String
  pub size_bytes : ℤ
  pub checksum_sha256 : String
  pub status : String
  pub certification_name : String

-- The fields of the answer of Upload that are read: pointers to strings.
pub record UploadOutput : Type 0 where
  pub bucket : Option String
  pub key : Option String
  pub checksum_sha256 : Option String

-- The two operations of EmployeeStore that write the base step.
pub record EmployeeWriter : Type 0 where
  pub create_employee : CreateEmployeeRequest → ℤ → List EmployeeFileMetadata → M ℤ
  pub update_employee :
      ℤ
      → CreateEmployeeRequest
      → List KeptCertificationFile
      → List EmployeeFileMetadata
      → M (List RemovedFile)

-- What was uploaded and what was asked to be deleted, the oldest first.
pub record Storage : Type 0 where
  pub stored : List RemovedFile
  pub removals : List RemovedFile

pub record Site (Q : Type 0) : Type 0 where
  pub world : World Q
  pub storage : Storage

-- aws.ToString
abbrev pub to_string : Option String → String
to_string none = ""
to_string (some text) = text

abbrev pub location : EmployeeFileMetadata → RemovedFile
location file = record { bucket = file.bucket; object_key = file.object_key }
