-- ===== src/Database/Files.antt =====
-- The statements of sql/queries/employees.sql over employee_files, with the constraints of
-- sql/schema/0001_employees.sql and the partial unique index of 0008_employee_file_certification_name.sql.
use laburi_to.Base.{
  ℕ, ℤ, pos, String, Bool, false, not, ◌&&◌, ◌||◌, ◌+◌, Option, none, some, List, [], ◌∷◌, ◌++◌,
  map, ◌==◌, int_eq, string_eq, int_leb, any, find, keep, if◌then◌else◌,
}
use laburi_to.Errors.{ok, err, pq_error}
use laburi_to.Database.Schema.{EmployeeFileRow, Tables, employee_exists}
use laburi_to.Database.Connection.{Query}
use laburi_to.Database.Batches.{the_row}
use laburi_to.Database.Employees.{one_of, is_some}

abbrev pub uploaded : EmployeeFileRow → Bool
uploaded f = f.status == "uploaded"

-- id = ANY($2::int[])
abbrev pub any_id : List ℤ → ℤ → Bool
any_id ids i = any (λ j. j == i) ids

abbrev pub named : String → Option String → Bool
named name none = false
named name (some other) = other == name

-- A key of employee_files_active_certification_key
unfoldable pub has_certificate : ℤ → String → EmployeeFileRow → Bool
has_certificate employee name f =
    f.employee_id == employee && uploaded f && named name f.certification_name

-- whether the index has the key already, for a row that it holds
unfoldable pub certificate_taken : EmployeeFileRow → Option String → List EmployeeFileRow → Bool
unfolding has_certificate
certificate_taken row none files = false
certificate_taken row (some name) files =
    uploaded row && any (λ f. has_certificate row.employee_id name f && not (f.id == row.id)) files

pub record CreateEmployeeFileParams : Type 0 where
  pub employee_id : ℤ
  pub type : String
  pub bucket : String
  pub object_key : String
  pub original_filename : String
  pub content_type : String
  pub size_bytes : ℤ
  pub checksum_sha256 : Option String
  pub status : String
  pub certification_name : Option String

unfoldable pub new_file : CreateEmployeeFileParams → Tables → EmployeeFileRow
new_file arg t = record {
  id = pos t.next_file_id;
  employee_id = arg.employee_id;
  type = arg.type;
  bucket = arg.bucket;
  object_key = arg.object_key;
  original_filename = arg.original_filename;
  content_type = arg.content_type;
  size_bytes = arg.size_bytes;
  checksum_sha256 = arg.checksum_sha256;
  status = arg.status;
  certification_name = arg.certification_name;
  created_at = t.now;
  uploaded_at = some t.now;
  updated_at = t.now;
}

-- employee_files_type_check, _status_check and _size_bytes_check
unfoldable pub file_checked : EmployeeFileRow → Bool
file_checked f =
    one_of ("certification" ∷ []) f.type
    && one_of ("pending" ∷ "uploaded" ∷ "failed" ∷ "deleted" ∷ []) f.status
    && int_leb (pos 0) f.size_bytes

-- The checks, the two unique indexes, the foreign key of the employee
unfoldable pub file_refusal : EmployeeFileRow → Tables → Option String
unfolding file_checked certificate_taken
file_refusal row t =
    if file_checked row
    then if any (λ f. f.bucket == row.bucket && f.object_key == row.object_key) t.employee_files
        || certificate_taken row row.certification_name t.employee_files
      then some "23505"
      else if employee_exists row.employee_id t
      then none
      else some "23503"
    else some "23514"

unfoldable pub kept_file : Option String → EmployeeFileRow → Query (Unit {0})
kept_file (some state) row t = (err (pq_error state), t)
kept_file none row t = (ok tt, record t { employee_files = t.employee_files ++ row ∷ [] })

-- CreateEmployeeFile. The sequence advances also when the row is refused.
unfoldable pub create_employee_file : CreateEmployeeFileParams → Query (Unit {0})
unfolding kept_file file_refusal new_file
create_employee_file arg t =
    kept_file (file_refusal (new_file arg t) t) (new_file arg t)
      (record t { next_file_id = t.next_file_id + 1 })

-- ListUploadedEmployeeFileIDs
unfoldable pub list_uploaded_employee_file_ids : ℤ → List ℤ → Query (List ℤ)
list_uploaded_employee_file_ids employee ids t = (
  ok (
      map (λ (f : EmployeeFileRow). f.id)
        (keep (λ f. f.employee_id == employee && any_id ids f.id && uploaded f) t.employee_files)),
  t,
)

unfoldable pub unkept : ℤ → List ℤ → EmployeeFileRow → Bool
unkept employee kept f =
    f.employee_id == employee
    && uploaded f
    && is_some f.certification_name
    && not (any_id kept f.id)

unfoldable pub marked : ℤ → List ℤ → ℕ → EmployeeFileRow → EmployeeFileRow
unfolding unkept
marked employee kept now f =
    if unkept employee kept f then record f { status = "deleted"; updated_at = now } else f

-- MarkUnkeptCertificationFilesDeleted
unfoldable pub mark_unkept_certification_files_deleted : ℤ → List ℤ → Query (List (String × String))
unfolding marked unkept
mark_unkept_certification_files_deleted employee kept t = (
  ok (
      map (λ (f : EmployeeFileRow). (f.bucket, f.object_key))
        (keep (unkept employee kept) t.employee_files)),
  record t { employee_files = map (marked employee kept t.now) t.employee_files },
)

unfoldable pub cleared : ℤ → List ℤ → ℕ → EmployeeFileRow → EmployeeFileRow
cleared employee ids now f =
    if f.employee_id == employee && any_id ids f.id
    then record f { certification_name = none; updated_at = now }
    else f

-- ClearEmployeeFileCertificationNames
unfoldable pub clear_employee_file_certification_names : ℤ → List ℤ → Query (Unit {0})
unfolding cleared
clear_employee_file_certification_names employee ids t =
    (ok tt, record t { employee_files = map (cleared employee ids t.now) t.employee_files })

unfoldable pub file_of : ℤ → ℤ → EmployeeFileRow → Bool
file_of employee i f = f.employee_id == employee && f.id == i

unfoldable pub renamed : ℤ → ℤ → Option String → ℕ → EmployeeFileRow → EmployeeFileRow
unfolding file_of
renamed employee i name now f =
    if file_of employee i f then record f { certification_name = name; updated_at = now } else f

-- whether the index refuses the new name of the row
unfoldable pub rename_refused : Option String → List EmployeeFileRow → Option EmployeeFileRow → Bool
unfolding certificate_taken
rename_refused name files none = false
rename_refused name files (some row) = certificate_taken row name files

-- SetEmployeeFileCertificationName
unfoldable pub set_employee_file_certification_name : ℤ → ℤ → Option String → Query (Unit {0})
unfolding renamed rename_refused file_of
set_employee_file_certification_name employee i name t =
    if rename_refused name t.employee_files (find (file_of employee i) t.employee_files)
    then (err (pq_error "23505"), t)
    else (ok tt, record t { employee_files = map (renamed employee i name t.now) t.employee_files })

-- GetEmployeeFileForEmployee
unfoldable pub get_employee_file_for_employee : ℤ → ℤ → Query EmployeeFileRow
unfolding file_of
get_employee_file_for_employee i employee t =
    (the_row (find (λ f. file_of employee i f && uploaded f) t.employee_files), t)
