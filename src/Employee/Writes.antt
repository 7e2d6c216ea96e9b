-- ===== src/Employee/Writes.antt =====
-- CreateEmployee and UpdateEmployee of internal/employee/repo.go: the base step and its certificates, in
-- one transaction.
pub mod Kept
use laburi_to.Base.{
  ℤ, String, Option, none, some, List, [], ◌∷◌, map, length, ◌==◌, nat_eq, string_eq, if◌then◌else◌,
}
use laburi_to.Errors.{wrap, sentinel, invalid_certifications}
use laburi_to.Database.Connection.{M, call, pure, raise, transaction, idle, ◌>>=◌, ◌>>◌}
use laburi_to.Database.Employees.{
  EmployeeColumns, create_employee_without_file, update_employee_row,
}
use laburi_to.Database.Files.{
  CreateEmployeeFileParams, create_employee_file, list_uploaded_employee_file_ids,
  mark_unkept_certification_files_deleted, clear_employee_file_certification_names,
  set_employee_file_certification_name,
}
use laburi_to.Employee.Files.{
  CreateEmployeeRequest, EmployeeFileMetadata, KeptCertificationFile, RemovedFile, EmployeeWriter,
}

-- sql.NullString{String: text, Valid: text != ""}
unfoldable pub null_string : String → Option String
null_string text = if text == "" then none else some text

unfoldable pub base_params : CreateEmployeeRequest → EmployeeColumns
unfolding null_string
base_params employee = record {
  position = employee.position;
  role = employee.role;
  years_of_experience = employee.years_of_experience;
  certifications = some employee.certifications;
  portfolio_url = null_string employee.portfolio_url;
}

unfoldable pub file_params : ℤ → EmployeeFileMetadata → CreateEmployeeFileParams
unfolding null_string
file_params employee_id file = record {
  employee_id = employee_id;
  type = file.type;
  bucket = file.bucket;
  object_key = file.object_key;
  original_filename = file.original_filename;
  content_type = file.content_type;
  size_bytes = file.size_bytes;
  checksum_sha256 = null_string file.checksum_sha256;
  status = file.status;
  certification_name = null_string file.certification_name;
}

unfoldable pub create_employee_files : ℤ → List EmployeeFileMetadata → M (Unit {0})
unfolding file_params
create_employee_files employee_id [] = pure tt
create_employee_files employee_id (file ∷ files) = do
  call (create_employee_file (file_params employee_id file))
  create_employee_files employee_id files

unfoldable pub create_steps : CreateEmployeeRequest → ℤ → List EmployeeFileMetadata → M ℤ
unfolding base_params create_employee_files
create_steps employee user_id files = do
  employee_id ← call (create_employee_without_file (base_params employee) user_id)
  create_employee_files employee_id files
  call idle
  pure employee_id

unfoldable pub create_employee : CreateEmployeeRequest → ℤ → List EmployeeFileMetadata → M ℤ
unfolding create_steps
create_employee employee user_id files = do
  call idle
  transaction (create_steps employee user_id files)

abbrev pub kept_ids : List KeptCertificationFile → List ℤ
kept_ids = map (λ (file : KeptCertificationFile). file.file_id)

-- Each kept file is one of the employee, and uploaded.
unfoldable pub check_kept : ℤ → List ℤ → M (Unit {0})
check_kept employee_id [] = pure tt
check_kept employee_id (i ∷ ids) = do
  found ← call (list_uploaded_employee_file_ids employee_id (i ∷ ids))
  if length found == length (i ∷ ids)
      then pure tt
      else raise (wrap (sentinel invalid_certifications))

unfoldable pub clear_names : ℤ → List ℤ → M (Unit {0})
clear_names employee_id [] = pure tt
clear_names employee_id (i ∷ ids) =
    call (clear_employee_file_certification_names employee_id (i ∷ ids))

unfoldable pub rename_kept : ℤ → List KeptCertificationFile → M (Unit {0})
rename_kept employee_id [] = pure tt
rename_kept employee_id (file ∷ kept) = do
  call (set_employee_file_certification_name employee_id file.file_id (some file.name))
  rename_kept employee_id kept

unfoldable pub removed_file : String × String → RemovedFile
removed_file (bucket, object_key) = record { bucket = bucket; object_key = object_key }

-- The certificates, after the row of the employee: those that are not kept are marked, the names of
-- those that are kept are cleared and then set, and the new ones are inserted.
unfoldable pub replace_certificates :
    ℤ → List KeptCertificationFile → List EmployeeFileMetadata → M (List RemovedFile)
unfolding clear_names rename_kept create_employee_files removed_file
replace_certificates employee_id kept files = do
  rows ← call (mark_unkept_certification_files_deleted employee_id (kept_ids kept))
  clear_names employee_id (kept_ids kept)
  rename_kept employee_id kept
  create_employee_files employee_id files
  call idle
  pure (map removed_file rows)

unfoldable pub update_steps :
    ℤ
    → CreateEmployeeRequest
    → List KeptCertificationFile
    → List EmployeeFileMetadata
    → M (List RemovedFile)
unfolding check_kept base_params replace_certificates
update_steps employee_id employee kept files = do
  check_kept employee_id (kept_ids kept)
  call (update_employee_row employee_id (base_params employee))
  replace_certificates employee_id kept files

unfoldable pub update_employee :
    ℤ
    → CreateEmployeeRequest
    → List KeptCertificationFile
    → List EmployeeFileMetadata
    → M (List RemovedFile)
unfolding update_steps
update_employee employee_id employee kept files = do
  call idle
  transaction (update_steps employee_id employee kept files)

-- The repository as the store of the service.
unfoldable pub writer : EmployeeWriter
unfolding create_employee update_employee
writer = record { create_employee = create_employee; update_employee = update_employee }
