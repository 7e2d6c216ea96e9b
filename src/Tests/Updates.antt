-- ===== src/Tests/Updates.antt =====
-- An update of the base step that keeps one certificate under another name, removes one and adds one.
use laburi_to.Base.{ℤ, pos, String, ◌≡◌, refl, none, some, List, [], ◌∷◌}
use laburi_to.Errors.{ok, err, sentinel, file_not_found}
use laburi_to.Base.{any, int_beq, arith}
use laburi_to.Database.Files.{file_of}
use laburi_to.Employee.Stored.{get_employee_file}
use laburi_to.Employee.Stored.Gone.{IsAssociated}
use laburi_to.Employee.Stored.Removed.{update_employee_removed}
use laburi_to.Database.Schema.{EmployeeFileRow, Tables}
use laburi_to.Database.Connection.{Connection}
use laburi_to.Database.Total.{calm}
use laburi_to.Employee.Files.{CreateEmployeeRequest, EmployeeFileMetadata, KeptCertificationFile}
use laburi_to.Employee.Writes.{update_employee}
use laburi_to.Employee.Writes.Kept.{AreAccounted, update_employee-AreAccounted}
use laburi_to.Tests.{tables_with, waiting}

abbrev request : CreateEmployeeRequest
request = record {
  position = "backend";
  role = "developer";
  years_of_experience = "1y";
  certifications = "SQL" ∷ "AWS" ∷ [];
  portfolio_url = "";
}

abbrev certificate : ℤ → String → String → EmployeeFileRow
certificate i key name = record {
  id = i;
  employee_id = pos 7;
  type = "certification";
  bucket = "b";
  object_key = key;
  original_filename = "a.pdf";
  content_type = "application/pdf";
  size_bytes = pos 12;
  checksum_sha256 = none;
  status = "uploaded";
  certification_name = some name;
  created_at = 1;
  uploaded_at = some 1;
  updated_at = 1;
}

abbrev with_two : Connection
with_two = calm (record (tables_with waiting) {
  employee_files = certificate (pos 1) "k-1" "Go" ∷ certificate (pos 2) "k-2" "AWS" ∷ [];
  next_file_id = 3;
})

abbrev kept : List KeptCertificationFile
kept = record { file_id = pos 1; name = "SQL" } ∷ []

abbrev new_files : List EmployeeFileMetadata
new_files =
    record {
      type = "certification";
      bucket = "b";
      object_key = "k-3";
      original_filename = "c.pdf";
      content_type = "application/pdf";
      size_bytes = pos 20;
      checksum_sha256 = "";
      status = "uploaded";
      certification_name = "AWS";
    }
    ∷ []

replaced :
    (update_employee (pos 7) request kept new_files with_two).0
    ≡ ok (record { bucket = "b"; object_key = "k-2" } ∷ [])
unfolding laburi_to.Base.any laburi_to.Base.find laburi_to.Base.int_beq laburi_to.Base.int_leb
    laburi_to.Base.keep laburi_to.Database.Connection.answered laburi_to.Database.Connection.call
    laburi_to.Database.Connection.called laburi_to.Database.Connection.idle
    laburi_to.Database.Connection.pure laburi_to.Database.Connection.raise
    laburi_to.Database.Connection.rolled_back laburi_to.Database.Connection.transaction
    laburi_to.Database.Connection.◌>>=◌ laburi_to.Database.Employees.amended
    laburi_to.Database.Employees.put_employee laburi_to.Database.Employees.update_employee_row
    laburi_to.Database.Employees.updated_employee laburi_to.Database.Employees.years_known
    laburi_to.Database.Files.certificate_taken
    laburi_to.Database.Files.clear_employee_file_certification_names
    laburi_to.Database.Files.cleared laburi_to.Database.Files.create_employee_file
    laburi_to.Database.Files.file_checked laburi_to.Database.Files.file_of
    laburi_to.Database.Files.file_refusal laburi_to.Database.Files.has_certificate
    laburi_to.Database.Files.kept_file laburi_to.Database.Files.list_uploaded_employee_file_ids
    laburi_to.Database.Files.mark_unkept_certification_files_deleted laburi_to.Database.Files.marked
    laburi_to.Database.Files.new_file laburi_to.Database.Files.rename_refused
    laburi_to.Database.Files.renamed laburi_to.Database.Files.set_employee_file_certification_name
    laburi_to.Database.Files.unkept laburi_to.Database.Schema.employee_exists
    laburi_to.Employee.Writes.base_params laburi_to.Employee.Writes.check_kept
    laburi_to.Employee.Writes.clear_names laburi_to.Employee.Writes.create_employee_files
    laburi_to.Employee.Writes.file_params laburi_to.Employee.Writes.null_string
    laburi_to.Employee.Writes.removed_file laburi_to.Employee.Writes.rename_kept
    laburi_to.Employee.Writes.replace_certificates laburi_to.Employee.Writes.update_steps
    update_employee
replaced = refl

update_employee-AreAccounted_example :
    AreAccounted
      (pos 7)
      kept
      new_files
      (update_employee (pos 7) request kept new_files with_two).1.tables
update_employee-AreAccounted_example =
    update_employee-AreAccounted (pos 7) kept new_files request with_two
      (record { bucket = "b"; object_key = "k-2" } ∷ []) replaced

second_is_removed : IsAssociated (pos 7) 2 kept with_two.tables
unfolding file_of any int_beq
second_is_removed = record { all_hold = (refl, (refl, tt)); passed = ground arith }

update_employee_removed_example :
    (get_employee_file
      (pos 7)
      (pos 2)
      (calm (update_employee (pos 7) request kept new_files with_two).1.tables)).0
    ≡ err (sentinel file_not_found)
update_employee_removed_example =
    update_employee_removed (pos 7) 2 request kept new_files with_two
      (record { bucket = "b"; object_key = "k-2" } ∷ []) second_is_removed replaced
