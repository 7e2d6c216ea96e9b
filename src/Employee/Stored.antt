-- ===== src/Employee/Stored.antt =====
-- GetEmployeeFile, GetEmployeeEducationDocument and educationDocumentFilename of internal/employee/repo.go.
-- `trim_space` and `map_runes` are TrimSpace and Map of package strings, a rune its code point, and
-- `btrim` that of PostgreSQL.
pub mod Gone
pub mod Removed
use Prim.Native.String.{◌++◌}
use laburi_to.Base.{
  ℕ, ℤ, String, ◌||◌, ltb, Option, none, some, List, [], ◌∷◌, ◌==◌, nat_eq, int_eq, string_eq, find,
  if◌then◌else◌,
}
use laburi_to.Errors.{GoError, Result, ok, err, sentinel, is, no_rows, file_not_found}
use laburi_to.Database.Schema.{EmployeeRow, EducationRow, EmployeeFileRow}
use laburi_to.Database.Connection.{Query, M, call, pure, on_error, ◌>>=◌}
use laburi_to.Database.Files.{get_employee_file_for_employee}
use laburi_to.Employee.Models.{StoredFile}

-- `if errors.Is(err, sql.ErrNoRows) { return StoredFile{}, ErrFileNotFound }`
unfoldable pub missing_file : GoError → GoError
missing_file e = if is e no_rows then sentinel file_not_found else e

unfoldable pub file_from_row : EmployeeFileRow → StoredFile
file_from_row row = record {
  bucket = row.bucket;
  object_key = row.object_key;
  filename = row.original_filename;
  content_type = row.content_type;
}

unfoldable pub get_employee_file : ℤ → ℤ → M StoredFile
unfolding missing_file file_from_row
get_employee_file employee_id file_id = do
  row ← on_error missing_file (call (get_employee_file_for_employee file_id employee_id))
  pure (file_from_row row)

module _ (btrim : String → String) where
  -- The certification of a row, where it is neither NULL nor blank
  unfoldable pub document_of : EducationRow → Option String
  document_of row = elim row.certification [
    | none ↦ none
    | some key ↦ if btrim key == "" then none else some key
  ]

  unfoldable pub document_row : ℤ → List EducationRow → Result (String × String)
  unfolding document_of
  document_row education_id [] = err (sentinel no_rows)
  document_row education_id (row ∷ rows) =
      let rest = document_row education_id rows in
      if row.id == education_id
      then elim (document_of row) [ none ↦ rest | some key ↦ ok (key, row.title) ]
      else rest

  unfoldable pub document_row_of : ℤ → Option EmployeeRow → Result (String × String)
  unfolding document_row
  document_row_of education_id none = err (sentinel no_rows)
  document_row_of education_id (some e) = document_row education_id e.education

  -- GetEmployeeEducationDocumentForEmployee: the key and the title
  unfoldable pub get_employee_education_document_for_employee : ℤ → ℤ → Query (String × String)
  unfolding document_row_of
  get_employee_education_document_for_employee education_id employee_id t =
      (document_row_of education_id (find (λ e. e.id == employee_id) t.employees), t)

-- '"', '\\', '/' and what comes before the space are replaced by '-'.
unfoldable pub filename_rune : ℕ → ℕ
filename_rune r = if r == 34 || r == 92 || r == 47 || ltb r 32 then 45 else r

module _ (trim_space : String → String) (map_runes : (ℕ → ℕ) → String → String) where
  unfoldable pub education_document_filename : String → String
  unfolding filename_rune
  education_document_filename title =
      let sanitized = map_runes filename_rune (trim_space title) in
      if sanitized == "" then "documento.pdf" else sanitized ++ ".pdf"

  unfoldable pub document_from_row : String × String → StoredFile
  unfolding education_document_filename
  document_from_row (object_key, title) = record {
    bucket = "";
    object_key = object_key;
    filename = education_document_filename title;
    content_type = "application/pdf";
  }

  unfoldable pub get_employee_education_document : (String → String) → ℤ → ℤ → M StoredFile
  unfolding missing_file document_from_row
  get_employee_education_document btrim employee_id education_id = do
    row ←
        on_error missing_file
          (call (get_employee_education_document_for_employee btrim education_id employee_id))
    pure (document_from_row row)
