-- ===== src/Employee/Education.antt =====
-- The documents of an education form: getEducationDocumentsFromForm and educationDocumentFileKey of
-- internal/employee/crud_education.go.
pub mod Closed
use laburi_to.Base.{
  ℕ, ℤ, String, ◌+◌, Option, none, some, List, [], ◌∷◌, ◌++◌, ◌==◌, map, string_eq, if◌then◌else◌,
}
use laburi_to.Errors.{Result, ok, err, sentinel, invalid_file}
use laburi_to.Files.{Form, Multipart, Handles, PdfFile, get_pdf, close}
use laburi_to.Employee.Form.{max_upload_size}
use laburi_to.Employee.Steps.{EmployeeEducationTitles}

pub record EducationDocumentUpload : Type 0 where
  pub index : ℕ
  pub file : ℕ
  pub filename : String
  pub content_type : String
  pub size : ℤ

-- The deferred calls of Close, the last one first
unfoldable pub close_deferred : List ℕ → Handles → Handles
close_deferred [] s = s
close_deferred (file ∷ files) s = close_deferred files (close file s)

unfoldable pub document_upload : ℕ → PdfFile → EducationDocumentUpload
document_upload index pdf = record {
  index = index;
  file = pdf.file;
  filename = pdf.filename;
  content_type = pdf.content_type;
  size = pdf.size;
}

abbrev pub files_of : List EducationDocumentUpload → List ℕ
files_of documents = map (λ (document : EducationDocumentUpload). document.file) documents

unfoldable pub found_document : ℕ → Result (Option PdfFile) → Result (List EducationDocumentUpload)
unfolding document_upload
found_document index (err e) = err e
found_document index (ok none) = err (sentinel invalid_file)
found_document index (ok (some pdf)) = ok (document_upload index pdf ∷ [])

module _ (trim_space : String → String) (library : Multipart) (form : Form) where
  unfoldable pub education_document_file_key : Option String → String
  education_document_file_key none = ""
  education_document_file_key (some document) = trim_space document

  -- What one title opens: nothing where it has no document
  unfoldable pub open_document :
      ℕ → EmployeeEducationTitles → Handles → Result (List EducationDocumentUpload) × Handles
  unfolding found_document education_document_file_key
  open_document index education s =
      let key = education_document_file_key education.document in
      if key == ""
      then (ok [], s)
      else (let r = get_pdf library max_upload_size form key s in (found_document index r.0, r.1))

  -- The loop over the titles, with the files whose closing is deferred and the documents found
  unfoldable pub documents_from :
      ℕ
      → List ℕ
      → List EducationDocumentUpload
      → List EmployeeEducationTitles
      → Handles
      → Result (List EducationDocumentUpload) × Handles
  unfolding open_document close_deferred
  documents_from index deferred documents [] s = (ok documents, close_deferred deferred s)
  documents_from index deferred documents (education ∷ titles) s =
      let r = open_document index education s in
      elim r.0 [
        | err e ↦ (err e, close_deferred deferred r.1)
        | ok found ↦
            documents_from (index + 1) (files_of found ++ deferred) (documents ++ found) titles r.1
      ]

  -- getEducationDocumentsFromForm
  unfoldable pub get_education_documents_from_form :
      List EmployeeEducationTitles → Handles → Result (List EducationDocumentUpload) × Handles
  unfolding documents_from
  get_education_documents_from_form titles s = documents_from 0 [] [] titles s
