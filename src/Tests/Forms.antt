-- ===== src/Tests/Forms.antt =====
-- A form with three certifications, of which two have a new file, and the second file is not a PDF.
use laburi_to.Base.{
  pos, String, ◌≡◌, true, false, none, some, List, [], ◌∷◌, ◌==◌, nat_eq, string_eq, any, All,
  arith, if◌then◌else◌,
}
use laburi_to.Files.{Form, FileHeader, Multipart, Handles}
use laburi_to.Files.Opened.{Opens, IsFresh, is_open}
use laburi_to.Employee.Form.{
  CertificationItem, parse_certifications_form, items_checked, nothing_seen,
}
use laburi_to.Employee.Form.Open.{left_open, parse_certifications_form-Opens}
use laburi_to.Employee.Form.Accepted.{is_ok, well_formed, items_checked-well_formed}
use laburi_to.Employee.Education.{get_education_documents_from_form}
use laburi_to.Employee.Education.Closed.{documents_of, get_education_documents_from_form-closed}
use laburi_to.Employee.Steps.{EmployeeEducationTitles}

abbrev multipart_library : Multipart
multipart_library = record {
  opens = λ i h. true;
  parse_media_type = λ s. some s;
  read = λ i h. some h.filename;
  detect_content_type = λ bytes. if bytes == "b.txt" then "text/plain" else "application/pdf";
  seek_start = λ i h. true;
}

abbrev header : String → FileHeader
header name = record { filename = name; content_type = "application/pdf"; size = pos 9 }

abbrev form : Form
form = record {
  value = ("certifications", "[...]" ∷ []) ∷ [];
  file = ("a", header "a.pdf" ∷ []) ∷ ("b", header "b.txt" ∷ []) ∷ [];
}

abbrev items : List CertificationItem
items =
    record { name = "Go"; document = some "a"; document_id = none }
    ∷ record { name = "SQL"; document = some "b"; document_id = none }
    ∷ record { name = "AWS"; document = none; document_id = some (pos 4) }
    ∷ []

abbrev one_open : Handles
one_open = record { next = 3; open_files = 1 ∷ [] }

one_open-IsFresh : IsFresh one_open
unfolding any
one_open-IsFresh j h = ground (arith, h)

parse_certifications_form-Opens_example :
    let r =
      parse_certifications_form multipart_library form
        (λ s. s)
        (λ s. s)
        (λ s. some items)
        one_open in
    Opens one_open (left_open r.0) r.1
parse_certifications_form-Opens_example =
    parse_certifications_form-Opens multipart_library form one_open one_open-IsFresh (λ s. s)
      (λ s. s) (λ s. some items)

items_checked-well_formed_example :
    is_ok (items_checked (λ s. s) (λ s. s) items nothing_seen) ≡ well_formed (λ s. s) (λ s. s) items
items_checked-well_formed_example = items_checked-well_formed (λ s. s) (λ s. s) items

abbrev titles : List EmployeeEducationTitles
titles =
    record { title = "law"; status = "completed"; education_type = "tertiary"; document = some "a" }
    ∷ []

get_education_documents_from_form-closed_example :
    let r = get_education_documents_from_form (λ s. s) multipart_library form titles one_open in
    Opens one_open [] r.1 × All (λ document. is_open document.file r.1 ≡ false) (documents_of r.0)
get_education_documents_from_form-closed_example =
    get_education_documents_from_form-closed (λ s. s) multipart_library form one_open
      one_open-IsFresh titles
