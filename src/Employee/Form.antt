-- ===== src/Employee/Form.antt =====
-- parseCertificationsForm and decodeCertificationItems of internal/employee/certifications.go: the
-- certifications of a form, and the files that are opened for them. `trim_space` and `lower` are
-- those of package strings, `decode` the JSON decoder for a list of items without unknown fields.
pub mod Open
pub mod Accepted
use laburi_to.Base.{
  ℕ, ℤ, pos, String, Bool, not, ◌||◌, Option, none, some, List, [], ◌∷◌, ◌++◌, ◌==◌, string_eq,
  int_eq, int_leb, any, if◌then◌else◌,
}
use laburi_to.Errors.{GoError, Result, ok, err, wrap, sentinel, invalid_certifications, ◌>>=◌}
use laburi_to.Files.{Form, Multipart, Handles, PdfFile, at_key, get_pdf, close}
use laburi_to.Employee.Files.{CertificationEntry, CertificationUpload}

pub record CertificationItem : Type 0 where
  pub name : String
  pub document : Option String
  pub document_id : Option ℤ

-- 5 << 20
abbrev pub max_upload_size : ℤ
max_upload_size = pos 5242880

-- invalidCertifications, without its text
abbrev pub invalid : GoError
invalid = wrap (sentinel invalid_certifications)

-- The sets names, documentKeys and documentIDs of the loop
pub record Seen : Type 0 where
  pub names : List String
  pub document_keys : List String
  pub document_ids : List ℤ

abbrev pub in_names : List String → String → Bool
in_names texts text = any (λ t. t == text) texts

abbrev pub in_ids : List ℤ → ℤ → Bool
in_ids ids i = any (λ j. j == i) ids

-- An entry whose file is not yet opened, with the key of that file, empty where it has none
pub record Pending : Type 0 where
  pub name : String
  pub keep_file_id : Option ℤ
  pub key : String

unfoldable pub entry_of : Pending → Option (CertificationUpload ℕ) → CertificationEntry ℕ
entry_of p upload = record { name = p.name; keep_file_id = p.keep_file_id; upload = upload }

-- A document_id without a document
unfoldable pub keep_checked : String → Option ℤ → Seen → Result (Pending × Seen)
keep_checked name none seen = ok (record { name = name; keep_file_id = none; key = "" }, seen)
keep_checked name (some i) seen =
    if int_leb i (pos 0) || in_ids seen.document_ids i
    then err invalid
    else ok (
      record { name = name; keep_file_id = some i; key = "" },
      record seen { document_ids = i ∷ seen.document_ids },
    )

-- A new document
unfoldable pub key_checked : String → String → Option ℤ → Seen → Result (Pending × Seen)
key_checked name key (some i) seen = err invalid
key_checked name key none seen =
    if in_names seen.document_keys key
    then err invalid
    else ok (
      record { name = name; keep_file_id = none; key = key },
      record seen { document_keys = key ∷ seen.document_keys },
    )

unfoldable pub origin_checked : String → String → Option ℤ → Seen → Result (Pending × Seen)
unfolding keep_checked key_checked
origin_checked name key document_id seen =
    if key == "" then keep_checked name document_id seen else key_checked name key document_id seen

-- The key of the item's document, empty where it has none
unfoldable pub document_key : (String → String) → Option String → String
document_key trim_space none = ""
document_key trim_space (some key) = trim_space key

abbrev pub nothing_seen : Seen
nothing_seen = record { names = []; document_keys = []; document_ids = [] }

-- Some file of the form belongs to no certification.
unfoldable pub unassociated : Form → List String → Bool
unassociated form keys = any (λ entry. not (in_names keys entry.0)) form.file

module _ (trim_space lower : String → String) where
  unfoldable pub item_checked : CertificationItem → Seen → Result (Pending × Seen)
  unfolding origin_checked document_key
  item_checked item seen =
      let name = trim_space item.name in
      if name == "" || in_names seen.names (lower name)
      then err invalid
      else origin_checked name (document_key trim_space item.document) item.document_id
          (record seen { names = lower name ∷ seen.names })

  unfoldable pub items_checked : List CertificationItem → Seen → Result (List Pending × Seen)
  unfolding item_checked
  items_checked [] seen = ok ([], seen)
  items_checked (item ∷ items) seen = do
    first ← item_checked item seen
    rest ← items_checked items first.1
    ok (first.0 ∷ rest.0, rest.1)

  unfoldable pub with_items : Form → Result (List CertificationItem) → Result (List Pending)
  unfolding items_checked unassociated
  with_items form items = do
    checked ← items >>= λ found. items_checked found nothing_seen
    if unassociated form checked.1.document_keys then err invalid else ok checked.0

  module _ (decode : String → Option (List CertificationItem)) where
    unfoldable pub decoded_items : Option (List CertificationItem) → Result (List CertificationItem)
    decoded_items none = err invalid
    decoded_items (some items) = ok items

    unfoldable pub decode_certification_items : List String → Result (List CertificationItem)
    unfolding decoded_items
    decode_certification_items [] = ok []
    decode_certification_items (value ∷ []) =
        let raw = trim_space value in
        if raw == "" || raw == "null" then ok [] else decoded_items (decode raw)
    decode_certification_items (value ∷ other ∷ values) = err invalid

    -- The entries, before any file is opened
    unfoldable pub pending_entries : Form → Result (List Pending)
    unfolding with_items decode_certification_items
    pending_entries form = elim (at_key "certifications[]" form.value) [
      | [] ↦ with_items form (decode_certification_items (at_key "certifications" form.value))
      | value ∷ values ↦ err invalid
    ]

unfoldable pub close_upload : Option (CertificationUpload ℕ) → Handles → Handles
close_upload none s = s
close_upload (some upload) s = close upload.file s

-- closeCertificationUploads
unfoldable pub close_certification_uploads : List (CertificationEntry ℕ) → Handles → Handles
unfolding close_upload
close_certification_uploads [] s = s
close_certification_uploads (entry ∷ entries) s =
    close_certification_uploads entries (close_upload entry.upload s)

unfoldable pub upload_of : PdfFile → CertificationUpload ℕ
upload_of pdf = record {
  file = pdf.file;
  filename = pdf.filename;
  content_type = pdf.content_type;
  size = pdf.size;
}

-- The entry with the file that GetPDF found for it; a file that is not in the form is an error.
unfoldable pub with_pdf : Pending → Result (Option PdfFile) → Result (CertificationEntry ℕ)
unfolding entry_of upload_of
with_pdf p (err e) = err (wrap e)
with_pdf p (ok none) = err (wrap invalid)
with_pdf p (ok (some pdf)) = ok (entry_of p (some (upload_of pdf)))

module _ (library : Multipart) (form : Form) where
  unfoldable pub open_upload : Pending → Handles → Result (CertificationEntry ℕ) × Handles
  unfolding with_pdf entry_of
  open_upload p s =
      if p.key == ""
      then (ok (entry_of p none), s)
      else (let r = get_pdf library max_upload_size form p.key s in (with_pdf p r.0, r.1))

  -- The loop that opens the files, after the entries `done`
  unfoldable pub open_uploads :
      List (CertificationEntry ℕ)
      → List Pending
      → Handles
      → Result (List (CertificationEntry ℕ)) × Handles
  unfolding open_upload close_certification_uploads
  open_uploads done [] s = (ok done, s)
  open_uploads done (p ∷ rest) s =
      let r = open_upload p s in
      elim r.0 [
        | err e ↦ (err e, close_certification_uploads done r.1)
        | ok entry ↦ open_uploads (done ++ entry ∷ []) rest r.1
      ]

  unfoldable pub open_pending :
      Result (List Pending) → Handles → Result (List (CertificationEntry ℕ)) × Handles
  unfolding open_uploads
  open_pending (err e) s = (err e, s)
  open_pending (ok entries) s = open_uploads [] entries s

  -- parseCertificationsForm
  unfoldable pub parse_certifications_form :
      (String → String)
      → (String → String)
      → (String → Option (List CertificationItem))
      → Handles
      → Result (List (CertificationEntry ℕ)) × Handles
  unfolding open_pending pending_entries
  parse_certifications_form trim_space lower decode s =
      open_pending (pending_entries trim_space lower decode form) s
