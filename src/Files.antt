-- ===== src/Files.antt =====
-- GetPDF of internal/files/get_pdf_file.go, with the files of a form that are open. A file is a number
-- that its opening gives it, so that two openings of one header are two files.
pub mod Opened
pub mod Pdf
use laburi_to.Base.{
  ℕ, ℤ, String, Bool, true, false, not, ◌+◌, Option, none, some, List, [], ◌∷◌, ◌==◌, nat_eq,
  string_eq, int_leb, any, keep, if◌then◌else◌,
}
use laburi_to.Errors.{
  GoError, Result, ok, err, sentinel, invalid_file, file_too_large, unsupported_file_type,
}

-- *multipart.FileHeader; `content_type` is its header Content-Type
pub record FileHeader : Type 0 where
  pub filename : String
  pub content_type : String
  pub size : ℤ

-- *multipart.Form: its two maps, as association lists
pub record Form : Type 0 where
  pub value : List (String × List String)
  pub file : List (String × List FileHeader)

-- The value of a map of lists at a key: nil where the key is missing
unfoldable pub at_key {ℓ} : {A : Type ℓ} → String → List (String × List A) → List A
at_key key [] = []
at_key key ((k, values) ∷ rest) = let found = at_key key rest in if k == key then values else found

-- What mime/multipart, mime and net/http answer for a header and the file that opening it gives:
-- whether Open succeeds, the media type that is parsed, the bytes that Read gives, what they are
-- detected to be, and whether Seek succeeds.
pub record Multipart : Type 0 where
  pub opens : ℕ → FileHeader → Bool
  pub parse_media_type : String → Option String
  pub read : ℕ → FileHeader → Option String
  pub detect_content_type : String → String
  pub seek_start : ℕ → FileHeader → Bool

-- The number of the next file, and the files that are open
pub record Handles : Type 0 where
  pub next : ℕ
  pub open_files : List ℕ

pub record PdfFile : Type 0 where
  pub file : ℕ
  pub filename : String
  pub content_type : String
  pub size : ℤ

unfoldable pub close : ℕ → Handles → Handles
close i s = record s { open_files = keep (λ j. not (j == i)) s.open_files }

unfoldable pub failed : GoError → ℕ → Handles → Result (Option PdfFile) × Handles
unfolding close
failed e i s = (err e, close i s)

module _ (library : Multipart) (max_size : ℤ) where
  -- The start of an open file of the given media type, as it is read
  unfoldable pub detected :
      ℕ → FileHeader → String → Option String → Handles → Result (Option PdfFile) × Handles
  unfolding failed
  detected i h media_type none s = failed (sentinel invalid_file) i s
  detected i h media_type (some bytes) s =
      if library.detect_content_type bytes == "application/pdf"
      then if library.seek_start i h
        then (
          ok (
              some (record {
                file = i;
                filename = h.filename;
                content_type = media_type;
                size = h.size;
              })),
          s,
        )
        else failed (sentinel invalid_file) i s
      else failed (sentinel unsupported_file_type) i s

  unfoldable pub typed :
      ℕ → FileHeader → Option String → Handles → Result (Option PdfFile) × Handles
  unfolding failed detected
  typed i h none s = failed (sentinel unsupported_file_type) i s
  typed i h (some media_type) s =
      if media_type == "application/pdf"
      then detected i h media_type (library.read i h) s
      else failed (sentinel unsupported_file_type) i s

  unfoldable pub sized : ℕ → FileHeader → Handles → Result (Option PdfFile) × Handles
  unfolding failed typed
  sized i h s =
      if int_leb h.size max_size
      then typed i h (library.parse_media_type h.content_type) s
      else failed (sentinel file_too_large) i s

  unfoldable pub open_pdf : FileHeader → Handles → Result (Option PdfFile) × Handles
  unfolding sized
  open_pdf h s =
      if library.opens s.next h
      then sized s.next h (record { next = s.next + 1; open_files = s.next ∷ s.open_files })
      else (err (sentinel invalid_file), s)

  unfoldable pub get_pdf_from : List FileHeader → Handles → Result (Option PdfFile) × Handles
  unfolding open_pdf
  get_pdf_from [] s = (ok none, s)
  get_pdf_from (h ∷ []) s = open_pdf h s
  get_pdf_from (h ∷ g ∷ hs) s = (err (sentinel invalid_file), s)

  -- GetPDF
  unfoldable pub get_pdf : Form → String → Handles → Result (Option PdfFile) × Handles
  unfolding get_pdf_from at_key
  get_pdf form key = get_pdf_from (at_key key form.file)
