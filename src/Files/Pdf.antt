-- ===== src/Files/Pdf.antt =====
-- Which files GetPDF leaves open: the one that it returns, and no other.
use laburi_to.Base.{
  ℕ, ◌+◌, ℤ, String, Option, none, some, List, [], ◌∷◌, ◌==◌, string_eq, nat_eq, int_leb,
  Bool-cases, inl, inr, any, arith,
}
use laburi_to.Errors.{Result, ok, err}
use laburi_to.Files.{
  at_key, Handles, PdfFile, failed, detected, typed, sized, open_pdf, get_pdf_from, get_pdf,
  Multipart, FileHeader, Form, close,
}
use laburi_to.Files.Opened.{Opens, IsFresh, Opens-none, Opens-close_all}

abbrev pub held : Result (Option PdfFile) → List ℕ
held (err e) = []
held (ok none) = []
held (ok (some pdf)) = pdf.file ∷ []

module _ (library : Multipart) (max_size : ℤ) (s : Handles) (fresh : IsFresh s) where
  -- what a check does with an open file, where only that one was opened
  abbrev Leaves : Result (Option PdfFile) × Handles → Type 0
  Leaves r = Opens s (held r.0) r.1

  module _ (i : ℕ) (h : FileHeader) (s' : Handles) (o : Opens s (i ∷ []) s') where
    closed : Opens s [] (close i s')
    closed = Opens-close_all s (i ∷ []) s' fresh o

    detected-Leaves :
        (media_type : String) (bytes : Option String)
        → Leaves (detected library max_size i h media_type bytes s')
    unfolding detected failed
    detected-Leaves media_type none = closed
    detected-Leaves media_type (some bytes) =
        elim (Bool-cases (library.detect_content_type bytes == "application/pdf")) [
          | inl e ↦ elim (Bool-cases (library.seek_start i h)) [
            | inl f ↦ rw (e, f) o
            | inr f ↦ rw (e, f) closed
          ]
          | inr e ↦ rw e closed
        ]

    typed-Leaves : (o : Option String) → Leaves (typed library max_size i h o s')
    unfolding typed failed
    typed-Leaves none = closed
    typed-Leaves (some media_type) = elim (Bool-cases (media_type == "application/pdf")) [
      | inl e ↦ rw e (detected-Leaves media_type (library.read i h))
      | inr e ↦ rw e closed
    ]

    sized-Leaves : Leaves (sized library max_size i h s')
    unfolding sized failed
    sized-Leaves = elim (Bool-cases (int_leb h.size max_size)) [
      | inl e ↦ rw e (typed-Leaves (library.parse_media_type h.content_type))
      | inr e ↦ rw e closed
    ]

  just_opened :
      Opens s (s.next ∷ []) (record { next = s.next + 1; open_files = s.next ∷ s.open_files })
  unfolding any
  just_opened = record {
    grown = omega arith;
    same = λ j. ground arith;
    recent = λ j h. ground (arith, h);
  }

  open_pdf-Leaves : (h : FileHeader) → Leaves (open_pdf library max_size h s)
  unfolding open_pdf
  open_pdf-Leaves h = elim (Bool-cases (library.opens s.next h)) [
    | inl e ↦ rw e (sized-Leaves s.next h _ just_opened)
    | inr e ↦ rw e (Opens-none s)
  ]

  get_pdf_from-Leaves : (hs : List FileHeader) → Leaves (get_pdf_from library max_size hs s)
  unfolding get_pdf_from
  get_pdf_from-Leaves [] = Opens-none s
  get_pdf_from-Leaves (h ∷ []) = open_pdf-Leaves h
  get_pdf_from-Leaves (h ∷ g ∷ hs) = Opens-none s

  pub get_pdf-Opens :
      (form : Form) (key : String)
      → let r = get_pdf library max_size form key s in Opens s (held r.0) r.1
  unfolding get_pdf
  get_pdf-Opens form key = get_pdf_from-Leaves (at_key key form.file)
