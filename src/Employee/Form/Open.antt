-- ===== src/Employee/Form/Open.antt =====
-- Which files parseCertificationsForm leaves open.
use laburi_to.Base.{
  ℕ, String, ◌≡◌, refl, ap, ◌∙◌, subst, sym, Bool-cases, inl, inr, Option, none, some, List, [],
  ◌∷◌, ◌++◌, ◌==◌, string_eq,
}
use laburi_to.Errors.{Result, ok, err, Result-cases}
use laburi_to.Files.{Form, Multipart, Handles, PdfFile, get_pdf}
use laburi_to.Files.Opened.{
  Opens, IsFresh, Opens-none, Opens-append, Opens-IsFresh, Opens-close_all, close_all,
}
use laburi_to.Files.Pdf.{held, get_pdf-Opens}
use laburi_to.Employee.Files.{CertificationEntry, CertificationUpload}
use laburi_to.Employee.Form.{
  Pending, CertificationItem, max_upload_size, close_upload, close_certification_uploads, with_pdf,
  open_upload, open_uploads, open_pending, parse_certifications_form, pending_entries, entry_of,
  upload_of,
}

abbrev pub held_by : Option (CertificationUpload ℕ) → List ℕ
held_by none = []
held_by (some upload) = upload.file ∷ []

-- The files of these entries
abbrev pub files_held : List (CertificationEntry ℕ) → List ℕ
files_held [] = []
files_held (entry ∷ entries) = held_by entry.upload ++ files_held entries

abbrev pub left_open : Result (List (CertificationEntry ℕ)) → List ℕ
left_open (err e) = []
left_open (ok entries) = files_held entries

append_assoc : (xs ys zs : List ℕ) → (xs ++ ys) ++ zs ≡ xs ++ (ys ++ zs)
append_assoc [] ys zs = refl
append_assoc (x ∷ xs) ys zs = ap (λ l. x ∷ l) (append_assoc xs ys zs)

append_nil : (xs : List ℕ) → xs ++ [] ≡ xs
append_nil [] = refl
append_nil (x ∷ xs) = ap (λ l. x ∷ l) (append_nil xs)

files_held-append_last :
    (entries : List (CertificationEntry ℕ)) (entry : CertificationEntry ℕ)
    → files_held entries ++ held_by entry.upload ≡ files_held (entries ++ entry ∷ [])
files_held-append_last [] entry = sym (append_nil (held_by entry.upload))
files_held-append_last (e ∷ entries) entry =
    append_assoc (held_by e.upload) (files_held entries) (held_by entry.upload)
    ∙ ap (λ l. held_by e.upload ++ l) (files_held-append_last entries entry)

closes :
    (upload : Option (CertificationUpload ℕ)) (files : List ℕ) (s : Handles)
    → close_all files (close_upload upload s) ≡ close_all (held_by upload ++ files) s
unfolding close_upload
closes none files s = refl
closes (some upload) files s = refl

close_certification_uploads-close_all :
    (entries : List (CertificationEntry ℕ)) (s : Handles)
    → close_certification_uploads entries s ≡ close_all (files_held entries) s
unfolding close_certification_uploads
close_certification_uploads-close_all [] s = refl
close_certification_uploads-close_all (entry ∷ entries) s =
    close_certification_uploads-close_all entries (close_upload entry.upload s)
    ∙ closes entry.upload (files_held entries) s

abbrev opened_by : Result (CertificationEntry ℕ) → List ℕ
opened_by (err e) = []
opened_by (ok entry) = held_by entry.upload

held-with_pdf : (p : Pending) (r : Result (Option PdfFile)) → held r ≡ opened_by (with_pdf p r)
unfolding with_pdf entry_of upload_of
held-with_pdf p (err e) = refl
held-with_pdf p (ok none) = refl
held-with_pdf p (ok (some pdf)) = refl

module _ (library : Multipart) (form : Form) where
  open_upload-Opens :
      (p : Pending) (s : Handles)
      → IsFresh s
      → let r = open_upload library form p s in Opens s (opened_by r.0) r.1
  unfolding open_upload entry_of
  open_upload-Opens p s fresh = elim (Bool-cases (p.key == "")) [
    | inl e ↦ rw e (Opens-none s)
    | inr e ↦ rw e (
        subst (λ files. Opens s files (get_pdf library max_upload_size form p.key s).1)
          (held-with_pdf p (get_pdf library max_upload_size form p.key s).0)
          (get_pdf-Opens library max_upload_size s fresh form p.key))
  ]

  module _ (s : Handles) (fresh : IsFresh s) where
    open_uploads-Opens :
        (done : List (CertificationEntry ℕ)) (rest : List Pending) (s1 : Handles)
        → Opens s (files_held done) s1
        → let r = open_uploads library form done rest s1 in Opens s (left_open r.0) r.1
    unfolding open_uploads
    open_uploads-Opens done [] s1 o = o
    open_uploads-Opens done (p ∷ rest) s1 o =
        let r : Result (CertificationEntry ℕ) × Handles = open_upload library form p s1 in
        let both : (x : Result (CertificationEntry ℕ))
            → r.0 ≡ x
            → Opens s (files_held done ++ opened_by x) r.1 =
          λ x e.
            subst (λ x. Opens s (files_held done ++ opened_by x) r.1) e
              (Opens-append s (files_held done) s1 (opened_by r.0) r.1 o
                (open_upload-Opens p s1 (Opens-IsFresh s (files_held done) s1 fresh o))) in
        elim (Result-cases r.0) [
          | inl (e, at) ↦
              rw (at, open_uploads)
                (subst (Opens s []) (sym (close_certification_uploads-close_all done r.1)) (
                  Opens-close_all s (files_held done) r.1 fresh
                    (subst (λ l. Opens s l r.1) (append_nil (files_held done)) (both (err e) at))))
          | inr (entry, at) ↦
              rw (at, open_uploads)
                (open_uploads-Opens (done ++ entry ∷ []) rest r.1 (
                  subst (λ l. Opens s l r.1) (files_held-append_last done entry)
                    (both (ok entry) at)))
        ]

    open_pending-Opens :
        (entries : Result (List Pending))
        → let r = open_pending library form entries s in Opens s (left_open r.0) r.1
    unfolding open_pending
    open_pending-Opens (err e) = Opens-none s
    open_pending-Opens (ok entries) = open_uploads-Opens [] entries s (Opens-none s)

    -- After parseCertificationsForm, the files that were open before are open, and beyond them those of
    -- the entries that it returns and no other: where it returns an error, none.
    pub parse_certifications_form-Opens :
        (trim_space lower : String → String) (decode : String → Option (List CertificationItem))
        → let r = parse_certifications_form library form trim_space lower decode s in
          Opens s (left_open r.0) r.1
    unfolding parse_certifications_form
    parse_certifications_form-Opens trim_space lower decode =
        open_pending-Opens (pending_entries trim_space lower decode form)
