-- ===== src/Employee/Education/Closed.antt =====
-- Which files getEducationDocumentsFromForm leaves open: none, not even those that it returns.
use laburi_to.Base.{
  ℕ, ◌+◌, String, ◌≡◌, refl, ap, ◌∙◌, subst, sym, true, false, ◌||◌, Bool-cases, inl, inr, Option,
  none, some, List, [], ◌∷◌, ◌++◌, ◌==◌, string_eq, nat_eq, any, any-append, All, All-append, ◌≤◌,
  arith,
}
use laburi_to.Errors.{Result, ok, err, Result-cases}
use laburi_to.Files.{Form, Multipart, Handles, PdfFile, get_pdf}
use laburi_to.Files.Opened.{
  Opens, IsFresh, is_open, among, Opens-none, Opens-append, Opens-IsFresh, Opens-close_all,
  close_all,
}
use laburi_to.Files.Pdf.{held, get_pdf-Opens}
use laburi_to.Employee.Form.{max_upload_size}
use laburi_to.Employee.Steps.{EmployeeEducationTitles}
use laburi_to.Employee.Education.{
  EducationDocumentUpload, close_deferred, document_upload, files_of, found_document,
  education_document_file_key, open_document, documents_from, get_education_documents_from_form,
}

swapped : (j : ℕ) (fs gs : List ℕ) → among j (fs ++ gs) ≡ among j (gs ++ fs)
swapped j fs gs = rw (any-append (λ i. i == j) fs gs, any-append (λ i. i == j) gs fs) (ground arith)

Opens-swap :
    (s : Handles) (fs gs : List ℕ) (s' : Handles) → Opens s (fs ++ gs) s' → Opens s (gs ++ fs) s'
Opens-swap s fs gs s' o = record {
  grown = o.grown;
  same = λ j. o.same j ∙ ap (λ b. is_open j s || b) (swapped j fs gs);
  recent = λ j h. o.recent j (swapped j fs gs ∙ h);
}

close_deferred-close_all :
    (files : List ℕ) (s : Handles) → close_deferred files s ≡ close_all files s
unfolding close_deferred
close_deferred-close_all [] s = refl
close_deferred-close_all (file ∷ files) s = close_deferred-close_all files _

abbrev pub documents_of : Result (List EducationDocumentUpload) → List EducationDocumentUpload
documents_of (err e) = []
documents_of (ok documents) = documents

held-found_document :
    (index : ℕ) (r : Result (Option PdfFile))
    → held r ≡ files_of (documents_of (found_document index r))
unfolding found_document document_upload
held-found_document index (err e) = refl
held-found_document index (ok none) = refl
held-found_document index (ok (some pdf)) = refl

-- The file of each document is not older than `s`.
abbrev AreRecent : Handles → List EducationDocumentUpload → Type 0
AreRecent s documents = All (λ document. s.next ≤ document.file) documents

recent-AreRecent :
    (n : ℕ) (documents : List EducationDocumentUpload)
    → ((j : ℕ) → among j (files_of documents) ≡ true → n ≤ j)
    → All (λ document. n ≤ document.file) documents
unfolding any
recent-AreRecent n [] h = tt
recent-AreRecent n (document ∷ documents) h =
    (h document.file (ground arith), recent-AreRecent n documents (λ j e. h j (ground (arith, e))))

module _ (trim_space : String → String) (library : Multipart) (form : Form) where
  open_document-Opens :
      (index : ℕ) (education : EmployeeEducationTitles) (s : Handles)
      → IsFresh s
      → let r = open_document trim_space library form index education s in
        Opens s (files_of (documents_of r.0)) r.1
  unfolding open_document
  open_document-Opens index education s fresh =
      let key : String = education_document_file_key trim_space library form education.document in
      elim (Bool-cases (key == "")) [
        | inl e ↦ rw e (Opens-none s)
        | inr e ↦ rw e (
            subst (λ files. Opens s files (get_pdf library max_upload_size form key s).1)
              (held-found_document index (get_pdf library max_upload_size form key s).0)
              (get_pdf-Opens library max_upload_size s fresh form key))
      ]

  module _ (s : Handles) (fresh : IsFresh s) where
    -- From the loop on, every file that is open is closed, and the documents are among them.
    documents_from-Opens :
        (index : ℕ) (deferred : List ℕ) (documents : List EducationDocumentUpload)
        (titles : List EmployeeEducationTitles) (s1 : Handles)
        → Opens s deferred s1
        → AreRecent s documents
        → let r = documents_from trim_space library form index deferred documents titles s1 in
          Opens s [] r.1 × AreRecent s (documents_of r.0)
    unfolding documents_from
    documents_from-Opens index deferred documents [] s1 o recent = (
      subst (Opens s []) (sym (close_deferred-close_all deferred s1))
          (Opens-close_all s deferred s1 fresh o),
      recent,
    )
    documents_from-Opens index deferred documents (education ∷ titles) s1 o recent =
        let r : Result (List EducationDocumentUpload) × Handles =
          open_document trim_space library form index education s1 in
        let new : Opens s1 (files_of (documents_of r.0)) r.1 =
          open_document-Opens index education s1 (Opens-IsFresh s deferred s1 fresh o) in
        let both : (x : Result (List EducationDocumentUpload))
            → r.0 ≡ x
            → Opens s (files_of (documents_of x) ++ deferred) r.1 =
          λ x e.
            subst (λ x. Opens s (files_of (documents_of x) ++ deferred) r.1) e
              (Opens-swap s deferred (files_of (documents_of r.0)) r.1
                (Opens-append s deferred s1 (files_of (documents_of r.0)) r.1 o new)) in
        elim (Result-cases r.0) [
          | inl (e, at) ↦
              rw (at, documents_from)
                (
                  subst (Opens s []) (sym (close_deferred-close_all deferred r.1))
                      (Opens-close_all s deferred r.1 fresh (both (err e) at)),
                  tt,
                )
          | inr (found, at) ↦
              rw (at, documents_from)
                (documents_from-Opens (index + 1) (files_of found ++ deferred) (documents ++ found)
                  titles r.1 (both (ok found) at)
                  (All-append _ documents found recent (
                    recent-AreRecent s.next found (λ j h. omega (
                      arith,
                      o.grown,
                      (new.recent j
                          (subst (λ x. among j (files_of (documents_of x)) ≡ true) (sym at) h)).0,
                    )))))
        ]

    closed-All :
        (s2 : Handles) (documents : List EducationDocumentUpload)
        → Opens s [] s2
        → AreRecent s documents
        → All (λ document. is_open document.file s2 ≡ false) documents
    unfolding any
    closed-All s2 [] o recent = tt
    closed-All s2 (document ∷ documents) o (here, recent) = (
      o.same document.file ∙ (elim (Bool-cases (is_open document.file s)) [
        | inl e ↦ ground (arith, here, fresh document.file e)
        | inr e ↦ rw e refl
      ]),
      closed-All s2 documents o recent,
    )

    -- After getEducationDocumentsFromForm the files that were open before are open, and no other: each
    -- file of a document that it returns is already closed.
    pub get_education_documents_from_form-closed :
        (titles : List EmployeeEducationTitles)
        → let r = get_education_documents_from_form trim_space library form titles s in
          Opens s [] r.1 × All (λ document. is_open document.file r.1 ≡ false) (documents_of r.0)
    unfolding get_education_documents_from_form
    get_education_documents_from_form-closed titles =
        let r : Result (List EducationDocumentUpload) × Handles =
          documents_from trim_space library form 0 [] [] titles s in
        let done : Opens s [] r.1 × AreRecent s (documents_of r.0) =
          documents_from-Opens 0 [] [] titles s (Opens-none s) tt in
        (done.0, closed-All r.1 (documents_of r.0) done.0 done.1)
