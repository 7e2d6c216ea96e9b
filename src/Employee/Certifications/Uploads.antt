-- ===== src/Employee/Certifications/Uploads.antt =====
-- What the uploads of the certificates leave in the storage, whether they go on or stop.
use mathlib.Core.List.{append-nil, append_assoc, map-append}
use laburi_to.Base.{◌≡◌, refl, sym, ap, ◌∙◌, Option, none, some, List, [], ◌∷◌, ◌++◌, map}
use laburi_to.Errors.{Result, ok, err}
use laburi_to.Employee.Files.{
  CertificationUpload, CertificationEntry, EmployeeFileMetadata, RemovedFile, Storage, UploadOutput,
  location,
}
use laburi_to.Employee.Certifications.{
  cleanup_uploaded_certifications, upload_certifications, upload_one, uploaded, metadata, go_on,
}

-- Since `before`, the files of `new` were uploaded: they are among the metadata where the uploads go
-- on, and otherwise all that was uploaded is asked to be deleted.
abbrev pub IsUploaded :
    List EmployeeFileMetadata → Storage → Result (List EmployeeFileMetadata) → Storage → Type 0
IsUploaded files before (ok files') after =
    (new : List RemovedFile) × (after.stored ≡ before.stored ++ new)
    × (map location files' ≡ map location files ++ new)
    × (after.removals ≡ before.removals)
IsUploaded files before (err e) after =
    (new : List RemovedFile) × (after.stored ≡ before.stored ++ new)
    × (after.removals ≡ before.removals ++ (map location files ++ new))

extended :
    {ls bs : List RemovedFile} (cs xs ys : List RemovedFile)
    → ls ≡ bs ++ ys
    → bs ≡ cs ++ xs
    → ls ≡ cs ++ (xs ++ ys)
extended cs xs ys h k = h ∙ ap (λ l. l ++ ys) k ∙ append_assoc cs xs ys

module _ {F : Type 0} (upload : CertificationUpload F → Storage → Result UploadOutput) where
  uploaded-IsUploaded :
      (name : _) (u : CertificationUpload F) (files : List EmployeeFileMetadata) (s : Storage)
      (o : Result UploadOutput)
      → let r = uploaded upload name u files s o in IsUploaded files s r.0 r.1
  unfolding uploaded cleanup_uploaded_certifications metadata
  uploaded-IsUploaded name u files s (err e) =
      ([], sym (append-nil _), ap (λ fs. s.removals ++ fs) (sym (append-nil _)))
  uploaded-IsUploaded name u files s (ok out) = (_, refl, map-append location files _, refl)

  upload_one-IsUploaded :
      (name : _) (o : Option (CertificationUpload F)) (files : List EmployeeFileMetadata)
      (s : Storage)
      → let r = upload_one upload name o files s in IsUploaded files s r.0 r.1
  unfolding upload_one
  upload_one-IsUploaded name none files s = ([], sym (append-nil _), sym (append-nil _), refl)
  upload_one-IsUploaded name (some u) files s = uploaded-IsUploaded name u files s (upload u s)

  then-IsUploaded :
      (files : List EmployeeFileMetadata) (before : Storage)
      (k : List EmployeeFileMetadata → Storage → Result (List EmployeeFileMetadata) × Storage)
      (r : Result (List EmployeeFileMetadata)) (s : Storage)
      → ((files' : List EmployeeFileMetadata) (s' : Storage)
          → IsUploaded files' s' (k files' s').0 (k files' s').1)
      → IsUploaded files before r s
      → IsUploaded files before (go_on upload k (r, s)).0 (go_on upload k (r, s)).1
  then-IsUploaded files before k (err e) s h u = u
  then-IsUploaded files before k (ok files') s h (new, stored, known, kept) =
      joined (k files' s).0 (k files' s).1 (h files' s)
    where
      joined :
          (r : Result (List EmployeeFileMetadata)) (after : Storage)
          → IsUploaded files' s r after
          → IsUploaded files before r after
      joined (err e) after (more, stored', removals') = (
        new ++ more,
        extended before.stored new more stored' stored,
        removals'
            ∙ rw (kept, known)
                (ap (λ fs. before.removals ++ fs) (append_assoc (map location files) new more)),
      )
      joined (ok files'') after (more, stored', known', kept') = (
        new ++ more,
        extended before.stored new more stored' stored,
        extended (map location files) new more known' known,
        kept' ∙ kept,
      )

  pub upload_certifications-IsUploaded :
      (cs : List (CertificationEntry F)) (files : List EmployeeFileMetadata) (s : Storage)
      → let r = upload_certifications upload cs files s in IsUploaded files s r.0 r.1
  unfolding upload_certifications
  upload_certifications-IsUploaded [] files s = ([], sym (append-nil _), sym (append-nil _), refl)
  upload_certifications-IsUploaded (c ∷ cs) files s =
      then-IsUploaded files s _ _ _ (upload_certifications-IsUploaded cs)
        (upload_one-IsUploaded c.name c.upload files s)
