-- ===== src/Employee/Certifications/Tidy.antt =====
-- No upload of a refused change of the base step is left behind.
use mathlib.Core.List.{append-nil}
use laburi_to.Base.{
  subst, ℤ, ◌≡◌, refl, sym, ap, ◌∙◌, Bool, Bool-cases, inl, inr, Option, List, [], ◌++◌, map, any,
}
use laburi_to.Errors.{Result, ok, err}
use laburi_to.Database.Connection.{Connection, M}
use laburi_to.Recommendation.Publisher.{World, Request}
use laburi_to.Recommendation.Service.{Principal, role_employee}
use laburi_to.Recommendation.Service.Access.{role_read}
use laburi_to.Employee.Files.{
  CreateEmployeeRequest, CertificationUpload, CertificationEntry, EmployeeFileMetadata,
  EmployeeWriter, RemovedFile, Storage, Site, UploadOutput, location,
}
use laburi_to.Employee.Certifications.{
  keeps_file, cleanup_uploaded_certifications, cleanup_removed, kept_files, with_files, authorized,
  created, updated, profile_changed, create_checked, create_employee, update_employee,
}
use laburi_to.Employee.Certifications.Uploads.{IsUploaded, upload_certifications-IsUploaded}

-- What a change of the base step does to the storage: the files of `new` are uploaded. Where the
-- change fails all of them are asked to be deleted, and nothing else. Where it succeeds the store
-- was asked with their metadata and answered `a`, and what is asked to be deleted is `removed a`.
abbrev pub IsTidy :
    {A : Type 0}
    → (List EmployeeFileMetadata → Result A)
    → (A → List RemovedFile)
    → Storage
    → Result (Unit {0})
    → Storage
    → Type 0
IsTidy asked removed before (err e) after =
    (new : List RemovedFile) × (after.stored ≡ before.stored ++ new)
    × (after.removals ≡ before.removals ++ new)
IsTidy {A} asked removed before (ok _) after =
    (files : List EmployeeFileMetadata) × (after.stored ≡ before.stored ++ map location files)
    × (a : A) × (asked files ≡ ok a)
    × (after.removals ≡ before.removals ++ removed a)

module _ {F : Type 0} (upload : CertificationUpload F → Storage → Result UploadOutput) where
  module _ {Q : Type 0} (store : EmployeeWriter) (is_profile_complete : ℤ → M Bool)
      (publisher : Option (ℤ → Request Q)) where
    updated-IsTidy :
        (i : ℤ) (request : CreateEmployeeRequest) (kept : _) (files : List EmployeeFileMetadata)
        (before s : Storage) (q : Q) (c0 : Connection) (r : Result (List RemovedFile))
        (c : Connection)
        → (store.update_employee i request kept files c0).0 ≡ r
        → s.stored ≡ before.stored ++ map location files
        → s.removals ≡ before.removals
        → let done = updated upload store is_profile_complete publisher i files s q (r, c) in
          IsTidy
            (λ files. (store.update_employee i request kept files c0).0)
            (λ removed. removed)
            before
            done.0
            done.1.storage
    unfolding updated cleanup_uploaded_certifications cleanup_removed profile_changed
    updated-IsTidy i request kept files before s q c0 (err e) c asked stored same =
        (_, stored, ap (λ l. l ++ map location files) same)
    updated-IsTidy i request kept files before s q c0 (ok removed) c asked stored same =
        (files, stored, removed, asked, ap (λ l. l ++ removed) same)

    with_files-IsTidy :
        {A : Type 0} (asked : List EmployeeFileMetadata → Result A) (removed : A → List RemovedFile)
        (k : List EmployeeFileMetadata → Storage → Result (Unit {0}) × Site Q) (w : World Q)
        (before : Storage) (r : Result (List EmployeeFileMetadata)) (s : Storage)
        → IsUploaded [] before r s
        → ((files : List EmployeeFileMetadata) (s' : Storage)
            → s'.stored ≡ before.stored ++ map location files
            → s'.removals ≡ before.removals
            → IsTidy asked removed before (k files s').0 (k files s').1.storage)
        → let done = with_files upload store is_profile_complete publisher k w (r, s) in
          IsTidy asked removed before done.0 done.1.storage
    with_files-IsTidy asked removed k w before (err e) s (new, stored, gone) h = (new, stored, gone)
    with_files-IsTidy asked removed k w before (ok files) s (new, stored, known, same) h =
        h files s (stored ∙ ap (λ l. before.stored ++ l) (sym known)) same

    -- An update of the base step that fails asks for the deletion of exactly the files that it
    -- uploaded. One that succeeds has uploaded exactly the files whose metadata the store was given,
    -- and asks for the deletion of exactly those that the store answers as removed.
    pub update_employee-IsTidy :
        (i : ℤ) (request : CreateEmployeeRequest) (certifications : List (CertificationEntry F))
        (site : Site Q)
        → let done =
            update_employee upload store is_profile_complete publisher i request certifications
              site in
          IsTidy
            (λ files.
              (store.update_employee i request
                (kept_files certifications)
                files
                site.world.connection).0)
            (λ removed. removed)
            site.storage
            done.0
            done.1.storage
    unfolding update_employee
    update_employee-IsTidy i request certifications site =
        with_files-IsTidy _ _ _ site.world site.storage _ _
          (upload_certifications-IsUploaded upload certifications [] site.storage)
          (λ files s stored same.
            updated-IsTidy i request (kept_files certifications) files site.storage s
              site.world.queue site.world.connection _ _ refl stored same)

    created-IsTidy :
        (request : CreateEmployeeRequest) (user_id : ℤ) (files : List EmployeeFileMetadata)
        (before s : Storage) (q : Q) (c0 : Connection) (r : Result ℤ) (c : Connection)
        → (store.create_employee request user_id files c0).0 ≡ r
        → s.stored ≡ before.stored ++ map location files
        → s.removals ≡ before.removals
        → let done = created upload store is_profile_complete publisher files s q (r, c) in
          IsTidy
            (λ files. (store.create_employee request user_id files c0).0)
            (λ _. [])
            before
            done.0
            done.1.storage
    unfolding created cleanup_uploaded_certifications profile_changed
    created-IsTidy request user_id files before s q c0 (err e) c asked stored same =
        (_, stored, ap (λ l. l ++ map location files) same)
    created-IsTidy request user_id files before s q c0 (ok i) c asked stored same =
        (files, stored, i, asked, same ∙ sym (append-nil _))

    create_checked-IsTidy :
        (request : CreateEmployeeRequest) (user_id : ℤ)
        (certifications : List (CertificationEntry F)) (site : Site Q) (c : Connection)
        → let done =
            create_checked upload store is_profile_complete publisher request user_id certifications
              site c in
          IsTidy
            (λ files. (store.create_employee request user_id files c).0)
            (λ _. [])
            site.storage
            done.0
            done.1.storage
    unfolding create_checked
    create_checked-IsTidy request user_id certifications site c =
        elim (Bool-cases (any keeps_file certifications)) [
          | inl e ↦ rw e ([], sym (append-nil _), sym (append-nil _))
          | inr e ↦ rw e (
              with_files-IsTidy (λ files. (store.create_employee request user_id files c).0)
                (λ _. [])
                (λ files s.
                  created upload store is_profile_complete publisher files s site.world.queue
                    (store.create_employee request user_id files c))
                site.world site.storage _ _
                (upload_certifications-IsUploaded upload certifications [] site.storage)
                (λ files s stored same.
                  created-IsTidy request user_id files site.storage s site.world.queue c _ _ refl
                    stored same))
        ]

    authorized-IsTidy :
        {A : Type 0} (asked : List EmployeeFileMetadata → Result A) (removed : A → List RemovedFile)
        (k : Connection → Result (Unit {0}) × Site Q) (site : Site Q) (r : Result (Unit {0}))
        (c0 c : Connection)
        → c ≡ c0
        → IsTidy asked removed site.storage (k c0).0 (k c0).1.storage
        → let done = authorized upload store is_profile_complete publisher k site (r, c) in
          IsTidy asked removed site.storage done.0 done.1.storage
    authorized-IsTidy asked removed k site (err e) c0 c same h =
        ([], sym (append-nil _), sym (append-nil _))
    authorized-IsTidy asked removed k site (ok _) c0 c same h =
        subst (λ c'. IsTidy asked removed site.storage (k c').0 (k c').1.storage) (sym same) h

    -- A creation of the base step that fails asks for the deletion of exactly the files that it
    -- uploaded. One that succeeds has uploaded exactly the files whose metadata the store was given,
    -- and asks for no deletion.
    pub create_employee-IsTidy :
        (request : CreateEmployeeRequest) (principal : Principal)
        (certifications : List (CertificationEntry F)) (site : Site Q)
        → let done =
            create_employee upload store is_profile_complete publisher request principal
              certifications site in
          IsTidy
            (λ files.
              (store.create_employee request principal.user_id files site.world.connection).0)
            (λ _. [])
            site.storage
            done.0
            done.1.storage
    unfolding create_employee
    create_employee-IsTidy request principal certifications site =
        let c = site.world.connection in
        authorized-IsTidy (λ files. (store.create_employee request principal.user_id files c).0)
          (λ _. [])
          (create_checked upload store is_profile_complete publisher request principal.user_id
            certifications site)
          site _ c _ (role_read principal.role role_employee c)
          (create_checked-IsTidy request principal.user_id certifications site c)
