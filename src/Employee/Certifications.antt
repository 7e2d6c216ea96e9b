-- ===== src/Employee/Certifications.antt =====
-- The base step of a profile with its certificates: CreateEmployee and UpdateEmployee of
-- internal/employee/crud_employee.go, over any store.
-- `upload` is the Upload of the object storage, whose answer may depend on what is stored. A deletion
-- that a goroutine of cleanupOrphanFile asks for is an entry of `removals`.
pub mod Uploads
pub mod Tidy
use laburi_to.Base.{
  ℤ, String, Bool, true, false, Option, none, some, List, [], ◌∷◌, ◌++◌, map, any, if◌then◌else◌,
}
use laburi_to.Errors.{GoError, Result, ok, err, sentinel, wrap, invalid_certifications}
use laburi_to.Database.Connection.{Connection, M}
use laburi_to.Recommendation.Publisher.{World, Request}
use laburi_to.Recommendation.Service.{Principal, role_employee, authorize_profile_role}
use laburi_to.Employee.Events.{publish_if_complete}
use laburi_to.Employee.Files.{
  CreateEmployeeRequest, CertificationUpload, CertificationEntry, KeptCertificationFile,
  RemovedFile, EmployeeFileMetadata, UploadOutput, EmployeeWriter, Storage, Site, to_string,
  location,
}

unfoldable pub keeps_file : {F : Type 0} → CertificationEntry F → Bool
keeps_file c = elim c.keep_file_id [ none ↦ false | some _ ↦ true ]

unfoldable pub cleanup_uploaded_certifications : List EmployeeFileMetadata → Storage → Storage
cleanup_uploaded_certifications files s = record s { removals = s.removals ++ map location files }

-- the deletions that follow an update
unfoldable pub cleanup_removed : List RemovedFile → Storage → Storage
cleanup_removed removed s = record s { removals = s.removals ++ removed }

unfoldable pub kept_files : {F : Type 0} → List (CertificationEntry F) → List KeptCertificationFile
kept_files [] = []
kept_files (c ∷ cs) = elim c.keep_file_id [
  | none ↦ kept_files cs
  | some i ↦ record { file_id = i; name = c.name } ∷ kept_files cs
]

module _ {F : Type 0} (upload : CertificationUpload F → Storage → Result UploadOutput) where
  -- EmployeeFileMetadata{...}
  unfoldable pub metadata : String → CertificationUpload F → UploadOutput → EmployeeFileMetadata
  metadata name u out = record {
    type = "certification";
    bucket = to_string out.bucket;
    object_key = to_string out.key;
    original_filename = u.filename;
    content_type = u.content_type;
    size_bytes = u.size;
    checksum_sha256 = to_string out.checksum_sha256;
    status = "uploaded";
    certification_name = name;
  }

  -- The body of the loop after an upload was answered.
  unfoldable pub uploaded :
      String
      → CertificationUpload F
      → List EmployeeFileMetadata
      → Storage
      → Result UploadOutput
      → Result (List EmployeeFileMetadata) × Storage
  unfolding metadata cleanup_uploaded_certifications
  uploaded name u files s (err e) = (err e, cleanup_uploaded_certifications files s)
  uploaded name u files s (ok out) =
      let file = metadata name u out in
      (ok (files ++ file ∷ []), record s { stored = s.stored ++ location file ∷ [] })

  unfoldable pub upload_one :
      String
      → Option (CertificationUpload F)
      → List EmployeeFileMetadata
      → Storage
      → Result (List EmployeeFileMetadata) × Storage
  unfolding uploaded
  upload_one name none files s = (ok files, s)
  upload_one name (some u) files s = uploaded name u files s (upload u s)

  abbrev pub go_on :
      (List EmployeeFileMetadata → Storage → Result (List EmployeeFileMetadata) × Storage)
      → Result (List EmployeeFileMetadata) × Storage
      → Result (List EmployeeFileMetadata) × Storage
  go_on k (err e, s) = (err e, s)
  go_on k (ok files, s) = k files s

  -- uploadCertifications from `files` on
  unfoldable pub upload_certifications :
      List (CertificationEntry F)
      → List EmployeeFileMetadata
      → Storage
      → Result (List EmployeeFileMetadata) × Storage
  unfolding upload_one
  upload_certifications [] files s = (ok files, s)
  upload_certifications (c ∷ cs) files s =
      go_on (λ files' s'. upload_certifications cs files' s') (upload_one c.name c.upload files s)

  module _ {Q : Type 0} (store : EmployeeWriter) (is_profile_complete : ℤ → M Bool)
      (publisher : Option (ℤ → Request Q)) where
    -- profileChanged
    unfoldable pub profile_changed : ℤ → Connection → Storage → Q → Site Q
    profile_changed i c s q = record {
      world =
          publish_if_complete is_profile_complete publisher i
            (record { connection = c; queue = q });
      storage = s;
    }

    unfoldable pub created :
        List EmployeeFileMetadata → Storage → Q → Result ℤ × Connection → Result (Unit {0}) × Site Q
    unfolding profile_changed cleanup_uploaded_certifications
    created files s q (err e, c) = (
      err e,
      record {
        world = record { connection = c; queue = q };
        storage = cleanup_uploaded_certifications files s;
      },
    )
    created files s q (ok i, c) = (ok tt, profile_changed i c s q)

    unfoldable pub updated :
        ℤ
        → List EmployeeFileMetadata
        → Storage
        → Q
        → Result (List RemovedFile) × Connection
        → Result (Unit {0}) × Site Q
    unfolding profile_changed cleanup_uploaded_certifications cleanup_removed
    updated i files s q (err e, c) = (
      err e,
      record {
        world = record { connection = c; queue = q };
        storage = cleanup_uploaded_certifications files s;
      },
    )
    updated i files s q (ok removed, c) = (ok tt, profile_changed i c (cleanup_removed removed s) q)

    abbrev pub with_files :
        (List EmployeeFileMetadata → Storage → Result (Unit {0}) × Site Q)
        → World Q
        → Result (List EmployeeFileMetadata) × Storage
        → Result (Unit {0}) × Site Q
    with_files k w (err e, s) = (err e, record { world = w; storage = s })
    with_files k w (ok files, s) = k files s

    unfoldable pub update_employee :
        ℤ
        → CreateEmployeeRequest
        → List (CertificationEntry F)
        → Site Q
        → Result (Unit {0}) × Site Q
    unfolding upload_certifications updated kept_files
    update_employee i request certifications site =
        with_files
          (λ files s. updated i files s site.world.queue (
            store.update_employee i request (kept_files certifications) files
              site.world.connection))
          site.world (upload_certifications certifications [] site.storage)

    abbrev pub authorized :
        (Connection → Result (Unit {0}) × Site Q)
        → Site Q
        → Result (Unit {0}) × Connection
        → Result (Unit {0}) × Site Q
    authorized k site (err e, c) = (err e, site)
    authorized k site (ok _, c) = k c

    -- CreateEmployee after the check of the role
    unfoldable pub create_checked :
        CreateEmployeeRequest
        → ℤ
        → List (CertificationEntry F)
        → Site Q
        → Connection
        → Result (Unit {0}) × Site Q
    unfolding upload_certifications created keeps_file
    create_checked request user_id certifications site c =
        if any keeps_file certifications
        then (err (wrap (sentinel invalid_certifications)), site)
        else with_files
            (λ files s.
              created files s site.world.queue (store.create_employee request user_id files c))
            site.world (upload_certifications certifications [] site.storage)

    unfoldable pub create_employee :
        CreateEmployeeRequest
        → Principal
        → List (CertificationEntry F)
        → Site Q
        → Result (Unit {0}) × Site Q
    unfolding create_checked
    create_employee request principal certifications site =
        authorized (create_checked request principal.user_id certifications site) site
          (authorize_profile_role principal.role role_employee site.world.connection)
