-- ===== src/Employee/Delivery.antt =====
-- CertificateDownloadURL and EducationDocumentDownloadURL of internal/employee/download_url.go.
-- `presign` is PresignGetObject of the uploader, which signs a URL and touches no table, and `now` the
-- clock of the service, in nanoseconds.
use laburi_to.Base.{ℕ, ℤ, String, Bool, ◌+◌}
use laburi_to.Errors.{Result}
use laburi_to.Database.Connection.{M, pure, ◌>>=◌, ◌>>◌}
use laburi_to.Recommendation.Service.{Principal}
use laburi_to.Employee.Models.{StoredFile, DownloadUrlResponse, EmployeeStore}
use laburi_to.Employee.Access.{authorize_profile_access}

-- 5 * time.Minute
abbrev pub presign_ttl : ℕ
presign_ttl = 300000000000

module _ (store : EmployeeStore) (access : ℤ → ℤ → M Bool)
    (presign : StoredFile → ℕ → Result String) (now : ℕ) where
  presigned : StoredFile → M String
  presigned file c = (presign file presign_ttl, c)

  unfoldable pub download_url : ℤ → Principal → M StoredFile → M DownloadUrlResponse
  unfolding presigned
  download_url employee_id principal resolve_file = do
    authorize_profile_access store access employee_id principal
    file ← resolve_file
    url ← presigned file
    pure (record { url = url; expires_at = now + presign_ttl })

  unfoldable pub certificate_download_url : ℤ → ℤ → Principal → M DownloadUrlResponse
  unfolding download_url
  certificate_download_url employee_id file_id principal =
      download_url employee_id principal (store.get_employee_file employee_id file_id)

  unfoldable pub education_document_download_url : ℤ → ℤ → Principal → M DownloadUrlResponse
  unfolding download_url
  education_document_download_url employee_id education_id principal =
      download_url employee_id principal
        (store.get_employee_education_document employee_id education_id)
