-- ===== src/Tests/Certificates.antt =====
-- An update of the base step that the database refuses, with one new certificate.
use laburi_to.Base.{false, pos, String, none, some, List, [], ◌∷◌}
use laburi_to.Errors.{Result, ok, err, foreign}
use laburi_to.Database.Total.{calm}
use laburi_to.Employee.Files.{
  CreateEmployeeRequest, CertificationUpload, CertificationEntry, EmployeeWriter, Site, Storage,
  UploadOutput,
}
use laburi_to.Employee.Certifications.{kept_files, update_employee}
use laburi_to.Employee.Certifications.Tidy.{IsTidy, update_employee-IsTidy}
use laburi_to.Tests.{tables_with, waiting}

abbrev refusing : EmployeeWriter
refusing = record {
  create_employee = λ request user_id files c. (err (foreign "refused"), c);
  update_employee = λ i request kept files c. (err (foreign "refused"), c);
}

abbrev accepted : CertificationUpload String → Storage → Result UploadOutput
accepted u s = ok (record { bucket = some "b"; key = some u.file; checksum_sha256 = none })

abbrev request : CreateEmployeeRequest
request = record {
  position = "backend";
  role = "developer";
  years_of_experience = "1y";
  certifications = "Go" ∷ [];
  portfolio_url = "";
}

abbrev certificates : List (CertificationEntry String)
certificates =
    record {
      name = "Go";
      keep_file_id = none;
      upload = some (record {
        file = "k-9";
        filename = "go.pdf";
        content_type = "application/pdf";
        size = pos 12;
      });
    }
    ∷ record { name = "SQL"; keep_file_id = some (pos 3); upload = none }
    ∷ []

abbrev site : Site (Unit {0})
site = record {
  world = record { connection = calm (tables_with waiting); queue = tt };
  storage = record { stored = []; removals = [] };
}

update_employee-IsTidy_example :
    let done =
      update_employee accepted refusing
        (λ i c. (ok false, c))
        none
        (pos 7)
        request
        certificates
        site in
    IsTidy
      (λ files.
        (refusing.update_employee
          (pos 7)
          request
          (kept_files certificates)
          files
          site.world.connection).0)
      (λ removed. removed)
      site.storage
      done.0
      done.1.storage
update_employee-IsTidy_example =
    update_employee-IsTidy accepted refusing (λ i c. (ok false, c)) none (pos 7) request
      certificates site
