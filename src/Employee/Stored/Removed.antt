-- ===== src/Employee/Stored/Removed.antt =====
-- A certificate that an update of the base step removes is delivered no more.
use laburi_to.Base.{
  ℕ, ℤ, pos, ◌≡◌, refl, true, not, ◌&&◌, ◌||◌, none, List, [], ◌∷◌, int_eq, string_eq, find, All,
  arith, nat_eq,
}
use laburi_to.Errors.{ok, err, sentinel, file_not_found}
use laburi_to.Database.Schema.{EmployeeFileRow, Tables}
use laburi_to.Database.Connection.{
  Connection, Keeps-call, Keeps-pure, Keeps-bind, call, on_error, ◌>>=◌,
}
use laburi_to.Database.Total.{calm}
use laburi_to.Database.Triples.{Triple}
use laburi_to.Database.Batches.{the_row}
use laburi_to.Database.Outcomes.{OnOk, OnOk-of, OnOk-bind, OnOk-Keeps, OnOk-transaction}
use laburi_to.Database.Files.{uploaded, file_of, get_employee_file_for_employee}
use laburi_to.Employee.Files.{
  CreateEmployeeRequest, EmployeeFileMetadata, KeptCertificationFile, RemovedFile,
}
use laburi_to.Employee.Writes.{
  base_params, kept_ids, replace_certificates, update_steps, update_employee,
}
use laburi_to.Employee.Stored.{get_employee_file}
use laburi_to.Employee.Stored.Gone.{
  associated, deleted, IsAssociated, IsGone, mark-OnOk, clear_names-Keeps, rename_kept-Keeps,
  create_files-Keeps, idle-Keeps, check_kept-Keeps, update_row-Holds,
}

module _ (i : ℤ) (n : ℕ) where
  replace_certificates-OnOk :
      (kept : List KeptCertificationFile) (files : List EmployeeFileMetadata)
      → Triple (IsAssociated i n kept) (replace_certificates i kept files) (OnOk (λ _. IsGone i n))
  unfolding replace_certificates
  replace_certificates-OnOk kept files =
      OnOk-bind (IsAssociated i n kept) (λ _. IsGone i n) (λ _. IsGone i n) _ _ (mark-OnOk i n kept)
        (λ rows. OnOk-Keeps (IsGone i n) _ (
          Keeps-bind (IsGone i n) _ _ (clear_names-Keeps i n (kept_ids kept)) (λ _.
            Keeps-bind (IsGone i n) _ _ (rename_kept-Keeps i n kept) (λ _.
              Keeps-bind (IsGone i n) _ _ (create_files-Keeps i n files) (λ _.
                Keeps-bind (IsGone i n) _ _ (idle-Keeps i n (deleted i n))
                  (λ _. Keeps-pure (IsGone i n) _))))))

  update_steps-OnOk :
      (request : CreateEmployeeRequest) (kept : List KeptCertificationFile)
      (files : List EmployeeFileMetadata)
      → Triple (IsAssociated i n kept) (update_steps i request kept files) (OnOk (λ _. IsGone i n))
  unfolding update_steps
  update_steps-OnOk request kept files =
      let D : Tables → Type 0 = IsAssociated i n kept in
      OnOk-bind D (λ _. D) (λ _. IsGone i n) _ _
        (OnOk-Keeps D _ (check_kept-Keeps i n (associated i n kept) (kept_ids kept)))
        (λ _.
          OnOk-bind D (λ _. D) (λ _. IsGone i n) _ _
            (OnOk-Keeps D _
              (Keeps-call D _ (update_row-Holds i n (associated i n kept) (base_params request))))
            (λ _. replace_certificates-OnOk kept files))

  none_found :
      (rows : List EmployeeFileRow)
      → All (λ f. not (file_of i (pos n) f) || deleted i n f ≡ true) rows
      → find (λ f. file_of i (pos n) f && uploaded f) rows ≡ none
  unfolding find
  none_found [] a = refl
  none_found (f ∷ rows) (here, rest) = ground (arith, here, none_found rows rest)

  gone_denied :
      (t : Tables)
      → IsGone i n t
      → (get_employee_file i (pos n) (calm t)).0 ≡ err (sentinel file_not_found)
  unfolding get_employee_file get_employee_file_for_employee ◌>>=◌ on_error call
      laburi_to.Database.Batches.the_row laburi_to.Errors.is
  gone_denied t h = rw (none_found t.employee_files h.all_hold) refl

  -- Where each file of the employee with the identifier has the name of a certification and is not to be
  -- kept, and the sequence of files has passed the identifier: after UpdateEmployee of the repository,
  -- where it succeeds, GetEmployeeFile answers that the file is not found, where its statement is run.
  pub update_employee_removed :
      (request : CreateEmployeeRequest) (kept : List KeptCertificationFile)
      (files : List EmployeeFileMetadata) (c : Connection) (removed : List RemovedFile)
      → IsAssociated i n kept c.tables
      → (update_employee i request kept files c).0 ≡ ok removed
      → (get_employee_file i (pos n) (calm (update_employee i request kept files c).1.tables)).0
        ≡ err (sentinel file_not_found)
  unfolding update_employee
  update_employee_removed request kept files c removed d h =
      let D : Tables → Type 0 = IsAssociated i n kept in
      gone_denied (update_employee i request kept files c).1.tables (
        OnOk-of (λ _. IsGone i n) _ _ removed
          ((OnOk-bind D (λ _. D) (λ _. IsGone i n) _ _
              (OnOk-Keeps D _ (idle-Keeps i n (associated i n kept)))
              (λ _.
                OnOk-transaction D (λ _. IsGone i n) _ (update_steps-OnOk request kept files))).at
            c d)
          h)
