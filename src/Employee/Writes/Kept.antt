-- ===== src/Employee/Writes/Kept.antt =====
-- Which certificates an employee has after an update of the base step.
use laburi_to.Base.{
  All, All-append, All-mono, Bool, Bool-cases, List, Option, String, [], any, arith, eq_iff, find,
  inl, inr, int_beq_iff, int_eq, map, none, not, refl, some, string_eq, subst, sym, true, ℕ, ℤ,
  ◌&&◌, ◌==◌, ◌||◌, ◌∷◌, ◌≡◌,
}
use laburi_to.Errors.{ok}
use laburi_to.Database.Schema.{EmployeeFileRow, Tables}
use laburi_to.Database.Connection.{
  Keeps, Keeps-call, Keeps-pure, Keeps-bind, call, idle, Connection,
}
use laburi_to.Database.Triples.{Triple}
use laburi_to.Database.Outcomes.{
  OnOk, OnOk-call, OnOk-bind, OnOk-any, OnOk-Keeps, OnOk-of, OnOk-transaction,
}
use laburi_to.Database.Employees.{is_some}
use laburi_to.Database.Files.{
  uploaded, any_id, unkept, marked, mark_unkept_certification_files_deleted, cleared,
  clear_employee_file_certification_names, file_of, renamed, set_employee_file_certification_name,
  new_file, kept_file, create_employee_file, rename_refused,
}
use laburi_to.Employee.Files.{
  EmployeeFileMetadata, KeptCertificationFile, CreateEmployeeRequest, RemovedFile,
}
use laburi_to.Employee.Writes.{
  file_params, create_employee_files, kept_ids, clear_names, rename_kept, replace_certificates,
  update_steps, update_employee,
}

module _ (i : ℤ) (kept : List KeptCertificationFile) (files : List EmployeeFileMetadata) where
  -- a certificate of the employee that is delivered under the name of a certification
  abbrev active : EmployeeFileRow → Bool
  active f = f.employee_id == i && uploaded f && is_some f.certification_name

  abbrev is_new : String → String → Bool
  is_new bucket object_key = any (λ m. m.bucket == bucket && m.object_key == object_key) files

  abbrev accounted : EmployeeFileRow → Bool
  accounted f = not (active f) || any_id (kept_ids kept) f.id || is_new f.bucket f.object_key

  -- Each active certificate is one that is kept, or one of the new files.
  abbrev pub AreAccounted : Tables → Type 0
  AreAccounted t = All (λ f. accounted f ≡ true) t.employee_files

  mapped-All :
      (g : EmployeeFileRow → EmployeeFileRow) (rows : List EmployeeFileRow)
      → ((f : EmployeeFileRow) → accounted f ≡ true → accounted (g f) ≡ true)
      → All (λ f. accounted f ≡ true) rows
      → All (λ f. accounted f ≡ true) (map g rows)
  mapped-All g [] h a = tt
  mapped-All g (f ∷ rows) h (here, rest) = (h f here, mapped-All g rows h rest)

  accounted-marked :
      (now : ℕ) (f : EmployeeFileRow) → accounted (marked i (kept_ids kept) now f) ≡ true
  unfolding marked unkept
  accounted-marked now f = elim (Bool-cases (unkept i (kept_ids kept) f)) [
    | inl e ↦ rw e (ground arith)
    | inr e ↦ rw e (ground (arith, e))
  ]

  marked-All :
      (now : ℕ) (rows : List EmployeeFileRow)
      → All (λ f. accounted f ≡ true) (map (marked i (kept_ids kept) now) rows)
  marked-All now [] = tt
  marked-All now (f ∷ rows) = (accounted-marked now f, marked-All now rows)

  accounted-cleared :
      (ids : List ℤ) (now : ℕ) (f : EmployeeFileRow)
      → accounted f ≡ true
      → accounted (cleared i ids now f) ≡ true
  unfolding cleared
  accounted-cleared ids now f h = elim (Bool-cases (f.employee_id == i && any_id ids f.id)) [
    | inl e ↦ rw e (ground arith)
    | inr e ↦ rw e h
  ]

  accounted-renamed :
      (j : ℤ) (name : Option String) (now : ℕ) (f : EmployeeFileRow)
      → any_id (kept_ids kept) j ≡ true
      → accounted f ≡ true
      → accounted (renamed i j name now f) ≡ true
  unfolding renamed file_of
  accounted-renamed j name now f k h = elim (Bool-cases (file_of i j f)) [
    | inl e ↦ rw e (
        let same : f.id ≡ j = (int_beq_iff f.id j).0 (ground (arith, e)) in
        let there : any_id (kept_ids kept) f.id ≡ true =
          subst (λ x. any_id (kept_ids kept) x ≡ true) (sym same) k in
        ground (arith, there))
    | inr e ↦ rw e h
  ]

  mark-OnOk :
      (Pre : Tables → Type 0)
      → Triple Pre
          (call (mark_unkept_certification_files_deleted i (kept_ids kept)))
          (OnOk (λ _. AreAccounted))
  unfolding mark_unkept_certification_files_deleted
  mark-OnOk Pre = OnOk-call Pre (λ _. AreAccounted) _ (λ t h. marked-All t.now t.employee_files)

  clear-Keeps :
      (ids : List ℤ) → Keeps AreAccounted (call (clear_employee_file_certification_names i ids))
  unfolding clear_employee_file_certification_names
  clear-Keeps ids =
      Keeps-call AreAccounted _
        (λ t h. mapped-All (cleared i ids t.now) t.employee_files (accounted-cleared ids t.now) h)

  clear_names-Keeps : (ids : List ℤ) → Keeps AreAccounted (clear_names i ids)
  unfolding clear_names
  clear_names-Keeps [] = Keeps-pure AreAccounted tt
  clear_names-Keeps (j ∷ ids) = clear-Keeps (j ∷ ids)

  renamed_all :
      (j : ℤ) (name : Option String) (t : Tables)
      → any_id (kept_ids kept) j ≡ true
      → AreAccounted t
      → AreAccounted (set_employee_file_certification_name i j name t).1
  unfolding set_employee_file_certification_name
  renamed_all j name t k h =
      elim (Bool-cases
        (rename_refused name t.employee_files (find (file_of i j) t.employee_files))) [
          | inl e ↦ rw e h
          | inr e ↦ rw e (
              mapped-All (renamed i j name t.now) t.employee_files
                (λ f. accounted-renamed j name t.now f k) h)
        ]

  rename_kept-Keeps :
      (rest : List KeptCertificationFile)
      → All (λ file. any_id (kept_ids kept) file.file_id ≡ true) rest
      → Keeps AreAccounted (rename_kept i rest)
  unfolding rename_kept
  rename_kept-Keeps [] a = Keeps-pure AreAccounted tt
  rename_kept-Keeps (file ∷ rest) (here, a) =
      Keeps-bind AreAccounted _ _
        (Keeps-call AreAccounted _ (λ t h. renamed_all file.file_id (some file.name) t here h))
        (λ _. rename_kept-Keeps rest a)

  kept_or_refused :
      (o : Option String) (row : EmployeeFileRow) (t : Tables)
      → accounted row ≡ true
      → AreAccounted t
      → AreAccounted (kept_file o row t).1
  unfolding kept_file
  kept_or_refused (some state) row t k h = h
  kept_or_refused none row t k h = All-append _ t.employee_files (row ∷ []) h (k, tt)

  create_files-Keeps :
      (rest : List EmployeeFileMetadata)
      → All (λ file. is_new file.bucket file.object_key ≡ true) rest
      → Keeps AreAccounted (create_employee_files i rest)
  unfolding create_employee_files create_employee_file new_file file_params
  create_files-Keeps [] a = Keeps-pure AreAccounted tt
  create_files-Keeps (file ∷ rest) (here, a) =
      Keeps-bind AreAccounted _ _
        (Keeps-call AreAccounted _ (λ t h. kept_or_refused _ _ _ (ground (arith, here)) h))
        (λ _. create_files-Keeps rest a)

  idle-Keeps : Keeps AreAccounted (call idle)
  unfolding idle
  idle-Keeps = Keeps-call AreAccounted idle (λ t h. h)

kept-any_id :
    (kept : List KeptCertificationFile)
    → All (λ file. any_id (kept_ids kept) file.file_id ≡ true) kept
unfolding any
kept-any_id [] = tt
kept-any_id (file ∷ kept) = (
  ground (arith, (int_beq_iff file.file_id file.file_id).1 refl),
  All-mono _ _ kept (λ f h. ground (arith, h)) (kept-any_id kept),
)

files-is_new :
    (i : ℤ) (kept : List KeptCertificationFile) (files : List EmployeeFileMetadata)
    → All (λ file. is_new i kept files file.bucket file.object_key ≡ true) files
unfolding any
files-is_new i kept [] = tt
files-is_new i kept (file ∷ files) = (
  ground (
    arith,
    (eq_iff file.bucket file.bucket).1 refl,
    (eq_iff file.object_key file.object_key).1 refl,
  ),
  All-mono _ _ files (λ f h. ground (arith, h)) (files-is_new i kept files),
)

module _ (i : ℤ) (kept : List KeptCertificationFile) (files : List EmployeeFileMetadata) where
  abbrev Accounted : Tables → Type 0
  Accounted = AreAccounted i kept files

  replace_certificates-OnOk :
      (Pre : Tables → Type 0)
      → Triple Pre (replace_certificates i kept files) (OnOk (λ _. Accounted))
  unfolding replace_certificates
  replace_certificates-OnOk Pre =
      OnOk-bind Pre (λ _. Accounted) (λ _. Accounted) _ _ (mark-OnOk i kept files Pre)
        (λ rows. OnOk-Keeps Accounted _ (
          Keeps-bind Accounted _ _ (clear_names-Keeps i kept files (kept_ids kept)) (λ _.
            Keeps-bind Accounted _ _ (rename_kept-Keeps i kept files kept (kept-any_id kept)) (λ _.
              Keeps-bind Accounted _ _
                (create_files-Keeps i kept files files (files-is_new i kept files))
                (λ _.
                  Keeps-bind Accounted _ _ (idle-Keeps i kept files)
                    (λ _. Keeps-pure Accounted _))))))

  update_steps-OnOk :
      (request : CreateEmployeeRequest)
      → Triple (λ t. Unit {0}) (update_steps i request kept files) (OnOk (λ _. Accounted))
  unfolding update_steps
  update_steps-OnOk request =
      OnOk-bind _ (λ _ _. Unit {0}) (λ _. Accounted) _ _ (OnOk-any _ _)
        (λ _.
          OnOk-bind _ (λ _ _. Unit {0}) (λ _. Accounted) _ _ (OnOk-any _ _)
            (λ _. replace_certificates-OnOk (λ t. Unit {0})))

  -- After UpdateEmployee of the repository, where it succeeds, each uploaded file of the employee that
  -- has the name of a certification is one of the files to keep or has the location of a new file.
  pub update_employee-AreAccounted :
      (request : CreateEmployeeRequest) (c : Connection) (removed : List RemovedFile)
      → (update_employee i request kept files c).0 ≡ ok removed
      → AreAccounted i kept files (update_employee i request kept files c).1.tables
  unfolding update_employee
  update_employee-AreAccounted request c removed h =
      OnOk-of (λ _. Accounted) _ _ removed
        ((OnOk-bind (λ t. Unit {0}) (λ _ _. Unit {0}) (λ _. Accounted) _ _ (OnOk-any _ _)
            (λ _. OnOk-transaction _ (λ _. Accounted) _ (update_steps-OnOk request))).at
          c tt)
        h
