-- ===== src/Employee/Stored/Gone.antt =====
-- What the statements of an update of the base step do to the files with one identifier.
use laburi_to.Base.{
  ℕ, ℤ, pos, ◌+◌, String, ◌≡◌, Bool, true, not, ◌&&◌, ◌||◌, Bool-cases, inl, inr, Option, none,
  some, List, [], ◌∷◌, map, ◌==◌, int_eq, int_beq, string_eq, any, find, All, All-append, arith,
  ◌<◌, nat_eq,
}
use laburi_to.Database.Schema.{EmployeeFileRow, Tables}
use laburi_to.Database.Connection.{
  Keeps, Keeps-call, Keeps-pure, Keeps-bind, Keeps-if, Keeps-raise, call, idle,
}
use laburi_to.Database.Triples.{Triple}
use laburi_to.Database.Outcomes.{OnOk, OnOk-call}
use laburi_to.Database.Employees.{
  is_some, update_employee_row, EmployeeColumns, years_known, put_employee,
}
use laburi_to.Database.Files.{
  uploaded, any_id, unkept, marked, mark_unkept_certification_files_deleted, cleared,
  clear_employee_file_certification_names, file_of, renamed, rename_refused,
  set_employee_file_certification_name, new_file, file_refusal, kept_file, create_employee_file,
  CreateEmployeeFileParams, list_uploaded_employee_file_ids,
}
use laburi_to.Employee.Files.{EmployeeFileMetadata, KeptCertificationFile}
use laburi_to.Employee.Writes.{
  file_params, create_employee_files, check_kept, kept_ids, clear_names, rename_kept,
}

module _ (i : ℤ) (n : ℕ) where
  -- A file with the identifier, which the sequence has passed, meets the test.
  pub record Holds (p : EmployeeFileRow → Bool) (t : Tables) : Type 0 where
    pub all_hold : All (λ f. not (file_of i (pos n) f) || p f ≡ true) t.employee_files
    pub passed : n < t.next_file_id

  -- Only as a certificate whose certification is not kept
  abbrev pub associated : List KeptCertificationFile → EmployeeFileRow → Bool
  associated kept f = is_some f.certification_name && not (any_id (kept_ids kept) f.id)

  abbrev pub deleted : EmployeeFileRow → Bool
  deleted f = not (uploaded f)

  held-All :
      (p q : EmployeeFileRow → Bool) (g : EmployeeFileRow → EmployeeFileRow)
      (rows : List EmployeeFileRow)
      → ((f : EmployeeFileRow)
          → not (file_of i (pos n) f) || p f ≡ true
          → not (file_of i (pos n) (g f)) || q (g f) ≡ true)
      → All (λ f. not (file_of i (pos n) f) || p f ≡ true) rows
      → All (λ f. not (file_of i (pos n) f) || q f ≡ true) (map g rows)
  held-All p q g [] h a = tt
  held-All p q g (f ∷ rows) h (here, rest) = (h f here, held-All p q g rows h rest)

  deleted-marked :
      (kept : List KeptCertificationFile) (now : ℕ) (f : EmployeeFileRow)
      → not (file_of i (pos n) f) || associated kept f ≡ true
      → let g = marked i (kept_ids kept) now f in not (file_of i (pos n) g) || deleted g ≡ true
  unfolding marked unkept file_of
  deleted-marked kept now f h = elim (Bool-cases (unkept i (kept_ids kept) f)) [
    | inl e ↦ rw e (ground arith)
    | inr e ↦ rw e (ground (arith, e, h))
  ]

  deleted-cleared :
      (ids : List ℤ) (now : ℕ) (f : EmployeeFileRow)
      → not (file_of i (pos n) f) || deleted f ≡ true
      → let g = cleared i ids now f in not (file_of i (pos n) g) || deleted g ≡ true
  unfolding cleared file_of
  deleted-cleared ids now f h = elim (Bool-cases (f.employee_id == i && any_id ids f.id)) [
    | inl e ↦ rw e (ground (arith, h))
    | inr e ↦ rw e h
  ]

  deleted-renamed :
      (j : ℤ) (name : Option String) (now : ℕ) (f : EmployeeFileRow)
      → not (file_of i (pos n) f) || deleted f ≡ true
      → let g = renamed i j name now f in not (file_of i (pos n) g) || deleted g ≡ true
  unfolding renamed file_of
  deleted-renamed j name now f h = elim (Bool-cases (f.employee_id == i && f.id == j)) [
    | inl e ↦ rw e (ground (arith, h))
    | inr e ↦ rw e h
  ]

  abbrev pub IsAssociated : List KeptCertificationFile → Tables → Type 0
  IsAssociated kept = Holds (associated kept)

  abbrev pub IsGone : Tables → Type 0
  IsGone = Holds deleted

  pub mark-OnOk :
      (kept : List KeptCertificationFile)
      → Triple
          (IsAssociated kept)
          (call (mark_unkept_certification_files_deleted i (kept_ids kept)))
          (OnOk (λ _. IsGone))
  unfolding mark_unkept_certification_files_deleted
  mark-OnOk kept =
      OnOk-call (IsAssociated kept) (λ _. IsGone) _
        (λ t h. record {
          all_hold =
              held-All (associated kept) deleted (marked i (kept_ids kept) t.now) t.employee_files
                (deleted-marked kept t.now) h.all_hold;
          passed = h.passed;
        })

  pub clear_names-Keeps : (ids : List ℤ) → Keeps IsGone (clear_names i ids)
  unfolding clear_names clear_employee_file_certification_names
  clear_names-Keeps [] = Keeps-pure IsGone tt
  clear_names-Keeps (j ∷ ids) = Keeps-call IsGone _ (λ t h. record {
    all_hold =
        held-All deleted deleted (cleared i (j ∷ ids) t.now) t.employee_files
          (deleted-cleared (j ∷ ids) t.now) h.all_hold;
    passed = h.passed;
  })

  renamed-IsGone :
      (j : ℤ) (name : Option String) (t : Tables)
      → IsGone t
      → IsGone (set_employee_file_certification_name i j name t).1
  unfolding set_employee_file_certification_name
  renamed-IsGone j name t h =
      elim (Bool-cases
        (rename_refused name t.employee_files (find (file_of i j) t.employee_files))) [
          | inl e ↦ rw e h
          | inr e ↦ rw e (record {
            all_hold =
                held-All deleted deleted (renamed i j name t.now) t.employee_files
                  (deleted-renamed j name t.now) h.all_hold;
            passed = h.passed;
          })
        ]

  pub rename_kept-Keeps : (rest : List KeptCertificationFile) → Keeps IsGone (rename_kept i rest)
  unfolding rename_kept
  rename_kept-Keeps [] = Keeps-pure IsGone tt
  rename_kept-Keeps (file ∷ rest) =
      Keeps-bind IsGone _ _
        (Keeps-call IsGone _ (λ t h. renamed-IsGone file.file_id (some file.name) t h))
        (λ _. rename_kept-Keeps rest)

  kept_file-IsGone :
      (o : Option String) (row : EmployeeFileRow) (t : Tables)
      → not (file_of i (pos n) row) ≡ true
      → IsGone t
      → IsGone (kept_file o row t).1
  unfolding kept_file
  kept_file-IsGone (some state) row t k h = h
  kept_file-IsGone none row t k h = record {
    all_hold = All-append _ t.employee_files (row ∷ []) h.all_hold (ground (arith, k), tt);
    passed = h.passed;
  }

  create_file-IsGone :
      (arg : CreateEmployeeFileParams) (t : Tables)
      → IsGone t
      → IsGone (create_employee_file arg t).1
  unfolding create_employee_file new_file file_of int_beq
  create_file-IsGone arg t h =
      kept_file-IsGone (file_refusal (new_file arg t) t) (new_file arg t)
        (record t { next_file_id = t.next_file_id + 1 }) (ground (arith, h.passed))
        (record { all_hold = h.all_hold; passed = omega (arith, h.passed) })

  pub create_files-Keeps :
      (rest : List EmployeeFileMetadata) → Keeps IsGone (create_employee_files i rest)
  unfolding create_employee_files
  create_files-Keeps [] = Keeps-pure IsGone tt
  create_files-Keeps (file ∷ rest) =
      Keeps-bind IsGone _ _ (Keeps-call IsGone _ (create_file-IsGone (file_params i file)))
        (λ _. create_files-Keeps rest)

  module _ (p : EmployeeFileRow → Bool) where
    pub idle-Keeps : Keeps (Holds p) (call idle)
    unfolding idle
    idle-Keeps = Keeps-call (Holds p) idle (λ t h. h)

    pub check_kept-Keeps : (ids : List ℤ) → Keeps (Holds p) (check_kept i ids)
    unfolding check_kept list_uploaded_employee_file_ids
    check_kept-Keeps [] = Keeps-pure (Holds p) tt
    check_kept-Keeps (j ∷ ids) =
        Keeps-bind (Holds p) _ _ (Keeps-call (Holds p) _ (λ t h. h))
          (λ found. Keeps-if (Holds p) _ _ _ (Keeps-pure (Holds p) tt) (Keeps-raise (Holds p) _))

    pub update_row-Holds :
        (arg : EmployeeColumns) (t : Tables) → Holds p t → Holds p (update_employee_row i arg t).1
    unfolding update_employee_row put_employee
    update_row-Holds arg t h =
        elim (Bool-cases
          (years_known arg.years_of_experience || not (any (λ e. e.id == i) t.employees))) [
            | inl e ↦ rw e (record { all_hold = h.all_hold; passed = h.passed })
            | inr e ↦ rw e h
          ]
