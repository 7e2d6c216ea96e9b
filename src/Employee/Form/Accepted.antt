-- ===== src/Employee/Form/Accepted.antt =====
-- Which lists of certifications the loop of parseCertificationsForm accepts.
use laburi_to.Base.{
  ℤ, pos, String, Bool, true, false, not, ◌&&◌, ◌||◌, ◌≡◌, refl, sym, Bool-cases, inl, inr, Option,
  none, some, List, [], ◌∷◌, map, ◌==◌, string_eq, int_eq, int_leb, any, if◌then◌else◌, arith, ap,
  ◌∙◌,
}
use laburi_to.Errors.{Result-cases, Result, ok, err, ◌>>=◌}
use laburi_to.Database.Employees.{is_some}
use laburi_to.Employee.Form.{
  CertificationItem, document_key, nothing_seen, origin_checked, Seen, Pending, keep_checked,
  key_checked, items_checked, item_checked, in_names,
}

abbrev pub is_ok {ℓ} : {A : Type ℓ} → Result A → Bool
is_ok (err e) = false
is_ok (ok a) = true

is_ok-bind : {A B : Type 0} (f : A → B) (r : Result A) → is_ok (r >>= λ a. ok (f a)) ≡ is_ok r
is_ok-bind f (err e) = refl
is_ok-bind f (ok a) = refl

module _ {A : Type 0} (eq : A → A → Bool) where
  -- No two elements are equal.
  unfoldable pub distinct : List A → Bool
  distinct [] = true
  distinct (x ∷ xs) = not (any (eq x) xs) && distinct xs

  abbrev seen_in : List A → A → Bool
  seen_in seen y = any (λ x. eq x y) seen

  abbrev fresh : List A → List A → Bool
  fresh seen ys = not (any (seen_in seen) ys) && distinct ys

  any-none : (ys : List A) → any (seen_in []) ys ≡ false
  unfolding any
  any-none [] = refl
  any-none (y ∷ ys) = any-none ys

  fresh-none : (ys : List A) → fresh [] ys ≡ distinct ys
  fresh-none ys = rw (any-none ys) refl

  any-seen_cons :
      (seen : List A) (y : A) (ys : List A)
      → any (seen_in (y ∷ seen)) ys ≡ any (eq y) ys || any (seen_in seen) ys
  unfolding any
  any-seen_cons seen y [] = refl
  any-seen_cons seen y (z ∷ zs) = ground (arith, any-seen_cons seen y zs)

  fresh-cons :
      (seen : List A) (y : A) (ys : List A)
      → fresh seen (y ∷ ys) ≡ not (seen_in seen y) && fresh (y ∷ seen) ys
  unfolding any distinct
  fresh-cons seen y ys = rw (any-seen_cons seen y ys) (ground arith)

-- A document_id that is not positive
abbrev bad_id : Option ℤ → Bool
bad_id none = false
bad_id (some i) = int_leb i (pos 0)

module _ (trim_space lower : String → String) where
  abbrev key_of : CertificationItem → String
  key_of item = document_key trim_space item.document

  abbrev names_of : List CertificationItem → List String
  names_of items = map (λ (item : CertificationItem). lower (trim_space item.name)) items

  abbrev keys_of : List CertificationItem → List String
  keys_of [] = []
  keys_of (item ∷ items) =
      let rest = keys_of items in if key_of item == "" then rest else key_of item ∷ rest

  abbrev with_id : Option ℤ → List ℤ → List ℤ
  with_id none ids = ids
  with_id (some i) ids = i ∷ ids

  abbrev ids_of : List CertificationItem → List ℤ
  ids_of [] = []
  ids_of (item ∷ items) = with_id item.document_id (ids_of items)

  -- Without a name, with both origins, or with an identifier that is not positive
  abbrev unsound : CertificationItem → Bool
  unsound item =
      trim_space item.name == ""
      || (not (key_of item == "") && is_some item.document_id)
      || bad_id item.document_id

  -- Every item is sound, and no name, no key and no identifier is twice in the list.
  unfoldable pub well_formed : List CertificationItem → Bool
  well_formed items =
      not (any unsound items)
      && distinct (λ x y. x == y) (names_of items)
      && distinct (λ x y. x == y) (keys_of items)
      && distinct (λ x y. x == y) (ids_of items)

  abbrev passes_after : List CertificationItem → Seen → Bool
  passes_after items seen =
      not (any unsound items)
      && fresh (λ x y. x == y) seen.names (names_of items)
      && fresh (λ x y. x == y) seen.document_keys (keys_of items)
      && fresh (λ x y. x == y) seen.document_ids (ids_of items)

  abbrev passes : List CertificationItem → Result (Pending × Seen) → Bool
  passes items (err e) = false
  passes items (ok checked) = passes_after items checked.1

  passes-nothing_seen :
      (items : List CertificationItem) → passes_after items nothing_seen ≡ well_formed items
  unfolding well_formed
  passes-nothing_seen items =
      rw
        (
          fresh-none (λ x y. x == y) (names_of items),
          fresh-none (λ x y. x == y) (keys_of items),
          fresh-none (λ x y. x == y) (ids_of items),
        )
        refl

  -- What the origin of the file asks of an item whose name is new
  origin-passes :
      (name key : String) (i : Option ℤ) (items : List CertificationItem) (seen : Seen)
      → passes items (origin_checked name key i seen)
        ≡ not (not (key == "") && is_some i || bad_id i)
          && not (any unsound items)
          && fresh (λ x y. x == y) seen.names (names_of items)
          && fresh
              (λ x y. x == y)
              seen.document_keys
              (if key == "" then keys_of items else key ∷ keys_of items)
          && fresh (λ x y. x == y) seen.document_ids (with_id i (ids_of items))
  unfolding origin_checked keep_checked key_checked
  origin-passes name key none items seen = elim (Bool-cases (key == "")) [
    | inl e ↦ rw e refl
    | inr e ↦
        rw (e, fresh-cons (λ x y. x == y) seen.document_keys key (keys_of items)) (ground arith)
  ]
  origin-passes name key (some i) items seen = elim (Bool-cases (key == "")) [
    | inl e ↦ rw (e, fresh-cons (λ x y. x == y) seen.document_ids i (ids_of items)) (ground arith)
    | inr e ↦ rw e refl
  ]

  item-passes :
      (item : CertificationItem) (items : List CertificationItem) (seen : Seen)
      → passes items (item_checked trim_space lower item seen) ≡ passes_after (item ∷ items) seen
  unfolding item_checked any
  item-passes item items seen =
      let name : String = trim_space item.name in
      elim (Bool-cases (name == "" || in_names seen.names (lower name))) [
        | inl e ↦
            rw (e, fresh-cons (λ x y. x == y) seen.names (lower name) (names_of items))
              (ground (arith, e))
        | inr e ↦
            rw
              (
                e,
                origin-passes name (key_of item) item.document_id items
                    (record seen { names = lower name ∷ seen.names }),
                fresh-cons (λ x y. x == y) seen.names (lower name) (names_of items),
              )
              (ground (arith, e))
      ]

  items-passes :
      (items : List CertificationItem) (seen : Seen)
      → is_ok (items_checked trim_space lower items seen) ≡ passes_after items seen
  unfolding items_checked any distinct
  items-passes [] seen = refl
  items-passes (item ∷ items) seen = elim (Result-cases (item_checked trim_space lower item seen)) [
    | inl (e, at) ↦
        rw (at, items_checked) (sym (ap (passes items) at) ∙ item-passes item items seen)
    | inr (checked, at) ↦
        rw (at, items_checked)
          (is_ok-bind (λ rest. (checked.0 ∷ rest.0, rest.1))
              (items_checked trim_space lower items checked.1)
            ∙ items-passes items checked.1
            ∙ sym (ap (passes items) at)
            ∙ item-passes item items seen)
  ]

  -- The loop of parseCertificationsForm accepts a list of items where every item is well-formed by
  -- itself and no name, up to case, no key of a new file and no identifier is there twice, and no other.
  pub items_checked-well_formed :
      (items : List CertificationItem)
      → is_ok (items_checked trim_space lower items nothing_seen) ≡ well_formed items
  items_checked-well_formed items = items-passes items nothing_seen ∙ passes-nothing_seen items
