-- ===== src/JobPosition/Service/Deletion.antt =====
-- What a deleted job position leaves behind.
use laburi_to.Base.{
  ℤ, String, ◌≡◌, refl, Bool, false, Option, none, some, List, [], ◌∷◌, find, overwrite, arith,
  int_eq,
}
use laburi_to.Errors.{Result, ok, err, sentinel, job_position_not_found, subject_not_found, is}
use laburi_to.Database.Schema.{Tables, JobPositionRow}
use laburi_to.Database.Connection.{
  Connection, Keeps-pure, call, called, answered, pure, raise, on_error, ◌>>=◌,
}
use laburi_to.Database.Batches.{the_row}
use laburi_to.Database.Profiles.{
  is_active, get_active_job_position_requirements, get_job_position_owner, position_owner,
}
use laburi_to.Database.Triples.{Triple}
use laburi_to.Database.Outcomes.{OnOk, OnOk-of, OnOk-call, OnOk-on_error, OnOk-bind, OnOk-Keeps}
use laburi_to.Database.JobPositions.{
  active_with_id, soft_delete_job_position_row, deleted_position, put_position,
  get_active_job_position_row,
}
use laburi_to.Database.Total.{calm}
use laburi_to.Recommendation.Candidates.{pairs_for_job_position, missing_subject}
use laburi_to.Recommendation.Owners.{job_position_owner}
use laburi_to.Recommendation.Service.{Principal}
use laburi_to.JobPosition.Repo.{
  repository, soft_delete_job_position, get_active_job_position_by_id, missing_position,
}
use laburi_to.JobPosition.Service.{resolve_owned_position, delete_job_position}

-- No position with this identifier is active.
abbrev pub IsGone : ℤ → Tables → Type 0
IsGone i t = find (active_with_id i) t.job_positions ≡ none

find-overwrite_gone {ℓ} :
    {A : Type ℓ} (p : A → Bool) (v : A) (xs : List A)
    → p v ≡ false
    → find p (overwrite p v xs) ≡ none
unfolding find overwrite
find-overwrite_gone p v [] h = refl
find-overwrite_gone p v (x ∷ xs) h = ground (arith, find-overwrite_gone p v xs h)

inactive :
    (i : ℤ) (row : JobPositionRow) (n : _)
    → active_with_id i (record row { deleted_at = some n }) ≡ false
unfolding active_with_id is_active
inactive i row n = ground arith

deleted_position-IsGone :
    (i : ℤ) (o : Option JobPositionRow) (t : Tables)
    → OnOk (λ _ t'. IsGone i t') (deleted_position i o t).0 (deleted_position i o t).1
unfolding deleted_position put_position
deleted_position-IsGone i none t = tt
deleted_position-IsGone i (some row) t =
    find-overwrite_gone (active_with_id i) _ t.job_positions
      (inactive i (record row { updated_at = t.now }) t.now)

soft_delete_job_position-IsGone :
    (i : ℤ) → Triple (λ t. Unit {0}) (soft_delete_job_position i) (OnOk (λ _. IsGone i))
unfolding soft_delete_job_position soft_delete_job_position_row
soft_delete_job_position-IsGone i =
    OnOk-bind (λ t. Unit {0}) (λ _. IsGone i) (λ _. IsGone i) _ _
      (OnOk-on_error _ _ missing_position _
        (OnOk-call _ _ _ (λ t h. deleted_position-IsGone i _ t)))
      (λ row. OnOk-Keeps (IsGone i) _ (Keeps-pure (IsGone i) tt))

any_ok : {A : Type 0} (r : Result A) (t : Tables) → OnOk (λ _ _. Unit {0}) r t
any_ok (ok a) t = tt
any_ok (err e) t = tt

gone_unread :
    (i : ℤ) (t : Tables)
    → IsGone i t
    → ((get_active_job_position_by_id i (calm t)).0 ≡ err (sentinel job_position_not_found))
      × ((job_position_owner i (calm t)).0 ≡ err (sentinel subject_not_found))
      × ((pairs_for_job_position i (calm t)).0 ≡ err (sentinel subject_not_found))
unfolding get_active_job_position_by_id get_active_job_position_row job_position_owner
    get_job_position_owner pairs_for_job_position get_active_job_position_requirements
    active_with_id on_error call called answered pure raise ◌>>=◌ the_row position_owner
    missing_position missing_subject is
gone_unread i t h = (rw h refl, rw h refl, rw h refl)

-- After a deletion that succeeds, the position is not found, it has no owner to answer for its
-- recommendations, and no pairs are made for it, where the calls that follow do not fail.
pub delete_job_position-gone :
    (timezones : String → Bool) (i : ℤ) (principal : Principal) (c : Connection) (done : Unit {0})
    → (delete_job_position (repository timezones) i principal c).0 ≡ ok done
    → let after = (delete_job_position (repository timezones) i principal c).1.tables in
      ((get_active_job_position_by_id i (calm after)).0 ≡ err (sentinel job_position_not_found))
      × ((job_position_owner i (calm after)).0 ≡ err (sentinel subject_not_found))
      × ((pairs_for_job_position i (calm after)).0 ≡ err (sentinel subject_not_found))
unfolding delete_job_position repository
delete_job_position-gone timezones i principal c done h =
    let gone =
      OnOk-bind (λ t. Unit {0}) (λ _ _. Unit {0}) (λ _. IsGone i)
        (resolve_owned_position (repository timezones) i principal) _
        (record {
          at = λ c' _.
              any_ok (resolve_owned_position (repository timezones) i principal c').0
                (resolve_owned_position (repository timezones) i principal c').1.tables;
        })
        (λ position. soft_delete_job_position-IsGone i) in
    gone_unread i _ (OnOk-of (λ _. IsGone i) _ _ done (gone.at c tt) h)
