-- ===== src/Employee/Events/Completeness.antt =====
-- When a change of a profile asks for recommendations.
use laburi_to.Base.{
  ℤ, String, ◌≡◌, refl, false, Option, none, some, List, [], ◌∷◌, find, ◌==◌, int_eq,
}
use laburi_to.Database.Schema.{Tables}
use laburi_to.Database.Connection.{call, called, answered}
use laburi_to.Recommendation.Publisher.{World, Request}
use laburi_to.Employee.Repo.{complete, is_profile_complete, is_employee_profile_complete}
use laburi_to.Employee.Events.{if_complete, publish_if_complete}

module _ {Q : Type 0} (publisher : ℤ → Request Q) (i : ℤ) (q : Q) where
  unpublished :
      (t : Tables) (faults : List (Option String))
      → complete (find (λ e. e.id == i) t.employees) ≡ false
      → let w = if_complete publisher i q (called (is_employee_profile_complete i) t faults) in
        (w.connection.tables ≡ t) × (w.queue ≡ q)
  unfolding if_complete called answered is_employee_profile_complete
  unpublished t [] h = rw h (refl, refl)
  unpublished t (none ∷ rest) h = rw h (refl, refl)
  unpublished t (some reason ∷ rest) h = (refl, refl)

-- A change of a profile that lacks one of its five steps writes no row and sends no message, whatever
-- the publisher and whichever calls of the database fail.
pub publish_if_complete-incomplete :
    {Q : Type 0} (publisher : Option (ℤ → Request Q)) (i : ℤ) (w : World Q)
    → complete (find (λ e. e.id == i) w.connection.tables.employees) ≡ false
    → ((publish_if_complete is_profile_complete publisher i w).connection.tables
        ≡ w.connection.tables)
      × ((publish_if_complete is_profile_complete publisher i w).queue ≡ w.queue)
unfolding publish_if_complete is_profile_complete call
publish_if_complete-incomplete none i w h = (refl, refl)
publish_if_complete-incomplete (some publisher) i w h =
    unpublished publisher i w.queue w.connection.tables w.connection.faults h
