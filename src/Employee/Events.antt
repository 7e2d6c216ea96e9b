-- ===== src/Employee/Events.antt =====
-- internal/employee/events.go, which profileChanged of service.go calls after every write. `none` is
-- a nil publisher; the outcome of the publication is discarded.
pub mod Completeness
use laburi_to.Base.{ℤ, Bool, true, false, Option, none, some}
use laburi_to.Errors.{GoError, Result, ok, err}
use laburi_to.Database.Connection.{Connection, M}
use laburi_to.Recommendation.Publisher.{World, Request}

-- NoopEventPublisher
unfoldable pub noop_publisher : {Q : Type 0} → ℤ → Request Q
noop_publisher i w = (none, w)

module _ {Q : Type 0} where
  unfoldable pub if_complete : (ℤ → Request Q) → ℤ → Q → Result Bool × Connection → World Q
  if_complete publisher i q (err e, c) = record { connection = c; queue = q }
  if_complete publisher i q (ok false, c) = record { connection = c; queue = q }
  if_complete publisher i q (ok true, c) = (publisher i (record { connection = c; queue = q })).1

  unfoldable pub publish_if_complete : (ℤ → M Bool) → Option (ℤ → Request Q) → ℤ → World Q → World Q
  unfolding if_complete
  publish_if_complete is_profile_complete none i w = w
  publish_if_complete is_profile_complete (some publisher) i w =
      if_complete publisher i w.queue (is_profile_complete i w.connection)
