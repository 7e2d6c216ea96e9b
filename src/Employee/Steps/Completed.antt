-- ===== src/Employee/Steps/Completed.antt =====
-- When the writes of the steps make a profile complete.
use laburi_to.Base.{nat_eq, int_eq}
use laburi_to.Database.Connection.{Connection}
