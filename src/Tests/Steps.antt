-- ===== src/Tests/Steps.antt =====
-- Writes of the four steps of a profile that had only the availability.
use laburi_to.Base.{pos, none, some, List, [], ◌∷◌, All, nat_beq}
use laburi_to.Employee.Steps.Writes.{
  ProfileWrite, new_location, new_tech, changed_availability, changed_education, valid, kind_code,
}

abbrev writes : List ProfileWrite
writes =
    new_location (record {
      internet_connections = record { type = "fiber"; speed = "30mb" } ∷ [];
      timezone = "UTC";
    })
    ∷ changed_education (
        record { title = "law"; status = "completed"; education_type = "tertiary"; document = none }
        ∷ [])
    ∷ new_tech (record { os = "linux"; paid_software = some [] })
    ∷ changed_availability (record {
      available_hours_per_day = pos 8;
      compatible_projects = none;
      incompatible_projects = some (pos 70000);
    })
    ∷ []
