-- ===== src/Employer/Models.antt =====
-- internal/employer/models.go and store.go. A nil slice is `none`, and `trim` is strings.TrimSpace.
use laburi_to.Base.{ℕ, ℤ, String, Option, none, some, List, [], map}
use laburi_to.Database.Connection.{M}

pub record CreateEmployerRequest : Type 0 where
  pub name : String
  pub industry : String
  pub location : String
  pub hiring_modalities : Option (List String)

-- `if list == nil { list = []string{} }`
unfoldable pub present : Option (List String) → Option (List String)
present none = some []
present (some texts) = some texts

unfoldable pub trimmed : (String → String) → Option (List String) → Option (List String)
trimmed trim none = none
trimmed trim (some texts) = some (map trim texts)

-- CreateEmployerRequest.Normalize
unfoldable pub normalize_request : (String → String) → CreateEmployerRequest → CreateEmployerRequest
unfolding present trimmed
normalize_request trim r = record {
  name = trim r.name;
  industry = trim r.industry;
  location = trim r.location;
  hiring_modalities = trimmed trim (present r.hiring_modalities);
}

pub record Employer : Type 0 where
  pub id : ℤ
  pub user_id : ℤ
  pub name : String
  pub industry : String
  pub location : String
  pub hiring_modalities : Option (List String)
  pub created_at : ℕ
  pub updated_at : ℕ

-- Employer.Normalize
unfoldable pub normalize : Employer → Employer
unfolding present
normalize e = record e { hiring_modalities = present e.hiring_modalities }

pub record EmployerStore : Type 0 where
  pub create_employer : CreateEmployerRequest → ℤ → M Employer
  pub get_employer_by_user_id : ℤ → M Employer
