-- ===== src/Authorization/Roles.antt =====
-- Roles, principals and `authorize` (apps/server/app/authorization.py). `Role` is a `StrEnum`: a role is its text.
use project_digital_twin.Base.{
  ℕ, Bool, false, ◌||◌, not, Option, none, some, List, [], ◌∷◌, Text, text, Dict, get, contains,
  nat_eq, list_eq, pair_eq, option_eq, get_or, if◌then◌else◌,
}

abbrev pub Role : Type 0
Role = Text

abbrev pub project_admin : Role
project_admin = text "ProjectAdmin"

abbrev pub project_engineer : Role
project_engineer = text "ProjectEngineer"

abbrev pub designer : Role
designer = text "Designer"

abbrev pub approver : Role
approver = text "Approver"

abbrev pub contractor_user : Role
contractor_user = text "ContractorUser"

abbrev pub viewer : Role
viewer = text "Viewer"

pub record Principal : Type 0 where
  pub subject : Text
  pub roles : List Role
  pub project_ids : List ℕ

pub data AuthorizationError : Type 0 where
  not_scoped not_authorized : AuthorizationError

abbrev everyone : List Role
everyone = project_admin ∷ project_engineer ∷ designer ∷ approver ∷ contractor_user ∷ viewer ∷ []

abbrev editors : List Role
editors = project_admin ∷ project_engineer ∷ designer ∷ []

abbrev reviewers : List Role
reviewers = project_admin ∷ project_engineer ∷ designer ∷ approver ∷ []

-- `allowed_roles`
abbrev pub allowed_roles : Dict Text (List Role)
allowed_roles =
    (text "read", everyone)
    ∷ (text "design.edit", editors)
    ∷ (text "organize.edit", editors)
    ∷ (text "field.submit", project_admin ∷ project_engineer ∷ contractor_user ∷ [])
    ∷ (text "approval.apply", project_admin ∷ approver ∷ [])
    ∷ (text "audit.view", everyone)
    ∷ (text "audit.export", project_admin ∷ project_engineer ∷ [])
    ∷ (text "changeset.approve", project_admin ∷ approver ∷ [])
    ∷ (text "changeset.edit", reviewers)
    ∷ (text "changeset.reject", reviewers)
    ∷ (text "changeset.sync", reviewers)
    ∷ (text "file.restore", project_admin ∷ project_engineer ∷ [])
    ∷ []

-- `allowed_roles.get(action, set())`
unfoldable pub roles_for : Text → List Role
roles_for action = get_or (get allowed_roles action) []

-- `a.intersection(b)` has a member.
unfoldable pub intersects : List Role → List Role → Bool
intersects [] allowed = false
intersects (role ∷ roles) allowed =
    let rest = intersects roles allowed in contains role allowed || rest

-- The exception, if any.
unfoldable pub authorize :
    Principal → (action : Text) → (project_id : ℕ) → Option AuthorizationError
authorize principal action project_id =
    if not (contains project_id principal.project_ids)
    then some not_scoped
    else if not (intersects principal.roles (roles_for action))
    then some not_authorized
    else none
