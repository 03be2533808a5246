-- ===== src/Authorization/Tests.antt =====
-- Permissions of single principals.
use project_digital_twin.Base.{
  ◌≡◌, refl, ◌↔◌, true, none, [], ◌∷◌, text, get, contains, nat_eq, list_eq, pair_eq, option_eq,
  is_some, list_beq,
}
use project_digital_twin.Authorization.Roles.{
  Role, designer, Principal, roles_for, intersects, authorize,
}
use project_digital_twin.Authorization.Scope.{IsShared, authorize_lem}

abbrev drafter : Principal
drafter = record { subject = text "designer-1"; roles = designer ∷ []; project_ids = 1 ∷ [] }

authorize_lem_example : (authorize drafter (text "design.edit") 1 ≡ none) ↔ (
    (contains 1 drafter.project_ids ≡ true)
    × ((role : Role) × IsShared drafter.roles (roles_for (text "design.edit")) role))
authorize_lem_example = authorize_lem drafter (text "design.edit") 1

-- The cases of the server's own tests.
drafter_edits : authorize drafter (text "design.edit") 1 ≡ none
unfolding authorize roles_for get list_beq contains intersects
drafter_edits = refl

drafter_cannot_approve : is_some (authorize drafter (text "approval.apply") 1) ≡ true
unfolding authorize roles_for get list_beq contains intersects
drafter_cannot_approve = refl

drafter_stays_inside : is_some (authorize drafter (text "design.edit") 2) ≡ true
unfolding authorize roles_for get list_beq contains intersects
drafter_stays_inside = refl
