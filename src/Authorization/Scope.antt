-- ===== src/Authorization/Scope.antt =====
-- Who may do what (apps/server/app/authorization.py).
use project_digital_twin.Base.{
  ℕ, ◌≡◌, ap, ◌↔◌, inl, inr, true, none, List, [], ◌∷◌, arith, Text, contains, ◌==◌, nat_eq,
  list_eq, pair_eq, option_eq, beq_refl, Bool-cases, list_beq_iff,
}
use project_digital_twin.Authorization.Roles.{Role, Principal, roles_for, intersects, authorize}

-- A role that is in both.
abbrev pub IsShared : List Role → List Role → Role → Type 0
IsShared roles allowed role = (contains role roles ≡ true) × (contains role allowed ≡ true)

IsShared-intersects :
    (roles allowed : List Role) (role : Role)
    → IsShared roles allowed role
    → intersects roles allowed ≡ true
unfolding intersects contains
IsShared-intersects [] allowed role h = absurd (ground (arith, h.0))
IsShared-intersects (r ∷ roles) allowed role h = elim (Bool-cases (r == role)) [
  | inl same ↦ ground (arith, h.1, ap (λ x. contains x allowed) ((list_beq_iff r role).0 same))
  | inr differs ↦ ground (arith, IsShared-intersects roles allowed role, h.0, h.1, differs)
]

intersects-IsShared :
    (roles allowed : List Role)
    → intersects roles allowed ≡ true
    → (role : Role) × IsShared roles allowed role
unfolding intersects contains
intersects-IsShared [] allowed h = absurd (cc h)
intersects-IsShared (r ∷ roles) allowed h = elim (Bool-cases (contains r allowed)) [
  | inl here ↦ (r, (ground (arith, beq_refl r), here))
  | inr elsewhere ↦
      let (role, (held, given)) =
        intersects-IsShared roles allowed (ground (arith, h, elsewhere)) in
      (role, (ground (arith, held), given))
]

-- An action is authorized if and only if the principal is scoped to the project and holds a role that
-- the action allows.
pub authorize_lem :
    (principal : Principal) (action : Text) (project_id : ℕ)
    → (authorize principal action project_id ≡ none) ↔ (
        (contains project_id principal.project_ids ≡ true)
        × ((role : Role) × IsShared principal.roles (roles_for action) role))
unfolding authorize
authorize_lem principal action project_id = (
  (λ e. (
    ground (arith, e),
    intersects-IsShared principal.roles (roles_for action) (ground (arith, e)),
  )),
  λ h.
      let (scoped, (role, shared)) = h in
      ground (arith, scoped, IsShared-intersects principal.roles (roles_for action) role shared),
)
