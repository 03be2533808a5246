-- ===== src/Organize/Rules.antt =====
-- What an operation on groups leaves, by the guards that it passes (apps/server/app/domain.py).
use project_digital_twin.Base.{
  ℕ, ◌≡◌, refl, ◌≢◌, inl, inr, Bool, true, false, Option, none, some, List, [], ◌∷◌, arith, get,
  contains, ◌==◌, nat_eq, list_eq, pair_eq, option_eq, Bool-cases, Option-cases, if◌then◌else◌,
  nat_beq_iff,
}
use project_digital_twin.Store.Tables.{OrganizeGroup}
use project_digital_twin.Store.Enums.{representation_eq, item_type_eq, membership_eq}
use project_digital_twin.Store.Values.{value_eq}
use project_digital_twin.Store.State.{Store}
use project_digital_twin.Store.Actions.{
  Error, key_error, runtime_error, organize_conflict, Result, err, Action, require, require_some,
}
use project_digital_twin.Organize.Guards.{group_error, first_error, guard}
use project_digital_twin.Organize.Forest.{IsHierarchy, IsCoherent, AreOf}
use project_digital_twin.Organize.Groups.{with_group}

-- The tables of a store.
abbrev pub HasHierarchy : Store → Type 0
HasHierarchy s = IsHierarchy s.organize.organize_groups s.organize.organize_group_parents

abbrev pub HasCoherence : Store → Type 0
HasCoherence s = IsCoherent s.organize.organize_groups s.organize.organize_group_parents

-- What a call leaves: the hierarchy whether it raises or not, and the agreement of the two tables unless
-- it raises a `RuntimeError`.
pub record IsKept {A : Type 0} (s : Store) (out : Result A × Store) : Type 0 where
  pub hierarchy : HasHierarchy out.1
  pub coherent : HasCoherence s → out.0 ≢ err runtime_error → HasCoherence out.1

module _ {A : Type 0} (s : Store) where
  pub IsKept-err : (e : Error) → HasHierarchy s → IsKept {A = A} s (err e, s)
  IsKept-err e h = record { hierarchy = h; coherent = λ c _. c }

  pub on_guard :
      (o : Option Error) (m : Action A)
      → HasHierarchy s
      → (o ≡ none → IsKept s (m s))
      → IsKept s (guard o m s)
  on_guard none m h k = k refl
  on_guard (some e) m h k = IsKept-err e h

  pub on_require :
      (test : Bool) (e : Error) (m : Action A)
      → HasHierarchy s
      → (test ≡ true → IsKept s (m s))
      → IsKept s (require test e m s)
  on_require true e m h k = k refl
  on_require false e m h k = IsKept-err e h

  pub on_some :
      {B : Type 0} (o : Option B) (e : Error) (f : B → Action A)
      → HasHierarchy s
      → ((b : B) → o ≡ some b → IsKept s (f b s))
      → IsKept s (require_some o e f s)
  on_some none e f h k = IsKept-err e h
  on_some (some b) e f h k = k b refl

module _ (s : Store) (project_id : ℕ) where
  pub on_group :
      (group_id : ℕ) (rest : OrganizeGroup → Action OrganizeGroup)
      → HasHierarchy s
      → ((x : OrganizeGroup)
          → get s.organize.organize_groups group_id ≡ some x
          → x.project_id ≡ project_id
          → IsKept s (rest x s))
      → IsKept s (with_group project_id group_id rest s)
  on_group group_id rest h k = by_group (get s.organize.organize_groups group_id) refl
    where
      by_group :
          (o : Option OrganizeGroup)
          → get s.organize.organize_groups group_id ≡ o
          → IsKept s (with_group project_id group_id rest s)
      by_group none e = rw (e, with_group) (IsKept-err s key_error h)
      by_group (some x) e =
          rw (e, with_group)
            (elim (Bool-cases (x.project_id == project_id)) [
              | inl same ↦ rw same (k x e ((nat_beq_iff x.project_id project_id).0 same))
              | inr differs ↦ rw differs (IsKept-err s organize_conflict h)
            ])

  pub known_group :
      (v : ℕ)
      → group_error s project_id v ≡ none
      → (y : OrganizeGroup) × (get s.organize.organize_groups v ≡ some y)
        × (y.project_id ≡ project_id)
  known_group v e = elim (Option-cases (get s.organize.organize_groups v)) [
    | inl missing ↦ absurd (cc (rw (missing, group_error) at e))
    | inr (y, found) ↦ (y, found, by_project y (rw (found, group_error) at e))
  ]
    where
      by_project :
          (y : OrganizeGroup)
          → (if y.project_id == project_id then none else some organize_conflict) ≡ none
          → y.project_id ≡ project_id
      by_project y h = ground (arith, h)

  pub known_groups :
      (parents : List ℕ)
      → first_error (group_error s project_id) parents ≡ none
      → AreOf s.organize.organize_groups project_id parents
  unfolding first_error contains
  known_groups [] e v m = cc (m)
  known_groups (id ∷ ids) e v m =
      let (here, later) = by_check (group_error s project_id id) e in
      elim (Bool-cases (id == v)) [
        | inl same ↦ known_group v (rw (← (nat_beq_iff id v).0 same) here)
        | inr differs ↦ known_groups ids later v (rw differs at m)
      ]
    where
      by_check :
          (o : Option Error)
          → (elim o [ none ↦ first_error (group_error s project_id) ids | some e' ↦ some e' ])
            ≡ none
          → (o ≡ none) × (first_error (group_error s project_id) ids ≡ none)
      by_check none h = (refl, h)
      by_check (some e') h = cc (h)
