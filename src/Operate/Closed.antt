-- ===== src/Operate/Closed.antt =====
-- A change set is decided once (apps/server/app/domain.py).
use project_digital_twin.Base.{
  ℕ, ◌≡◌, refl, inl, inr, Bool, false, Option, none, some, Text, nat_eq, list_eq, pair_eq,
  option_eq, Bool-cases, Option-cases,
}
use project_digital_twin.Store.Values.{Value, value_eq}
use project_digital_twin.Store.Contracts.{ChangeSet}
use project_digital_twin.Store.Enums.{representation_eq, item_type_eq, membership_eq}
use project_digital_twin.Store.State.{Store}
use project_digital_twin.Store.Actions.{Result, is_ok}
use project_digital_twin.Design.Approval.{
  changeset_in, is_file_import, is_pending_approval, approve_file_import_changeset,
}
use project_digital_twin.Design.Review.{
  edit_file_import_changeset, is_import, reject_file_import_changeset,
}
use project_digital_twin.Operate.AsBuilt.{approve_changeset}

-- How a change set is edited and decided; the mark of a conflict, which is set on any, is not among
-- these.
pub data Review : Type 0 where
  edit : (identity field : Text) → Value → Review
  reject : Option Text → Review
  approve_import approve_observation : Review

abbrev pub after {ℓ} : {A : Type ℓ} → Result A × Store → Bool × Store
after (result, s) = (is_ok result, s)

-- Whether the review succeeds, and the store behind it.
unfoldable pub review : Review → (project_id id : ℕ) → Text → Store → Bool × Store
review (edit identity field v) project_id id actor s =
    after (edit_file_import_changeset project_id id identity field v actor s)
review (reject why) project_id id actor s =
    after (reject_file_import_changeset project_id id actor why s)
review approve_import project_id id actor s =
    after (approve_file_import_changeset project_id id actor s)
review approve_observation project_id id actor s = after (approve_changeset project_id id actor s)

-- A change set that waits for no approval is decided: each edit, rejection and approval of it, as a file
-- import or as an observation, raises and leaves the store as it was. So it is for a change set that is
-- missing or belongs to another project.
pub decided_is_final :
    (r : Review) (project_id id : ℕ) (actor : Text) (s : Store)
    → ((c : ChangeSet)
        → changeset_in project_id id s ≡ some c
        → is_pending_approval c.status ≡ false)
    → review r project_id id actor s ≡ (false, s)
unfolding review edit_file_import_changeset reject_file_import_changeset
    approve_file_import_changeset approve_changeset
decided_is_final r project_id id actor s closed =
    elim (Option-cases (changeset_in project_id id s)) [
      | inl missing ↦ by_missing r missing
      | inr (c, found) ↦ by_origin r c found (closed c found)
    ]
  where
    by_missing :
        (r : Review)
        → changeset_in project_id id s ≡ none
        → review r project_id id actor s ≡ (false, s)
    by_missing (edit identity field v) e = rw e refl
    by_missing (reject why) e = rw e refl
    by_missing approve_import e = rw e refl
    by_missing approve_observation e = rw e refl

    by_origin :
        (r : Review) (c : ChangeSet)
        → changeset_in project_id id s ≡ some c
        → is_pending_approval c.status ≡ false
        → review r project_id id actor s ≡ (false, s)
    by_origin (edit identity field v) c e n =
        rw (e, n)
          (elim (Bool-cases (is_file_import c.origin)) [ inl i ↦ rw i refl | inr i ↦ rw i refl ])
    by_origin (reject why) c e n =
        rw (e, n) (elim (Bool-cases (is_import c.origin)) [ inl i ↦ rw i refl | inr i ↦ rw i refl ])
    by_origin approve_import c e n =
        rw (e, n)
          (elim (Bool-cases (is_file_import c.origin)) [ inl i ↦ rw i refl | inr i ↦ rw i refl ])
    by_origin approve_observation c e n = rw (e, n) refl
