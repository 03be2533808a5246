-- ===== src/Design/Settled.antt =====
-- The three ways in which the approval of a file import ends (apps/server/app/domain.py).
use project_digital_twin.Base.{
  ℕ, ◌≡◌, ◌≢◌, false, some, List, map, Text, get, nat_eq, list_eq, pair_eq, option_eq, length, All,
}
use project_digital_twin.Store.Values.{value_eq}
use project_digital_twin.Store.Contracts.{
  EntityRevision, ChangeSetStatus, ChangeItem, Conflict, ChangeSet,
}
use project_digital_twin.Store.Enums.{representation_eq, item_type_eq, membership_eq}
use project_digital_twin.Store.State.{Store}
use project_digital_twin.Store.Actions.{file_import_conflict, Result, ok, err, is_ok}
use project_digital_twin.Design.Approved.{IsStored}

module _ (project_id id : ℕ) (actor : Text) (s : Store) (c : ChangeSet) where
  abbrev pub Approval : Type 0
  Approval = Result (ChangeSet × List EntityRevision) × Store

  -- The change set is stored with this status and these conflicts.
  abbrev pub IsLeftAt : ChangeSetStatus → List Conflict → Store → Type 0
  IsLeftAt status conflicts s' =
      get s'.imports.changesets id ≡ some (record c { status = status; conflicts = conflicts })

  -- Some item has a conflict: no camera and no revision changes, and the change set has the conflicts.
  abbrev pub IsConflicting : List Conflict → Approval → Type 0
  IsConflicting conflicts (result, s') =
      (length conflicts ≢ 0)
      × (result ≡ err (file_import_conflict c.id))
      × (s'.design ≡ s.design)
      × IsLeftAt ChangeSetStatus.conflict conflicts s'

  -- All items are applied, each with one revision that has its merged fields and stands in a history.
  abbrev pub IsApplied : List ChangeItem → Approval → Type 0
  IsApplied resolved (result, s') =
      (revisions : List EntityRevision) × (result
        ≡ ok (record c { status = ChangeSetStatus.applied }, revisions))
      × (map (λ (r : EntityRevision). r.content) revisions
          ≡ map (λ (item : ChangeItem). item.patch) resolved)
      × All (IsStored s') revisions
      × IsLeftAt ChangeSetStatus.applied c.conflicts s'

  -- Some item raised: the change set is left between pending and applied.
  abbrev pub IsInterrupted : Approval → Type 0
  IsInterrupted (result, s') =
      (is_ok result ≡ false) × IsLeftAt ChangeSetStatus.approved c.conflicts s'
