-- ===== src/Operate/Dashboard.antt =====
-- The counts of `dashboard` (apps/server/app/domain.py).
use project_digital_twin.Base.{
  ℕ, Bool, true, false, none, some, List, [], ◌∷◌, ◌++◌, map, values, contains, ◌==◌, nat_eq,
  list_eq, pair_eq, option_eq, is_some, length, last?, keep, if◌then◌else◌,
}
use project_digital_twin.Store.Values.{value_eq}
use project_digital_twin.Store.Contracts.{Representation, ChangeSetStatus, ChangeSet}
use project_digital_twin.Store.Tables.{Camera, WorkPackage, Observation}
use project_digital_twin.Store.Enums.{representation_eq, item_type_eq, membership_eq}
use project_digital_twin.Store.State.{Store}
use project_digital_twin.Design.Revisions.{current_revision}

pub record DashboardCounts : Type 0 where
  pub total_camera : ℕ
  pub assigned : ℕ
  pub field_verified : ℕ
  pub pending_approval : ℕ
  pub approved_as_built : ℕ
  pub conflict : ℕ
  pub projection_cursor : ℕ

-- `{…}` of identifiers: a set of them
unfoldable pub id_set : List ℕ → List ℕ
id_set [] = []
id_set (id ∷ ids) = let rest = id_set ids in if contains id ids then rest else id ∷ rest

unfoldable pub entity_ids_of : List WorkPackage → List ℕ
entity_ids_of [] = []
entity_ids_of (x ∷ xs) = x.entity_ids ++ entity_ids_of xs

abbrev pub awaits_approval : ChangeSet → Bool
awaits_approval c = elim c.status [ ChangeSetStatus.pending_approval ↦ true | _ ↦ false ]

abbrev pub is_in_conflict : ChangeSet → Bool
is_in_conflict c = elim c.status [ ChangeSetStatus.conflict ↦ true | _ ↦ false ]

unfoldable pub dashboard : ℕ → Store → DashboardCounts
dashboard project_id s =
    let cameras = keep (λ (x : Camera). x.project_id == project_id) (values s.design.cameras) in
    let packages =
      keep (λ (x : WorkPackage). x.project_id == project_id) (values s.operate.work_packages) in
    let observations =
      keep (λ (x : Observation). x.project_id == project_id) (values s.operate.observations) in
    let changesets =
      keep (λ (x : ChangeSet). x.project_id == project_id) (values s.imports.changesets) in
    record {
      total_camera = length cameras;
      assigned = length (id_set (entity_ids_of packages));
      field_verified = length (id_set (map (λ (x : Observation). x.entity_id) observations));
      pending_approval = length (keep awaits_approval changesets);
      approved_as_built = length (
          keep (λ (x : Camera). is_some (current_revision s x.entity_id Representation.as_built))
            cameras);
      conflict = length (keep is_in_conflict changesets);
      projection_cursor = elim (last? s.journal.outbox) [ none ↦ 0 | some e ↦ e.cursor ];
    }
