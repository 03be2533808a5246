-- ===== src/Operate/Tests.antt =====
-- Observations and their approval on small stores.
use project_digital_twin.Base.{
  ◌≡◌, refl, ◌⊎◌, false, some, [], ◌∷◌, arith, text, get, put, contains, nat_eq, list_eq, pair_eq,
  option_eq, list_beq,
}
use project_digital_twin.Store.Values.{null, str, value_eq}
use project_digital_twin.Store.Contracts.{ChangeSetStatus, ChangeSet}
use project_digital_twin.Store.Tables.{Camera}
use project_digital_twin.Store.Enums.{representation_eq, item_type_eq, membership_eq}
use project_digital_twin.Store.State.{Store}
use project_digital_twin.Store.Actions.{ok}
use project_digital_twin.Journal.Events.{add_event}
use project_digital_twin.Design.Cameras.{blank_camera}
use project_digital_twin.Design.Revisions.{append_revision, import_camera}
use project_digital_twin.Design.Approval.{put_changeset, changeset_in, is_pending_approval}
use project_digital_twin.Operate.Observations.{
  ObservationArgs, observation_changeset, new_observation, submit_observation,
}
use project_digital_twin.Operate.AsBuilt.{approve_changeset}
use project_digital_twin.Store.Samples.{empty_store}
use project_digital_twin.Operate.Packages.{new_field_package}
use project_digital_twin.Operate.Retries.{submit_observation_twice}
use project_digital_twin.Operate.Approvals.{IsStale, IsBuilt, IsMissing, approve_changeset_lem}
use project_digital_twin.Operate.Closed.{approve_observation, review, decided_is_final}

abbrev gate : Camera
gate = record (blank_camera 5 1) { code = str (text "C1"); name = str (text "Gate") }

-- A camera in a field package of project 1.
abbrev packed : Store
packed =
    let s = (import_camera 1 gate (text "ann") empty_store).1 in
    record s {
      operate = record (s.operate) { field_packages = (3, new_field_package 3 1 2 (5 ∷ [])) ∷ [] };
    }

abbrev seen : ObservationArgs
seen = record {
  project_id = 1;
  field_package_id = 3;
  entity_id = 5;
  base_revision = 1;
  operator_id = text "op";
  gps = null;
  form_data = str (text "ok");
}

abbrev submitted : Store
submitted = (submit_observation seen (text "k1") packed).1

submit_observation_twice_example :
    submit_observation (record seen { project_id = 2 }) (text "k1") submitted
    ≡ (ok (new_observation 1002 seen (text "k1") 1001 2), submitted)
unfolding submit_observation import_camera append_revision empty_store contains get put list_beq
submit_observation_twice_example =
    submit_observation_twice seen (text "k1") packed (new_observation 1002 seen (text "k1") 1001 2)
      refl (record seen { project_id = 2 })

submitted_is_found : changeset_in 1 1001 submitted ≡ some (observation_changeset 1001 seen 1)
unfolding submit_observation import_camera append_revision add_event empty_store contains get put
    list_beq
submitted_is_found = refl

approve_changeset_lem_example :
    let c = observation_changeset 1001 seen 1 in
    let out = approve_changeset 1 1001 (text "bob") submitted in
    IsStale 1 1001 (text "bob") submitted c out
    ⊎ IsBuilt 1 1001 (text "bob") submitted c out
    ⊎ IsMissing 1 1001 (text "bob") submitted c out
approve_changeset_lem_example =
    approve_changeset_lem 1 1001 (text "bob") submitted (observation_changeset 1001 seen 1)
      submitted_is_found refl

-- A change set that is already rejected.
abbrev rejected : Store
rejected =
    put_changeset empty_store 9
      (record (observation_changeset 9 seen 0) { status = ChangeSetStatus.rejected })

rejected_is_closed :
    (c : ChangeSet) → changeset_in 1 9 rejected ≡ some c → is_pending_approval c.status ≡ false
unfolding empty_store get put
rejected_is_closed c e = ground (arith, e)

decided_is_final_example : review approve_observation 1 9 (text "bob") rejected ≡ (false, rejected)
decided_is_final_example =
    decided_is_final approve_observation 1 9 (text "bob") rejected rejected_is_closed
