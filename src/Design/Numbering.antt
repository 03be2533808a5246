-- ===== src/Design/Numbering.antt =====
-- The revisions of an entity are numbered without gaps (apps/server/app/domain.py).
use project_digital_twin.Base.{
  ℕ, ◌+◌, ◌≡◌, refl, sym, ap, ◌∙◌, ◌≢◌, ◌↔◌, ◌⊎◌, inl, inr, Bool, true, false, Option, none, some,
  List, [], ◌∷◌, ◌++◌, arith, Text, get, put, ◌==◌, nat_eq, list_eq, pair_eq, option_eq, length,
  last?, last?-append_single, Bool-cases, Option-cases, get-put, get-put_self, if◌then◌else◌,
}
use mathlib.Core.Path.{subst}
use project_digital_twin.Store.Values.{Value, value_eq}
use project_digital_twin.Store.Contracts.{Representation, EntityRevision}
use project_digital_twin.Store.Tables.{Camera}
use project_digital_twin.Store.Enums.{representation_eq, item_type_eq, membership_eq}
use project_digital_twin.Store.State.{Store, next_uuid, draw}
use project_digital_twin.Store.Actions.{key_error, ok, require_some, is_ok}
use project_digital_twin.Design.Cameras.{camera_payload}
use project_digital_twin.Design.Revisions.{
  history, RevisionArgs, plain, new_revision, append_revision, current_revision, put_camera,
  unchanged, change_camera, import_known, import_at, import_camera, is_at, revision_number,
  update_geometry,
}

-- The revisions of one entity in one representation, numbered from `n + 1`.
abbrev pub NumberedAs : ℕ → Representation → ℕ → List EntityRevision → Type 0
NumberedAs id rep n [] = Unit
NumberedAs id rep n (r ∷ revisions) =
    (r.entity_id ≡ id)
    × (r.representation ≡ rep)
    × (r.revision ≡ n + 1)
    × NumberedAs id rep (n + 1) revisions

-- Each history holds the revisions of its entity and representation, numbered from 1.
abbrev pub IsNumbered : Store → Type 0
IsNumbered s = (id : ℕ) (rep : Representation) → NumberedAs id rep 0 (history s id rep)

NumberedAs-append :
    (id : ℕ) (rep : Representation) (n : ℕ) (revisions : List EntityRevision) (r : EntityRevision)
    → NumberedAs id rep n revisions
    → r.entity_id ≡ id
    → r.representation ≡ rep
    → r.revision ≡ n + length revisions + 1
    → NumberedAs id rep n (revisions ++ r ∷ [])
NumberedAs-append id rep n [] r h e p q = (e, p, omega arith, tt)
NumberedAs-append id rep n (x ∷ revisions) r h e p q =
    let (same_id, same_rep, number, rest) = h in
    (same_id, same_rep, number, NumberedAs-append id rep (n + 1) revisions r rest e p (omega arith))

last_number :
    (id : ℕ) (rep : Representation) (n : ℕ) (revisions : List EntityRevision)
    → NumberedAs id rep n revisions
    → length revisions ≢ 0
    → revision_number (last? revisions) ≡ n + length revisions
last_number id rep n [] h ne = absurd (ne refl)
last_number id rep n (r ∷ []) h ne = h.2
last_number id rep n (r ∷ x ∷ revisions) h ne =
    let rest = last_number id rep (n + 1) (x ∷ revisions) h.3 (λ e. absurd (cc e)) in omega arith

pub key_iff : (a b : ℕ × Representation) → (a == b ≡ true) ↔ (a ≡ b)
key_iff a b = (pair_eq {A = ℕ} {B = Representation}).eqb_iff a b

module _ (camera : Camera) (a : RevisionArgs) (s : Store) where
  -- The history of this entity in this representation gets the revision.
  abbrev pub is_extended : ℕ → Representation → Bool
  is_extended id rep = ◌==◌ {A = ℕ × Representation} (camera.entity_id, a.representation) (id, rep)

  -- A new revision is put behind the history of its entity and representation; no other history changes.
  pub history-append_revision :
      (id : ℕ) (rep : Representation)
      → history (append_revision camera a s).1 id rep ≡ (
          if is_extended id rep
          then history s camera.entity_id a.representation ++ new_revision camera a s ∷ []
          else history s id rep)
  unfolding append_revision
  history-append_revision id rep = ground (
    arith,
    get-put s.design.revisions (camera.entity_id, a.representation) (id, rep)
        (history s camera.entity_id a.representation ++ new_revision camera a s ∷ []),
  )

  extended-NumberedAs :
      IsNumbered s
      → NumberedAs camera.entity_id a.representation 0
          (history s camera.entity_id a.representation ++ new_revision camera a s ∷ [])
  extended-NumberedAs h =
      NumberedAs-append camera.entity_id a.representation 0
        (history s camera.entity_id a.representation) (new_revision camera a s)
        (h camera.entity_id a.representation) refl refl (omega arith)

  pub append_revision-IsNumbered : IsNumbered s → IsNumbered (append_revision camera a s).1
  append_revision-IsNumbered h id rep =
      rw (history-append_revision id rep) (elim (Bool-cases (is_extended id rep)) [
        | inl same ↦ rw same (
            subst
              (λ (k : ℕ × Representation).
                NumberedAs k.0 k.1 0
                  (history s camera.entity_id a.representation ++ new_revision camera a s ∷ []))
              ((key_iff (camera.entity_id, a.representation) (id, rep)).0 same)
              (extended-NumberedAs h))
        | inr differs ↦ rw differs (h id rep)
      ])

  -- The appended revision is the current one.
  pub current_revision-append_revision :
      current_revision (append_revision camera a s).1 camera.entity_id a.representation
      ≡ some (new_revision camera a s)
  unfolding append_revision current_revision
  current_revision-append_revision =
      rw get-put_self (
        last?-append_single (history s camera.entity_id a.representation) (new_revision camera a s))

-- There is a current revision, and it has the base number.
abbrev pub IsAtBase : Option EntityRevision → ℕ → Type 0
IsAtBase o base = (old : EntityRevision) × (o ≡ some old) × (old.revision ≡ base)

pub is_at-IsAtBase : (o : Option EntityRevision) (base : ℕ) → is_at o base ≡ true → IsAtBase o base
is_at-IsAtBase (some r) base e = (r, refl, ground (arith, e))
is_at-IsAtBase none base e = absurd (cc e)

pub not_is_at-IsAtBase :
    (o : Option EntityRevision) (base : ℕ) → is_at o base ≡ false → ¬ IsAtBase o base
not_is_at-IsAtBase o base e (old, there, number) = ground (arith, rw there at e, number)

is_at_number :
    (o : Option EntityRevision) (base : ℕ) → is_at o base ≡ true → revision_number o ≡ base
is_at_number (some r) base e = ground (arith, e)
is_at_number none base e = absurd (cc e)

module _ (s : Store) (h : IsNumbered s) where
  -- The number of the current revision is the number of revisions.
  pub current_number :
      (id : ℕ) (rep : Representation)
      → revision_number (current_revision s id rep) ≡ length (history s id rep)
  unfolding current_revision
  current_number id rep = counted (history s id rep) (h id rep)
    where
      counted :
          (revisions : List EntityRevision)
          → NumberedAs id rep 0 revisions
          → revision_number (last? revisions) ≡ length revisions
      counted [] n = refl
      counted (r ∷ revisions) n = last_number id rep 0 (r ∷ revisions) n (omega arith) ∙ omega arith

  -- Importing a camera keeps all histories numbered from 1.
  pub import_camera-IsNumbered :
      (project_id : ℕ) (camera : Camera) (created_by : Text)
      → IsNumbered (import_camera project_id camera created_by s).1
  unfolding import_camera
  import_camera-IsNumbered project_id camera created_by =
      by_code (get s.design.camera_codes (project_id, camera.code))
    where
      by_payload :
          (existing : Camera) (same : Bool)
          → IsNumbered
              (if same then (ok unchanged, s) else change_camera existing camera created_by s).1
      by_payload existing true = h
      by_payload existing false =
          let camera' = record camera { entity_id = existing.entity_id } in
          append_revision-IsNumbered camera' (plain Representation.designed created_by none)
            (put_camera s existing.entity_id camera') h

      by_camera :
          (o : Option Camera)
          → IsNumbered (require_some o key_error (import_known camera created_by) s).1
      by_camera none = h
      by_camera (some existing) =
          by_payload existing (camera_payload existing == camera_payload camera)

      by_code : (o : Option ℕ) → IsNumbered (import_at project_id camera created_by o s).1
      by_code none =
          append_revision-IsNumbered camera (plain Representation.designed created_by none)
            (record s {
              design = record (s.design) {
                cameras = put s.design.cameras camera.entity_id camera;
                camera_codes = put s.design.camera_codes (project_id, camera.code) camera.entity_id;
              };
            })
            h
      by_code (some existing_id) = by_camera (get s.design.cameras existing_id)

  module _ (project_id id : ℕ) (latitude longitude : Value) (base : ℕ) (created_by : Text) where
    -- What a successful update of a position has done.
    abbrev pub IsUpdated : EntityRevision → Store → Type 0
    IsUpdated r s' =
        (current_revision s' id Representation.designed ≡ some r)
        × (r.revision ≡ base + 1)
        × (r.geometry ≡ some (latitude, longitude))

    set_geometry-IsUpdated :
        (camera : Camera)
        → is_at (current_revision s id Representation.designed) base ≡ true
        → camera.entity_id ≡ id
        → (let a = record (plain Representation.designed created_by (some (next_uuid s))) {
          geometry = some (latitude, longitude);
        } in
            IsUpdated (new_revision camera a (draw s)) (append_revision camera a (draw s)).1)
    set_geometry-IsUpdated camera current e =
        let a = record (plain Representation.designed created_by (some (next_uuid s))) {
          geometry = some (latitude, longitude);
        } in
        let number = current_number id Representation.designed in
        let at_base = is_at_number (current_revision s id Representation.designed) base current in
        (
          subst
              (λ i.
                current_revision (append_revision camera a (draw s)).1 i Representation.designed
                ≡ some (new_revision camera a (draw s)))
              e (current_revision-append_revision camera a (draw s)),
          ap (λ i. length (history s i Representation.designed) + 1) e
              ∙ ap (λ n. n + 1) (sym number ∙ at_base),
          refl,
        )

    -- The camera is one of the project, and its current revision has the base number.
    abbrev pub CanUpdate : Camera → Type 0
    CanUpdate camera =
        (get s.design.cameras id ≡ some camera)
        × (camera.project_id ≡ project_id)
        × IsAtBase (current_revision s id Representation.designed) base

    -- Where all histories are numbered from 1, an update of a position is optimistic. Either the camera
    -- is one of the project, it has a current revision and that has the base number; then the update
    -- succeeds, and, if the camera stands under its own identifier, the next revision, with the
    -- position, is the current one. Or one of these fails; then it raises and the store is as before.
    pub update_geometry_lem :
        let (result, s') = update_geometry project_id id latitude longitude base created_by s in
        ((camera : Camera) × (r : EntityRevision) × (result ≡ ok r)
          × (camera.entity_id ≡ id → IsUpdated r s')
          × CanUpdate camera)
        ⊎ ((is_ok result ≡ false) × (s' ≡ s) × ((camera : Camera) → ¬ CanUpdate camera))
    unfolding update_geometry
    update_geometry_lem = elim (Option-cases (get s.design.cameras id)) [
      | inl missing ↦ rw missing (inr (refl, refl, λ camera can. absurd (cc (missing, can.0))))
      | inr (camera, found) ↦ rw found (elim (Bool-cases (camera.project_id == project_id)) [
        | inr foreign ↦
            rw foreign (inr (refl, refl, λ x can. ground (arith, foreign, found, can.0, can.1)))
        | inl own ↦
            rw own (elim (Bool-cases (is_at (current_revision s id Representation.designed) base)) [
              | inr old ↦ rw old (
                  inr (
                    refl,
                    refl,
                    λ x can.
                        not_is_at-IsAtBase (current_revision s id Representation.designed) base old
                          can.2,
                  ))
              | inl current ↦ rw current (
                  inl (
                    camera,
                    _,
                    refl,
                    set_geometry-IsUpdated camera current,
                    (
                      refl,
                      ground (arith, own),
                      is_at-IsAtBase (current_revision s id Representation.designed) base current,
                    ),
                  ))
            ])
      ])
    ]

    -- An update of a position keeps all histories numbered from 1, raised or not.
    pub update_geometry-IsNumbered :
        IsNumbered (update_geometry project_id id latitude longitude base created_by s).1
    unfolding update_geometry
    update_geometry-IsNumbered = elim (Option-cases (get s.design.cameras id)) [
      | inl missing ↦ rw missing h
      | inr (camera, found) ↦ rw found (elim (Bool-cases (camera.project_id == project_id)) [
        | inr foreign ↦ rw foreign h
        | inl own ↦
            rw own (elim (Bool-cases (is_at (current_revision s id Representation.designed) base)) [
              | inr stale ↦ rw stale h
              | inl current ↦ rw current (append_revision-IsNumbered camera _ (draw s) h)
            ])
      ])
    ]
