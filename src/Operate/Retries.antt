-- ===== src/Operate/Retries.antt =====
-- Repeated submissions of an observation (apps/server/app/domain.py, `submit_observation`).
use project_digital_twin.Base.{
  ◌⊎◌, inl, inr, arith, ℕ, ◌≡◌, refl, Bool, true, false, Option, none, some, Text, get, nat_eq,
  list_eq, pair_eq, option_eq, get-put_self,
}
use project_digital_twin.Store.Values.{value_eq}
use project_digital_twin.Store.Tables.{Observation}
use project_digital_twin.Store.Enums.{representation_eq, item_type_eq, membership_eq}
use project_digital_twin.Store.State.{Store, next_uuid, next_time, draw, tick}
use project_digital_twin.Store.Actions.{is_ok, key_error, Result, ok, require, require_some}
use project_digital_twin.Journal.Events.{add_event}
use project_digital_twin.Operate.Observations.{
  ObservationArgs, is_packed, has_camera, new_observation, store_observation, submit_new,
  submit_known, submit_observation,
}

-- A submission has raised and changed nothing, or its key names a stored observation, the one returned.
abbrev pub IsSubmitted : Text → Store → Result Observation × Store → Type 0
IsSubmitted key s (result, s') =
    ((is_ok result ≡ false) × (s' ≡ s))
    ⊎ ((o : Observation) × (id : ℕ) × (result ≡ ok o)
        × (get s'.operate.idempotency key ≡ some id)
        × (get s'.operate.observations id ≡ some o))

-- After a submission its key is known.
submit_again :
    (b : ObservationArgs) (key : Text) (s : Store) (o : Observation)
    (out : Result Observation × Store)
    → IsSubmitted key s out
    → out.0 ≡ ok o
    → submit_observation b key (out.1) ≡ (ok o, out.1)
unfolding submit_observation
submit_again b key s o (result, s') (inl (raised, kept)) same =
    absurd (ground (arith, raised, same))
submit_again b key s o (result, s') (inr (p, id, returned, known, stored)) same =
    rw (known, stored) (cc (returned, same))

module _ (a : ObservationArgs) (key : Text) (s : Store) where
  submit_new-IsSubmitted : IsSubmitted key s (submit_new a key s)
  unfolding add_event
  submit_new-IsSubmitted =
      by_guards (is_packed a (get s.operate.field_packages a.field_package_id))
        (has_camera a (get s.design.cameras a.entity_id))
    where
      by_guards :
          (packed : Bool) (seen : Bool)
          → IsSubmitted key s
              (require packed key_error (require seen key_error (store_observation a key)) s)
      by_guards false seen = inl (refl, refl)
      by_guards true false = inl (refl, refl)
      by_guards true true =
          let o = new_observation (next_uuid (draw s)) a key (next_uuid s) (next_time (tick s)) in
          inr (
            o,
            o.id,
            refl,
            get-put_self s.operate.idempotency key o.id,
            get-put_self s.operate.observations o.id o,
          )

  submit_known-IsSubmitted :
      (o : Option ℕ)
      → get s.operate.idempotency key ≡ o
      → IsSubmitted key s (submit_known a key o s)
  submit_known-IsSubmitted none e = submit_new-IsSubmitted
  submit_known-IsSubmitted (some id) e = by_observation (get s.operate.observations id) refl
    where
      by_observation :
          (found : Option Observation)
          → get s.operate.observations id ≡ found
          → IsSubmitted key s (require_some found key_error (λ o s. (ok o, s)) s)
      by_observation none n = inl (refl, refl)
      by_observation (some o) n = inr (o, id, refl, e, n)

  -- A submission that raises leaves the store as it was. After one that succeeds its key names an
  -- observation that is stored, and it is the one returned.
  pub submit_observation-IsSubmitted : IsSubmitted key s (submit_observation a key s)
  unfolding submit_observation
  submit_observation-IsSubmitted = submit_known-IsSubmitted (get s.operate.idempotency key) refl

  -- A retry is idempotent. After a submission that returned `o`, each submission with the same key
  -- returns `o` again and leaves the store alone, whatever its project and its other arguments are.
  pub submit_observation_twice :
      (o : Observation)
      → (submit_observation a key s).0 ≡ ok o
      → (b : ObservationArgs)
      → (let s' = (submit_observation a key s).1 in submit_observation b key s' ≡ (ok o, s'))
  submit_observation_twice o e b =
      submit_again b key s o (submit_observation a key s) submit_observation-IsSubmitted e
