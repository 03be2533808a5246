-- ===== src/Store/Actions.antt =====
-- Methods of `CameraStore` that may raise (apps/server/app/shared/errors.py): the store comes back
-- beside an exception too, since what was written before it stays written.
use project_digital_twin.Base.{
  ℕ, ◌≡◌, refl, Bool, true, false, Option, none, some, nat_eq, list_eq, pair_eq, option_eq,
  if◌then◌else◌,
}
use project_digital_twin.Store.State.{Store}

-- Why a write job or a plan is refused: the prefix of the message of `FileWriteConflict`.
pub data WriteConflict : Type 0 where
  file_locked file_conflict backup_required blocked confirmation_missing : WriteConflict

pub data Error : Type 0 where
  key_error value_error attribute_error runtime_error : Error
  organize_validation organize_conflict : Error
  project_validation project_conflict : Error
  revision_conflict : (entity_id base_revision current_revision : ℕ) → Error
  file_import_conflict : (changeset_id : ℕ) → Error
  file_write_conflict : WriteConflict → Error

pub data Result {ℓ} (A : Type ℓ) : Type ℓ where
  ok : A → Result A
  err : Error → Result A

abbrev pub Action {ℓ} : Type ℓ → Type ℓ
Action A = Store → Result A × Store

-- `if not test: raise e`
abbrev pub require {ℓ} : {A : Type ℓ} → Bool → Error → Action A → Action A
require test e rest s = if test then rest s else (err e, s)

-- `x = …; if x is None: raise e`
abbrev pub require_some {ℓ κ} :
    {A : Type ℓ} {B : Type κ} → Option A → Error → (A → Action B) → Action B
require_some none e rest s = (err e, s)
require_some (some a) e rest s = rest a s

abbrev pub is_ok {ℓ} : {A : Type ℓ} → Result A → Bool
is_ok (ok a) = true
is_ok (err e) = false

-- Rules for what holds of the store after an action, raised or not: one for each guard.
module _ {ℓ} {A : Type 0} (P : Store → Type ℓ) (m : Action A) (s : Store) where
  pub keeps_require :
      (test : Bool) (e : Error) → P s → (test ≡ true → P (m s).1) → P (require test e m s).1
  keeps_require true e h k = k refl
  keeps_require false e h k = h

module _ {ℓ κ} {A : Type 0} {B : Type κ} (P : Store → Type ℓ) (f : B → Action A) (s : Store) where
  pub keeps_require_some :
      (o : Option B) (e : Error)
      → P s
      → ((b : B) → o ≡ some b → P (f b s).1)
      → P (require_some o e f s).1
  keeps_require_some none e h k = h
  keeps_require_some (some b) e h k = k b refl
