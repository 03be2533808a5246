-- ===== src/Writeback/Waiting.antt =====
-- The jobs of a plan while its confirmation creates them (apps/server/app/domain.py,
-- `execute_organize_writeback`).
use project_digital_twin.Base.{
  ℕ, ◌≤◌, ◌≡◌, refl, sym, ◌∙◌, ◌≢◌, inl, inr, true, false, none, some, List, [], ◌∷◌, ◌++◌, arith,
  Dict, get, put, ◌==◌, nat_eq, list_eq, pair_eq, option_eq, is_some, All, All-append, Bool-cases,
  get-cons, get-put, get-put_self, get-empty, IsDict, EntriesOf, EntriesOf-put, nat_beq_iff,
}
use project_digital_twin.Store.Values.{value_eq}
use project_digital_twin.Store.Contracts.{FileWriteJob, FilePlan, WriteBackPreviewPlan}
use project_digital_twin.Store.Enums.{representation_eq, item_type_eq, membership_eq}
use project_digital_twin.Store.State.{Store, next_uuid, draw}
use project_digital_twin.Store.Actions.{file_locked, file_write_conflict, err}
use project_digital_twin.Journal.Events.{add_event}
use project_digital_twin.Writeback.Jobs.{is_pending, new_job, store_job, create_write_job}
use project_digital_twin.Writeback.Plans.{plan_job}

-- The identifiers that are yet to be drawn are in use by no job, and no two of them are the same, as with
-- `uuid4`.
pub record IsFreshJob (s : Store) : Type 0 where
  pub new : (n : ℕ) → s.supply.drawn ≤ n → get s.files.write_jobs (s.supply.uuid n) ≡ none
  pub distinct :
      (m n : ℕ)
      → s.supply.drawn ≤ m
      → s.supply.drawn ≤ n
      → s.supply.uuid m ≡ s.supply.uuid n
      → m ≡ n

-- Jobs under their identifiers.
abbrev pub entered : List FileWriteJob → Dict ℕ FileWriteJob
entered [] = []
entered (j ∷ js) = (j.id, j) ∷ entered js

absent_of : (d l : Dict ℕ FileWriteJob) (k : ℕ) → EntriesOf d l → get d k ≡ none → get l k ≡ none
absent_of d [] k h e = get-empty k
absent_of d ((j, x) ∷ l) k h e = elim (Bool-cases (j == k)) [
  | inl same ↦ absurd (cc (h.0, e, (nat_beq_iff j k).0 same))
  | inr apart ↦ get-cons l j k x ∙ rw apart (absent_of d l k h.1 e)
]

absent_more :
    (js : List FileWriteJob) (j : FileWriteJob) (k : ℕ)
    → get (entered js) k ≡ none
    → j.id == k ≡ false
    → get (entered (js ++ j ∷ [])) k ≡ none
absent_more [] j k h apart = get-cons [] j.id k j ∙ rw apart (get-empty k)
absent_more (x ∷ js) j k h apart =
    let e = get-cons (entered js) x.id k x in
    elim (Bool-cases (x.id == k)) [
      | inl same ↦ absurd (cc (h, rw same at e))
      | inr differs ↦
          get-cons (entered (js ++ j ∷ [])) x.id k x
          ∙ rw differs (absent_more js j k (sym (rw differs at e) ∙ h) apart)
    ]

IsDict-more :
    (js : List FileWriteJob) (j : FileWriteJob)
    → IsDict (entered js)
    → get (entered js) j.id ≡ none
    → IsDict (entered (js ++ j ∷ []))
IsDict-more [] j h new = (get-empty j.id, tt)
IsDict-more (x ∷ js) j h new =
    let e = get-cons (entered js) x.id j.id x in
    elim (Bool-cases (x.id == j.id)) [
      | inl same ↦ absurd (cc (new, rw same at e))
      | inr differs ↦ (
        absent_more js j x.id h.0 (ground (arith, differs)),
        IsDict-more js j h.1 (sym (rw differs at e) ∙ new),
      )
    ]

EntriesOf-more :
    (d : Dict ℕ FileWriteJob) (js : List FileWriteJob) (j : FileWriteJob)
    → EntriesOf d (entered js)
    → get d j.id ≡ some j
    → EntriesOf d (entered (js ++ j ∷ []))
EntriesOf-more d [] j h e = (e, tt)
EntriesOf-more d (x ∷ js) j h e = (h.0, EntriesOf-more d js j h.1 e)

pub create_unlocked :
    (project_id : ℕ) (plan : WriteBackPreviewPlan) (f : FilePlan) (s : Store)
    → get s.files.file_locks f.file_id ≡ none
    → create_write_job project_id (plan_job s plan f) s
      ≡ store_job (new_job (next_uuid s) project_id (plan_job s plan f)) (draw s)
unfolding create_write_job
create_unlocked project_id plan f s e = rw (e, is_some) refl

pub create_locked :
    (project_id : ℕ) (plan : WriteBackPreviewPlan) (f : FilePlan) (s : Store) (i : ℕ)
    → get s.files.file_locks f.file_id ≡ some i
    → create_write_job project_id (plan_job s plan f) s
      ≡ (err (file_write_conflict file_locked), draw s)
unfolding create_write_job
create_locked project_id plan f s i e = rw (e, is_some) refl

-- After a job with the next identifier is stored, the identifiers behind it are fresh.
stored-IsFreshJob :
    (j : FileWriteJob) (s : Store)
    → IsFreshJob s
    → j.id ≡ next_uuid s
    → IsFreshJob (store_job j (draw s)).1
unfolding add_event
stored-IsFreshJob j s h e = record {
  new = λ n le.
      get-put s.files.write_jobs j.id (s.supply.uuid n) j
      ∙ (elim (Bool-cases (j.id == s.supply.uuid n)) [
        | inl same ↦ absurd (
            behind n le (
              h.distinct s.supply.drawn n (omega arith) (earlier n le)
                (sym e ∙ (nat_beq_iff j.id (s.supply.uuid n)).0 same)))
        | inr apart ↦ rw apart (h.new n (earlier n le))
      ]);
  distinct = λ m n le le'. h.distinct m n (earlier m le) (earlier n le');
}
  where
    earlier : (n : ℕ) → (store_job j (draw s)).1.supply.drawn ≤ n → s.supply.drawn ≤ n
    earlier n le = omega arith

    behind : (n : ℕ) → (store_job j (draw s)).1.supply.drawn ≤ n → s.supply.drawn ≢ n
    behind n le e = omega arith

-- The jobs of a plan that were created: they stand in the store, pending, under identifiers of their
-- own.
pub record AreWaiting (js : List FileWriteJob) (s : Store) : Type 0 where
  pub fresh : IsFreshJob s
  pub apart : IsDict (entered js)
  pub there : EntriesOf s.files.write_jobs (entered js)
  pub pending : All (λ (j : FileWriteJob). is_pending j.status ≡ true) js

pub stored-AreWaiting :
    (js : List FileWriteJob) (j : FileWriteJob) (s : Store)
    → AreWaiting js s
    → j.id ≡ next_uuid s
    → is_pending j.status ≡ true
    → AreWaiting (js ++ j ∷ []) (store_job j (draw s)).1
unfolding add_event
stored-AreWaiting js j s h e waits =
    let new = rw (sym e) at (h.fresh.new s.supply.drawn (omega arith)) in
    let unknown = absent_of s.files.write_jobs (entered js) j.id h.there new in
    record {
      fresh = stored-IsFreshJob j s h.fresh e;
      apart = IsDict-more js j h.apart unknown;
      there =
          EntriesOf-more (put s.files.write_jobs j.id j) js j
            (EntriesOf-put s.files.write_jobs (entered js) j.id j unknown h.there)
            (get-put_self s.files.write_jobs j.id j);
      pending =
          All-append (λ (x : FileWriteJob). is_pending x.status ≡ true) js (j ∷ []) h.pending
            (waits, tt);
    }

abbrev pub no_jobs-AreWaiting : (s : Store) → IsFreshJob s → AreWaiting [] s
no_jobs-AreWaiting s h = record { fresh = h; apart = tt; there = tt; pending = tt }
