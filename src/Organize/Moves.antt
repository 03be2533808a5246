-- ===== src/Organize/Moves.antt =====
-- Calls on groups, and what a move does (apps/server/app/domain.py).
use mathlib.Core.Path.{subst}
use project_digital_twin.Base.{
  ℕ, suc, ◌≡◌, refl, sym, ◌∙◌, ◌≢◌, ◌⊎◌, inl, inr, false, ◌&&◌, ◌||◌, Option, none, some, List, [],
  ◌∷◌, arith, Text, Platform, get, contains, ◌==◌, nat_eq, list_eq, pair_eq, option_eq, beq_refl,
  length, Bool-cases, get-put, get-put_self, pair_beq,
}
use project_digital_twin.Store.Tables.{OrganizeGroup}
use project_digital_twin.Store.Enums.{representation_eq, item_type_eq, membership_eq}
use project_digital_twin.Store.Values.{value_eq}
use project_digital_twin.Store.State.{Store}
use project_digital_twin.Store.Actions.{runtime_error, Result, ok, err, Action}
use project_digital_twin.Organize.Guards.{group_error, first_error, guard, unique}
use project_digital_twin.Organize.Hierarchy.{Edges, hang, unhang, sorted_ids}
use project_digital_twin.Organize.Cycles.{Edge, ClosesCycle, would_create_cycle_lem}
use project_digital_twin.Organize.Acyclic.{contains-hang, unhang-unchanged, unhang-raised}
use project_digital_twin.Organize.Forest.{AreOf, contains-sorted_ids}
use project_digital_twin.Organize.Rules.{HasHierarchy, IsKept}
use project_digital_twin.Organize.Kept.{
  IsFresh, create_organize_group-IsKept, rename_organize_group-IsKept, update_organize_group-IsKept,
  set_organize_group_status-IsKept, move_organize_group-IsKept, delete_organize_group-IsKept,
}
use project_digital_twin.Organize.Groups.{
  put_edges, with_group, closes_cycle, save_group, rehang, create_organize_group,
  rename_organize_group, move_found, update_organize_group, set_organize_group_status,
  move_organize_group, delete_organize_group,
}

-- The methods that write groups, with their arguments.
pub data GroupCall : Type 0 where
  create : (project_id : ℕ) → (name : Text) → (parent_ids : Option (List ℕ)) → GroupCall
  rename : (project_id group_id : ℕ) → (name : Text) → GroupCall
  update :
      (project_id group_id : ℕ)
      → (name : Option Text) → (parent_ids : Option (List ℕ)) → (status : Option Text) → GroupCall
  move : (project_id group_id : ℕ) → (parent_ids : List ℕ) → GroupCall
  set_status : (project_id group_id : ℕ) → (status : Text) → GroupCall
  delete : (project_id group_id : ℕ) → GroupCall

-- The call without its result.
abbrev pub drop_result {ℓ} : {A : Type ℓ} → Result A × Store → Result {0} Unit × Store
drop_result (ok a, s) = (ok tt, s)
drop_result (err e, s) = (err e, s)

unfoldable pub perform : Platform → GroupCall → Action {0} Unit
perform p (create project_id name parent_ids) s =
    drop_result (create_organize_group p project_id name parent_ids s)
perform p (rename project_id group_id name) s =
    drop_result (rename_organize_group p project_id group_id name s)
perform p (update project_id group_id name parent_ids status) s =
    drop_result (update_organize_group p project_id group_id name parent_ids status s)
perform p (move project_id group_id parent_ids) s =
    drop_result (move_organize_group project_id group_id parent_ids s)
perform p (set_status project_id group_id status) s =
    drop_result (set_organize_group_status p project_id group_id status s)
perform p (delete project_id group_id) s = delete_organize_group project_id group_id s

drop_result-IsKept :
    {A : Type 0} (s : Store) (out : Result A × Store) → IsKept s out → IsKept s (drop_result out)
drop_result-IsKept s (ok a, s') k = record {
  hierarchy = k.hierarchy;
  coherent = λ c _. k.coherent c (λ e. cc (e));
}
drop_result-IsKept s (err e, s') k = record {
  hierarchy = k.hierarchy;
  coherent = λ c n. k.coherent c (λ q. n (cc (q)));
}

-- From a store where no group is above itself and every edge joins two groups of one project, and whose
-- next identifier is not a group's, each call that writes groups leaves such a store, whether it
-- raises or not. Where besides every group's own list of parents agrees with the table of edges, they
-- agree after the call, unless it raises a `RuntimeError`.
pub perform-IsKept :
    (p : Platform) (call : GroupCall) (s : Store)
    → HasHierarchy s
    → IsFresh s
    → IsKept s (perform p call s)
unfolding perform
perform-IsKept p (create project_id name parent_ids) s h fresh =
    drop_result-IsKept s (create_organize_group p project_id name parent_ids s)
      (create_organize_group-IsKept p project_id name parent_ids s h fresh)
perform-IsKept p (rename project_id group_id name) s h fresh =
    drop_result-IsKept s (rename_organize_group p project_id group_id name s)
      (rename_organize_group-IsKept p project_id group_id name s h)
perform-IsKept p (update project_id group_id name parent_ids status) s h fresh =
    drop_result-IsKept s (update_organize_group p project_id group_id name parent_ids status s)
      (update_organize_group-IsKept p project_id group_id name parent_ids status s h)
perform-IsKept p (move project_id group_id parent_ids) s h fresh =
    drop_result-IsKept s (move_organize_group project_id group_id parent_ids s)
      (move_organize_group-IsKept project_id group_id parent_ids s h)
perform-IsKept p (set_status project_id group_id status) s h fresh =
    drop_result-IsKept s (set_organize_group_status p project_id group_id status s)
      (set_organize_group_status-IsKept p project_id group_id status s h)
perform-IsKept p (delete project_id group_id) s h fresh =
    delete_organize_group-IsKept project_id group_id s h

passes_known :
    (s : Store) (project_id : ℕ) (parents : List ℕ)
    → AreOf s.organize.organize_groups project_id parents
    → first_error (group_error s project_id) parents ≡ none
unfolding first_error contains
passes_known s project_id [] known = refl
passes_known s project_id (id ∷ ids) known =
    let (y, found, same) = known id (rw (beq_refl id) refl) in
    let passes : group_error s project_id id ≡ none =
      rw (found, group_error) (rw (same, beq_refl project_id) refl) in
    rw (passes, first_error) (passes_known s project_id ids (λ v m. known v (ground (arith, m))))

with_group-found :
    (s : Store) (project_id group_id : ℕ) (x : OrganizeGroup)
    (rest : OrganizeGroup → Action OrganizeGroup)
    → get s.organize.organize_groups group_id ≡ some x
    → x.project_id ≡ project_id
    → with_group project_id group_id rest s ≡ rest x s
with_group-found s project_id group_id x rest found same =
    rw (found, with_group) (rw (same, beq_refl project_id) refl)

open_cycle :
    (s : Store) (group_id : ℕ) (parents : List ℕ)
    → ¬ ClosesCycle s.organize.organize_group_parents group_id parents
    → closes_cycle s group_id parents ≡ false
open_cycle s group_id parents n =
    let (b, e, iff) = would_create_cycle_lem s.organize.organize_group_parents group_id parents in
    elim (Bool-cases b) [ inl yes' ↦ absurd (n (iff.0 yes')) | inr no' ↦ rw (e, closes_cycle) no' ]

unhang_others :
    (group_id : ℕ) (edges : Edges) (u v : ℕ)
    → u ≢ group_id
    → contains (u, v) (unhang group_id edges).0 ≡ contains (u, v) edges
unfolding unhang contains pair_beq
unhang_others group_id [] u v ne = refl
unhang_others group_id ((child, parent) ∷ edges) u v ne = elim (Bool-cases (child == group_id)) [
  | inl same ↦ rw same (ground (arith, same, ne))
  | inr differs ↦ rw differs (ground (arith, unhang_others group_id edges u v ne))
]

module _ (s : Store) (group_id : ℕ) (parents : List ℕ) where
  abbrev edges : Edges
  edges = s.organize.organize_group_parents

  -- The group has no parent yet, and gets these: its own list has them and the edges too, and no other
  -- group and no other edge is touched.
  abbrev pub IsMoved : Result OrganizeGroup × Store → Type 0
  IsMoved out =
      (x : OrganizeGroup) × ((v : ℕ) → contains (group_id, v) edges ≡ false)
      × (out.0 ≡ ok x)
      × (get out.1.organize.organize_groups group_id ≡ some x)
      × ((v : ℕ) → contains v x.parent_ids ≡ contains v parents)
      × ((v : ℕ)
          → contains (group_id, v) out.1.organize.organize_group_parents ≡ contains v parents)
      × ((u v : ℕ)
          → u ≢ group_id
          → contains (u, v) out.1.organize.organize_group_parents ≡ contains (u, v) edges)
      × ((h : ℕ)
          → h ≢ group_id
          → get out.1.organize.organize_groups h ≡ get s.organize.organize_groups h)

  -- It has a parent, and the call raises with one of its edges gone and nothing else changed.
  abbrev pub IsTorn : Result OrganizeGroup × Store → Type 0
  IsTorn out =
      (out.0 ≡ err runtime_error)
      × (out.1 ≡ put_edges s out.1.organize.organize_group_parents)
      × (suc (length out.1.organize.organize_group_parents) ≡ length edges)
      × ((u v : ℕ)
          → u ≢ group_id
          → contains (u, v) out.1.organize.organize_group_parents ≡ contains (u, v) edges)
      × ((v : ℕ) × Edge edges group_id v)

  hung :
      (u v : ℕ)
      → contains (u, v) (hang group_id parents edges)
        ≡ ((u == group_id && contains v parents) || contains (u, v) edges)
  hung u v = contains-hang group_id parents edges u v

  rehang-IsMoved :
      (x : OrganizeGroup)
      → ((v : ℕ) → contains (group_id, v) edges ≡ false)
      → IsMoved (
          save_group group_id
            (record x { parent_ids = sorted_ids parents })
            (put_edges s (hang group_id parents edges)))
  rehang-IsMoved x bare = (
    _,
    bare,
    refl,
    get-put_self s.organize.organize_groups group_id _,
    λ v. contains-sorted_ids v parents,
    λ v. hung group_id v ∙ ground (arith, bare v),
    λ u v ne. hung u v ∙ ground (arith, ne),
    λ h ne. get-put s.organize.organize_groups group_id h _ ∙ ground (arith, ne),
  )

  rehang_lem :
      (x : OrganizeGroup)
      → let out =
          rehang group_id parents
            (save_group group_id (record x { parent_ids = sorted_ids parents }))
            s in
        IsMoved out ⊎ IsTorn out
  rehang_lem x = elim (Bool-cases (unhang group_id edges).1) [
    | inl raised ↦
        let (edge, n) = unhang-raised group_id edges raised in
        inr (rw raised (refl, refl, n, unhang_others group_id edges, edge))
    | inr clean ↦
        let (whole, bare) = unhang-unchanged group_id edges clean in
        inl (rw (clean, whole) (rehang-IsMoved x bare))
  ]

-- A move of a group of the project under groups of the project that closes no cycle: where the group
-- has no parent yet, it gets exactly the given ones, in its own list and in the table of edges, and the
-- other groups and edges stay; where it has one, the call raises a `RuntimeError`
-- and has taken one edge from the table of edges, and changed nothing else.
pub move_organize_group_lem :
    (project_id group_id : ℕ) (parent_ids : List ℕ) (x : OrganizeGroup) (s : Store)
    → get s.organize.organize_groups group_id ≡ some x
    → x.project_id ≡ project_id
    → AreOf s.organize.organize_groups project_id (unique parent_ids)
    → ¬ ClosesCycle s.organize.organize_group_parents group_id (unique parent_ids)
    → IsMoved s group_id (unique parent_ids) (move_organize_group project_id group_id parent_ids s)
      ⊎ IsTorn s group_id (unique parent_ids) (move_organize_group project_id group_id parent_ids s)
unfolding move_organize_group
move_organize_group_lem project_id group_id parent_ids x s found same known n =
    let parents = unique parent_ids in
    let rest = move_found project_id group_id parents in
    let write =
      rehang group_id parents
        (save_group group_id (record x { parent_ids = sorted_ids parents })) in
    let go : with_group project_id group_id rest s ≡ write s =
      with_group-found s project_id group_id x rest found same
      ∙ rw (passes_known s project_id parents known, guard)
          (rw (open_cycle s group_id parents n) refl) in
    subst (λ out. IsMoved s group_id parents out ⊎ IsTorn s group_id parents out) (sym go)
      (rehang_lem s group_id parents x)
