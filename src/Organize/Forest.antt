-- ===== src/Organize/Forest.antt =====
-- The tables of groups and of their parents, and what keeps them well-formed (apps/server/app/domain.py).
use project_digital_twin.Base.{
  ℕ, ◌≡◌, refl, sym, ap, ◌∙◌, ◌⊎◌, inl, inr, true, false, ◌||◌, none, some, List, [], ◌∷◌, arith,
  Dict, get, put, contains, ◌==◌, nat_eq, list_eq, pair_eq, option_eq, leb, Bool-cases, get-put,
  nat_beq_iff,
}
use project_digital_twin.Store.Tables.{OrganizeGroup}
use project_digital_twin.Organize.Hierarchy.{Edges, hang, sorted_ids, insert_id}
use project_digital_twin.Organize.Cycles.{Edge, Ancestor, self, up, ClosesCycle}
use project_digital_twin.Organize.Acyclic.{
  IsAcyclic, IsSubgraph, IsAcyclic-IsSubgraph, IsAcyclic-IsRehung, contains-hang,
}

abbrev pub Groups : Type 0
Groups = Dict ℕ OrganizeGroup

-- Both are groups, and of one project.
abbrev pub AreJoined : Groups → ℕ → ℕ → Type 0
AreJoined groups u v =
    (x : OrganizeGroup) × (y : OrganizeGroup) × (get groups u ≡ some x)
    × (get groups v ≡ some y)
    × (x.project_id ≡ y.project_id)

pub record IsHierarchy (groups : Groups) (edges : Edges) : Type 0 where
  pub acyclic : IsAcyclic edges
  pub joined : (u v : ℕ) → Edge edges u v → AreJoined groups u v

-- A group's own list of parents says what the table of edges says.
abbrev pub IsCoherent : Groups → Edges → Type 0
IsCoherent groups edges =
    (g : ℕ) (x : OrganizeGroup) (v : ℕ)
    → get groups g ≡ some x
    → contains v x.parent_ids ≡ contains (g, v) edges

contains-insert_id :
    (id i : ℕ) (ids : List ℕ) → contains i (insert_id id ids) ≡ (id == i || contains i ids)
unfolding insert_id contains
contains-insert_id id i [] = ground arith
contains-insert_id id i (j ∷ ids) = elim (Bool-cases (leb id j)) [
  | inl le ↦ rw le (ground arith)
  | inr gt ↦ rw gt (ground (arith, contains-insert_id id i ids))
]

pub contains-sorted_ids : (i : ℕ) (ids : List ℕ) → contains i (sorted_ids ids) ≡ contains i ids
unfolding sorted_ids contains
contains-sorted_ids i [] = refl
contains-sorted_ids i (id ∷ ids) =
    contains-insert_id id i (sorted_ids ids) ∙ ground (arith, contains-sorted_ids i ids)

-- Every one of the new parents is a group of the project.
abbrev pub AreOf : Groups → ℕ → List ℕ → Type 0
AreOf groups project_id parents =
    (v : ℕ)
    → contains v parents ≡ true
    → (y : OrganizeGroup) × (get groups v ≡ some y) × (y.project_id ≡ project_id)

module _ (groups : Groups) (edges : Edges) where
  pub IsHierarchy-IsSubgraph :
      (smaller : Edges)
      → IsSubgraph smaller edges
      → IsHierarchy groups edges
      → IsHierarchy groups smaller
  IsHierarchy-IsSubgraph smaller sub h = record {
    acyclic = IsAcyclic-IsSubgraph smaller edges sub h.acyclic;
    joined = λ u v e. h.joined u v (sub u v e);
  }

  -- The projects of the groups decide.
  pub IsHierarchy-same :
      (groups' : Groups)
      → ((g : ℕ) (x : OrganizeGroup)
          → get groups g ≡ some x
          → (x' : OrganizeGroup) × (get groups' g ≡ some x') × (x'.project_id ≡ x.project_id))
      → IsHierarchy groups edges
      → IsHierarchy groups' edges
  IsHierarchy-same groups' same h = record {
    acyclic = h.acyclic;
    joined = λ u v e.
        let (x, y, gu, gv, p) = h.joined u v e in
        let (x', gu', px) = same u x gu in
        let (y', gv', py) = same v y gv in (x', y', gu', gv', px ∙ (p ∙ sym py));
  }

  pub IsHierarchy-put :
      (g : ℕ) (x x' : OrganizeGroup)
      → get groups g ≡ some x
      → x'.project_id ≡ x.project_id
      → IsHierarchy groups edges
      → IsHierarchy (put groups g x') edges
  IsHierarchy-put g x x' found p =
      IsHierarchy-same (put groups g x') (λ k y e. by_key k y e (Bool-cases (g == k)))
    where
      by_key :
          (k : ℕ) (y : OrganizeGroup)
          → get groups k ≡ some y
          → (g == k ≡ true) ⊎ (g == k ≡ false)
          → (y' : OrganizeGroup) × (get (put groups g x') k ≡ some y')
            × (y'.project_id ≡ y.project_id)
      by_key k y e (inl same) = (
        x',
        rw (get-put, same) refl,
        cc (p, found, e, ap (get groups) ((nat_beq_iff g k).0 same)),
      )
      by_key k y e (inr differs) = (y, rw (get-put, differs) e, refl)

  pub IsHierarchy-add :
      (g : ℕ) (x : OrganizeGroup)
      → get groups g ≡ none
      → IsHierarchy groups edges
      → IsHierarchy (put groups g x) edges
  IsHierarchy-add g x fresh =
      IsHierarchy-same (put groups g x) (λ k y e. by_key k y e (Bool-cases (g == k)))
    where
      by_key :
          (k : ℕ) (y : OrganizeGroup)
          → get groups k ≡ some y
          → (g == k ≡ true) ⊎ (g == k ≡ false)
          → (y' : OrganizeGroup) × (get (put groups g x) k ≡ some y')
            × (y'.project_id ≡ y.project_id)
      by_key k y e (inl same) = absurd (cc (fresh, e, ap (get groups) ((nat_beq_iff g k).0 same)))
      by_key k y e (inr differs) = (y, rw (get-put, differs) e, refl)

  pub IsHierarchy-hang :
      (g : ℕ) (x : OrganizeGroup) (parents : List ℕ)
      → get groups g ≡ some x
      → AreOf groups x.project_id parents
      → ¬ ClosesCycle edges g parents
      → IsHierarchy groups edges
      → IsHierarchy groups (hang g parents edges)
  IsHierarchy-hang g x parents found known n h = record {
    acyclic = IsAcyclic-IsRehung edges (hang g parents edges) g parents new_or_old h.acyclic n;
    joined = λ u v e. elim (new_or_old u v e) [
      | inl (same, m) ↦ let (y, gv, p) = known v m in (x, y, rw same found, gv, sym p)
      | inr old ↦ h.joined u v old
    ];
  }
    where
      new_or_old :
          (u v : ℕ)
          → Edge (hang g parents edges) u v
          → (u ≡ g) × (contains v parents ≡ true) ⊎ Edge edges u v
      new_or_old u v e = ground (arith, contains-hang g parents edges u v, nat_beq_iff u g)

  -- A group that is not there is above no other.
  Ancestor-known :
      (g : ℕ)
      → IsHierarchy groups edges
      → get groups g ≡ none
      → {v : ℕ} → Ancestor edges g v
      → v ≡ g
  Ancestor-known g h fresh self = refl
  Ancestor-known g h fresh (up {u} {v} e w) =
      let (x, y, gu, gv, p) = h.joined u v e in
      absurd (cc (gv, fresh, ap (get groups) (Ancestor-known g h fresh w)))

  pub new-ClosesCycle :
      (g project_id : ℕ) (parents : List ℕ)
      → IsHierarchy groups edges
      → get groups g ≡ none
      → AreOf groups project_id parents
      → ¬ ClosesCycle edges g parents
  new-ClosesCycle g project_id parents h fresh known (v, m, w) =
      let (y, gv, p) = known v m in cc (gv, fresh, ap (get groups) (Ancestor-known g h fresh w))
