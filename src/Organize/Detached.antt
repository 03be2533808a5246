-- ===== src/Organize/Detached.antt =====
-- What the deletion of a group leaves of the hierarchy (apps/server/app/domain.py).
use project_digital_twin.Base.{
  ℕ, ◌≡◌, refl, sym, ap, ◌∙◌, ◌≢◌, inl, inr, true, false, ◌&&◌, not, none, some, List, [], ◌∷◌,
  arith, get, remove, contains, ◌==◌, nat_eq, list_eq, pair_eq, option_eq, keep, Bool-cases,
  Option-cases, get-remove, nat_beq_iff,
}
use project_digital_twin.Store.Tables.{OrganizeGroup}
use project_digital_twin.Organize.Hierarchy.{Edges, without_group}
use project_digital_twin.Organize.Acyclic.{IsAcyclic-IsSubgraph, IsSubgraph, contains-without_group}
use project_digital_twin.Organize.Forest.{Groups, IsHierarchy, IsCoherent}
use project_digital_twin.Organize.Groups.{is_under, detached, detach}

pub contains-keep :
    (group_id v : ℕ) (ids : List ℕ)
    → contains v (keep (λ i. not (i == group_id)) ids) ≡ (contains v ids && not (v == group_id))
unfolding contains
contains-keep group_id v [] = refl
contains-keep group_id v (id ∷ ids) = elim (Bool-cases (id == group_id)) [
  | inl same ↦ rw same (ground (arith, contains-keep group_id v ids))
  | inr differs ↦ rw differs (ground (arith, contains-keep group_id v ids))
]

module _ (project_id group_id : ℕ) (time : ℕ → ℕ) where
  -- What a deletion makes of a group.
  abbrev pub IsDetached : OrganizeGroup → OrganizeGroup → Type 0
  IsDetached x x' =
      (x'.project_id ≡ x.project_id)
      × ((v : ℕ)
          → contains v x'.parent_ids
            ≡ (contains v x.parent_ids && not (x.project_id == project_id && v == group_id)))

  detached-IsDetached :
      (now : ℕ) (x : OrganizeGroup) → IsDetached x (detached project_id group_id now x)
  detached-IsDetached now x = elim (Bool-cases (is_under project_id group_id x)) [
    | inl hit ↦ rw hit (refl, λ v. contains-keep group_id v x.parent_ids ∙ ground (arith, hit))
    | inr other ↦ rw other (refl, λ v. not_under v other)
  ]
    where
      not_under :
          (v : ℕ)
          → is_under project_id group_id x ≡ false
          → contains v x.parent_ids
            ≡ (contains v x.parent_ids && not (x.project_id == project_id && v == group_id))
      not_under v h = elim (Bool-cases (v == group_id)) [
        | inl same ↦
            let e = (nat_beq_iff v group_id).0 same in
            ground (arith, h, ap (λ (i : ℕ). contains i x.parent_ids) e)
        | inr differs ↦ ground (arith, differs)
      ]

  pub detach-get :
      (d : Groups) (n k : ℕ) (x : OrganizeGroup)
      → get d k ≡ some x
      → (x' : OrganizeGroup) × (get (detach project_id group_id time d n).0 k ≡ some x')
        × IsDetached x x'
  unfolding get detach
  detach-get [] n k x e = cc (e)
  detach-get ((id, y) ∷ d) n k x e = elim (Bool-cases (id == k)) [
    | inl same ↦
        let here : y ≡ x = cc (rw same at e) in
        (
          detached project_id group_id (time n) y,
          rw same refl,
          rw (← here) (detached-IsDetached (time n) y),
        )
    | inr differs ↦ rw differs (detach-get d _ k x (rw differs at e))
  ]

  pub detach-get-none :
      (d : Groups) (n k : ℕ) → get d k ≡ none → get (detach project_id group_id time d n).0 k ≡ none
  unfolding get detach
  detach-get-none [] n k e = e
  detach-get-none ((id, y) ∷ d) n k e = elim (Bool-cases (id == k)) [
    | inl same ↦ absurd (cc (rw same at e))
    | inr differs ↦ rw differs (detach-get-none d _ k (rw differs at e))
  ]

  module _ (groups : Groups) (edges : Edges) (n : ℕ) where
    abbrev pub after : Groups
    after = (detach project_id group_id time (remove groups group_id) n).0

    kept :
        (g : ℕ) (x : OrganizeGroup)
        → get groups g ≡ some x
        → g == group_id ≡ false
        → (x' : OrganizeGroup) × (get after g ≡ some x') × IsDetached x x'
    kept g x e differs =
        detach-get (remove groups group_id) n g x (rw get-remove (ground (arith, e, differs)))

    pub IsHierarchy-delete :
        IsHierarchy groups edges → IsHierarchy after (without_group group_id edges)
    IsHierarchy-delete h = record {
      acyclic = IsAcyclic-IsSubgraph (without_group group_id edges) edges fewer h.acyclic;
      joined = λ u v e.
          let left = rw contains-without_group at e in
          let (x, y, gu, gv, p) = h.joined u v (fewer u v e) in
          let (x', gu', dx) = kept u x gu (ground (arith, left)) in
          let (y', gv', dy) = kept v y gv (ground (arith, left)) in
          (x', y', gu', gv', dx.0 ∙ (p ∙ sym dy.0));
    }
      where
        fewer : IsSubgraph (without_group group_id edges) edges
        fewer u v e = ground (arith, contains-without_group group_id edges u v)

    child_project :
        (x : OrganizeGroup)
        → get groups group_id ≡ some x
        → x.project_id ≡ project_id
        → IsHierarchy groups edges
        → (g : ℕ) (y : OrganizeGroup) (v : ℕ) → get groups g ≡ some y
        → v == group_id ≡ true
        → contains (g, v) edges ≡ true
        → y.project_id ≡ project_id
    child_project x found p h g y v gy same e =
        let (y', x', gu, gv, q) = h.joined g v e in
        let to_group = (nat_beq_iff v group_id).0 same in
        cc (gu, gy, gv, found, p, q, ap (get groups) to_group)

    gone : (g : ℕ) (y : OrganizeGroup) → get after g ≡ some y → get groups g ≢ none
    gone g y e none_there = cc (
      e,
      detach-get-none (remove groups group_id) n g (rw get-remove (ground (arith, none_there))),
    )

    not_self : (g : ℕ) (y : OrganizeGroup) → get after g ≡ some y → g == group_id ≡ false
    not_self g y e = elim (Bool-cases (g == group_id)) [
      | inl same ↦
          let r = get-remove groups group_id g in
          absurd (
            cc (
              e,
              detach-get-none (remove groups group_id) n g
                  (r ∙ ground (arith, nat_beq_iff g group_id, same)),
            ))
      | inr differs ↦ differs
    ]

    pub IsCoherent-delete :
        (x : OrganizeGroup)
        → get groups group_id ≡ some x
        → x.project_id ≡ project_id
        → IsHierarchy groups edges
        → IsCoherent groups edges
        → IsCoherent after (without_group group_id edges)
    IsCoherent-delete x found p h c g y' v e = elim (Option-cases (get groups g)) [
      | inl none_there ↦ absurd (gone g y' e none_there)
      | inr (y, gy) ↦
          let differs = not_self g y' e in
          let (y1, e1, d) = kept g y gy differs in
          let here : y1 ≡ y' = cc (e, e1) in
          rw (← here, d.1 v, contains-without_group, c g y v gy)
            (ground (arith, differs, child_project x found p h g y v gy))
    ]
