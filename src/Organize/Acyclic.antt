-- ===== src/Organize/Acyclic.antt =====
-- Which changes keep the graph of groups free of cycles (apps/server/app/domain.py).
use mathlib.Core.Path.{subst}
use project_digital_twin.Base.{
  ℕ, suc, ◌≡◌, refl, ap, ◌∙◌, ◌⊎◌, inl, inr, true, false, ◌&&◌, ◌||◌, not, List, [], ◌∷◌, arith,
  contains, ◌==◌, nat_eq, list_eq, pair_eq, option_eq, length, Bool-cases, pair_beq, pair_beq_iff,
}
use project_digital_twin.Organize.Hierarchy.{Edges, add_edge, hang, unhang, without_group}
use project_digital_twin.Organize.Cycles.{Edge, Ancestor, self, up, ClosesCycle, contains-append}

-- No group is above itself.
abbrev pub IsAcyclic : Edges → Type 0
IsAcyclic edges = (u v : ℕ) → Edge edges u v → ¬ Ancestor edges u v

-- No edge that was not there.
abbrev pub IsSubgraph : Edges → Edges → Type 0
IsSubgraph smaller edges = (u v : ℕ) → Edge smaller u v → Edge edges u v

Ancestor-IsSubgraph :
    (smaller edges : Edges)
    → IsSubgraph smaller edges
    → {t v : ℕ} → Ancestor smaller t v
    → Ancestor edges t v
Ancestor-IsSubgraph smaller edges h self = self
Ancestor-IsSubgraph smaller edges h (up {u} {v} e w) =
    up (h u v e) (Ancestor-IsSubgraph smaller edges h w)

pub IsAcyclic-IsSubgraph :
    (smaller edges : Edges) → IsSubgraph smaller edges → IsAcyclic edges → IsAcyclic smaller
IsAcyclic-IsSubgraph smaller edges h a u v e w =
    a u v (h u v e) (Ancestor-IsSubgraph smaller edges h w)

Ancestor-trans :
    (edges : Edges) {c b a : ℕ} → Ancestor edges b a → Ancestor edges c b → Ancestor edges c a
Ancestor-trans edges self w = w
Ancestor-trans edges (up e v) w = up e (Ancestor-trans edges v w)

-- The new edges of `group_id` are these parents, and the others are as they were.
module _ (edges edges' : Edges) (group_id : ℕ) (parents : List ℕ) where
  abbrev pub IsRehung : Type 0
  IsRehung =
      (u v : ℕ) → Edge edges' u v → (u ≡ group_id) × (contains v parents ≡ true) ⊎ Edge edges u v

  first_step :
      {t v : ℕ} → IsRehung → Ancestor edges' t v → Ancestor edges t v ⊎ Ancestor edges group_id v
  first_step r self = inl self
  first_step r (up {u} {v} e w) = elim (r u v e) [
    | inl (same, m) ↦ inr (rw same self)
    | inr old ↦ elim (first_step r w) [ inl w' ↦ inl (up old w') | inr w' ↦ inr (up old w') ]
  ]

  abbrev FromParent : ℕ → Type 0
  FromParent t = (p : ℕ) × (contains p parents ≡ true) × Ancestor edges t p

  last_step : {t v : ℕ} → IsRehung → Ancestor edges' t v → Ancestor edges t v ⊎ FromParent t
  last_step r self = inl self
  last_step r (up {u} {v} e w) = elim (last_step r w) [
    | inr p ↦ inr p
    | inl w' ↦ elim (r u v e) [ inl (same, m) ↦ inr (v, m, w') | inr old ↦ inl (up old w') ]
  ]

  pub IsAcyclic-IsRehung :
      IsRehung → IsAcyclic edges → ¬ ClosesCycle edges group_id parents → IsAcyclic edges'
  IsAcyclic-IsRehung r a n u v e w = elim (r u v e) [
    | inl (same, m) ↦ elim (first_step r w) [
      | inl w' ↦ n (v, m, subst (λ t. Ancestor edges t v) same w')
      | inr w' ↦ n (v, m, w')
    ]
    | inr old ↦ elim (first_step r w) [
      | inl w' ↦ a u v old w'
      | inr to_group ↦ elim (last_step r w) [
        | inl w' ↦ a u v old w'
        | inr (p, m, from_p) ↦ n (p, m, Ancestor-trans edges from_p (up old to_group))
      ]
    ]
  ]

contains-add_edge :
    (e k : ℕ × ℕ) (edges : Edges)
    → contains k (add_edge e edges) ≡ (pair_beq e k || contains k edges)
unfolding add_edge contains
contains-add_edge e k edges = elim (Bool-cases (contains e edges)) [
  | inl there ↦ rw there (elim (Bool-cases (pair_beq e k)) [
    | inl same ↦
        let q : contains k edges ≡ true =
          subst (λ j. contains j edges ≡ true) ((pair_beq_iff e k).0 same) there in
        rw (same, q) refl
    | inr differs ↦ rw differs refl
  ])
  | inr new ↦ rw (new, contains-append) (ground arith)
]

pub contains-hang :
    (group_id : ℕ) (parents : List ℕ) (edges : Edges) (u v : ℕ)
    → contains (u, v) (hang group_id parents edges)
      ≡ ((u == group_id && contains v parents) || contains (u, v) edges)
unfolding hang contains pair_beq
contains-hang group_id [] edges u v = ground arith
contains-hang group_id (parent ∷ parents) edges u v =
    contains-hang group_id parents (add_edge (group_id, parent) edges) u v
    ∙ ground (arith, contains-add_edge (group_id, parent) (u, v) edges)

pub unhang-IsSubgraph : (group_id : ℕ) (edges : Edges) → IsSubgraph (unhang group_id edges).0 edges
unfolding unhang contains
unhang-IsSubgraph group_id [] u v e = e
unhang-IsSubgraph group_id ((child, parent) ∷ edges) u v e = elim (Bool-cases (child == group_id)) [
  | inl same ↦ ground (arith, rw same at e)
  | inr differs ↦ ground (arith, rw differs at e, unhang-IsSubgraph group_id edges u v)
]

-- It does not raise only where there is nothing to take away.
pub unhang-unchanged :
    (group_id : ℕ) (edges : Edges)
    → (unhang group_id edges).1 ≡ false
    → ((unhang group_id edges).0 ≡ edges) × ((v : ℕ) → contains (group_id, v) edges ≡ false)
unfolding unhang contains pair_beq
unhang-unchanged group_id [] h = (refl, λ v. refl)
unhang-unchanged group_id ((child, parent) ∷ edges) h = elim (Bool-cases (child == group_id)) [
  | inl same ↦ absurd (cc (rw same at h))
  | inr differs ↦
      let (e, n) = unhang-unchanged group_id edges (rw differs at h) in
      (rw (differs, e) refl, λ v. ground (arith, differs, n v))
]

pub contains-without_group :
    (group_id : ℕ) (edges : Edges) (u v : ℕ)
    → contains (u, v) (without_group group_id edges)
      ≡ (contains (u, v) edges && (not (u == group_id) && not (v == group_id)))
unfolding without_group contains pair_beq
contains-without_group group_id [] u v = refl
contains-without_group group_id ((child, parent) ∷ edges) u v =
    elim (Bool-cases (not (child == group_id) && not (parent == group_id))) [
      | inl kept ↦ rw kept (ground (arith, kept, contains-without_group group_id edges u v))
      | inr dropped ↦
          rw dropped (ground (arith, dropped, contains-without_group group_id edges u v))
    ]

-- It raises only where there is an edge to take away, and has then taken one.
pub unhang-raised :
    (group_id : ℕ) (edges : Edges)
    → (unhang group_id edges).1 ≡ true
    → ((v : ℕ) × Edge edges group_id v) × (suc (length (unhang group_id edges).0) ≡ length edges)
unfolding unhang contains pair_beq
unhang-raised group_id [] h = cc (h)
unhang-raised group_id ((child, parent) ∷ edges) h = elim (Bool-cases (child == group_id)) [
  | inl same ↦ rw same ((parent, ground (arith, same)), refl)
  | inr differs ↦
      let ((v, e), n) = unhang-raised group_id edges (rw differs at h) in
      rw differs ((v, ground (arith, e)), ap suc n)
]
