-- ===== src/Organize/Cycles.antt =====
-- The search for a cycle against reachability in the graph (apps/server/app/domain.py).
use project_digital_twin.Base.{
  ℕ, zero, suc, ◌+◌, ◌≤◌, ◌≡◌, refl, sym, ap, ◌↔◌, inl, inr, Bool, true, false, ◌||◌, some, List,
  [], ◌∷◌, ◌++◌, arith, contains, ◌==◌, Key, nat_eq, list_eq, pair_eq, option_eq, beq_refl, length,
  length-append, Bool-cases, if◌then◌else◌, nat_beq_iff, pair_beq,
}
use project_digital_twin.Organize.Hierarchy.{Edges, parents_of, search_parents, would_create_cycle}

-- `child` has the parent.
abbrev pub Edge : Edges → ℕ → ℕ → Type 0
Edge edges child parent = contains (child, parent) edges ≡ true

-- The walks from a group up through parents.
pub data Ancestor (edges : Edges) (target : ℕ) : ℕ → Type 0 where
  self : Ancestor edges target target
  up : {u v : ℕ} → Edge edges u v → Ancestor edges target v → Ancestor edges target u

pub contains-append {ℓ} :
    {A : Type ℓ} ⦃e : Key A⦄ (a : A) (xs ys : List A)
    → contains a (xs ++ ys) ≡ (contains a xs || contains a ys)
unfolding contains
contains-append a [] ys = refl
contains-append a (x ∷ xs) ys = ground (arith, contains-append a xs ys)

pub contains-parents_of :
    (edges : Edges) (u v : ℕ) → contains v (parents_of edges u) ≡ contains (u, v) edges
unfolding contains parents_of pair_beq
contains-parents_of [] u v = refl
contains-parents_of ((child, parent) ∷ edges) u v = elim (Bool-cases (child == u)) [
  | inl same ↦ rw same (ground (arith, contains-parents_of edges u v))
  | inr differs ↦ rw differs (ground (arith, contains-parents_of edges u v))
]

-- The edges whose child is not visited.
abbrev unvisited : Edges → List ℕ → ℕ
unvisited [] visited = 0
unvisited ((child, parent) ∷ es) visited =
    (if contains child visited then 0 else 1) + unvisited es visited

unvisited-visit :
    (es : Edges) (current : ℕ) (visited : List ℕ)
    → contains current visited ≡ false
    → length (parents_of es current) + unvisited es (current ∷ visited) ≡ unvisited es visited
unfolding contains parents_of
unvisited-visit [] current visited h = refl
unvisited-visit ((child, parent) ∷ es) current visited h = elim (Bool-cases (child == current)) [
  | inl same ↦
      let e = (nat_beq_iff child current).0 same in
      ground (arith, unvisited-visit es current visited h, ap (λ (c : ℕ). contains c visited) e)
  | inr differs ↦ rw differs (ground (arith, unvisited-visit es current visited h))
]

module _ (edges : Edges) (group_id : ℕ) where
  search_ends :
      (fuel : ℕ) (pending visited : List ℕ)
      → length pending + unvisited edges visited ≤ fuel
      → (b : Bool) × (search_parents edges group_id fuel pending visited ≡ some b)
  unfolding search_parents
  search_ends fuel [] visited h = (false, refl)
  search_ends zero (current ∷ pending) visited h = absurd (omega arith)
  search_ends (suc fuel) (current ∷ pending) visited h = elim (Bool-cases (current == group_id)) [
    | inl found ↦ (true, rw found refl)
    | inr differs ↦ elim (Bool-cases (contains current visited)) [
      | inl seen ↦
          let (b, e) = search_ends fuel pending visited (omega arith) in (b, rw (differs, seen) e)
      | inr new ↦
          let (b, e) = search_ends fuel (parents_of edges current ++ pending) (current ∷ visited) (
            omega (
              arith,
              unvisited-visit edges current visited new,
              length-append (parents_of edges current) pending,
            )) in
          (b, rw (differs, new) e)
    ]
  ]

  search_finds :
      (fuel : ℕ) (pending visited : List ℕ)
      → search_parents edges group_id fuel pending visited ≡ some true
      → (v : ℕ) × (contains v pending ≡ true) × Ancestor edges group_id v
  unfolding search_parents contains
  search_finds fuel [] visited h = cc (h)
  search_finds zero (current ∷ pending) visited h = cc (h)
  search_finds (suc fuel) (current ∷ pending) visited h = elim (Bool-cases (current == group_id)) [
    | inl found ↦ (current, ground arith, rw ((nat_beq_iff current group_id).0 found) self)
    | inr differs ↦ elim (Bool-cases (contains current visited)) [
      | inl seen ↦
          let (v, m, w) = search_finds fuel pending visited (rw (differs, seen) at h) in
          (v, ground arith, w)
      | inr new ↦
          let (v, m, w) =
            search_finds fuel (parents_of edges current ++ pending) (current ∷ visited)
              (rw (differs, new) at h) in
          elim (Bool-cases (contains v (parents_of edges current))) [
            | inl is_parent ↦ (
              current,
              ground arith,
              up (rw (sym (contains-parents_of edges current v)) is_parent) w,
            )
            | inr e ↦ (v, ground (arith, contains-append v (parents_of edges current) pending), w)
          ]
    ]
  ]

  -- Every parent of a visited group is visited or pending.
  abbrev IsClosed : (pending visited : List ℕ) → Type 0
  IsClosed pending visited =
      (u v : ℕ)
      → contains u visited ≡ true
      → Edge edges u v
      → (contains v visited || contains v pending) ≡ true

  -- The groups visited at the end.
  record Exhausted (pending visited : List ℕ) : Type 0 where
    final : List ℕ
    pending_in : (v : ℕ) → contains v pending ≡ true → contains v final ≡ true
    visited_in : (v : ℕ) → contains v visited ≡ true → contains v final ≡ true
    closed : (u v : ℕ) → contains u final ≡ true → Edge edges u v → contains v final ≡ true
    misses : contains group_id final ≡ false

  covers :
      (current v : ℕ) (pending final : List ℕ)
      → contains current final ≡ true
      → (contains v pending ≡ true → contains v final ≡ true)
      → contains v (current ∷ pending) ≡ true
      → contains v final ≡ true
  unfolding contains
  covers current v pending final h k p = elim (Bool-cases (current == v)) [
    | inl same ↦ rw (sym ((nat_beq_iff current v).0 same)) h
    | inr differs ↦ k (rw differs at p)
  ]

  pop_seen :
      (current v : ℕ) (pending visited : List ℕ)
      → contains current visited ≡ true
      → (contains v visited || contains v (current ∷ pending)) ≡ true
      → (contains v visited || contains v pending) ≡ true
  unfolding contains
  pop_seen current v pending visited h p = elim (Bool-cases (current == v)) [
    | inl same ↦
        let q : contains v visited ≡ true = rw (sym ((nat_beq_iff current v).0 same)) h in rw q refl
    | inr differs ↦ rw differs at p
  ]

  close_visit :
      (current : ℕ) (pending visited : List ℕ)
      → IsClosed (current ∷ pending) visited
      → IsClosed (parents_of edges current ++ pending) (current ∷ visited)
  unfolding contains
  close_visit current pending visited c u v p e =
      rw (contains-append, contains-parents_of)
        (elim (Bool-cases (current == u)) [
          | inl same ↦
              let q : contains (current, v) edges ≡ true = rw ((nat_beq_iff current u).0 same) e in
              ground (arith, q)
          | inr differs ↦ ground (arith, c u v (rw differs at p) e)
        ])

  search_exhausts :
      (fuel : ℕ) (pending visited : List ℕ)
      → search_parents edges group_id fuel pending visited ≡ some false
      → IsClosed pending visited
      → contains group_id visited ≡ false
      → Exhausted pending visited
  unfolding search_parents contains
  search_exhausts fuel [] visited h c m = record {
    final = visited;
    pending_in = λ v p. cc (p);
    visited_in = λ v p. p;
    closed = λ u v p e. ground (arith, c u v p e);
    misses = m;
  }
  search_exhausts zero (current ∷ pending) visited h c m = cc (h)
  search_exhausts (suc fuel) (current ∷ pending) visited h c m =
      elim (Bool-cases (current == group_id)) [
        | inl found ↦ absurd (cc (rw found at h))
        | inr differs ↦ elim (Bool-cases (contains current visited)) [
          | inl seen ↦
              let ex =
                search_exhausts fuel pending visited (rw (differs, seen) at h)
                  (λ u v p e. pop_seen current v pending visited seen (c u v p e)) m in
              record {
                final = ex.final;
                pending_in = λ v p.
                    covers current v pending ex.final (ex.visited_in current seen) (ex.pending_in v)
                      p;
                visited_in = ex.visited_in;
                closed = ex.closed;
                misses = ex.misses;
              }
          | inr new ↦
              let ex =
                search_exhausts fuel (parents_of edges current ++ pending) (current ∷ visited)
                  (rw (differs, new) at h) (close_visit current pending visited c) (rw differs m) in
              record {
                final = ex.final;
                pending_in = λ v p.
                    covers current v pending ex.final
                      (ex.visited_in current (rw (beq_refl current) refl))
                      (λ q. ex.pending_in v (rw (contains-append, q) (ground arith))) p;
                visited_in = λ v p. ex.visited_in v (ground (arith, p));
                closed = ex.closed;
                misses = ex.misses;
              }
        ]
      ]

  closed_up :
      (final : List ℕ)
      → ((u v : ℕ) → contains u final ≡ true → Edge edges u v → contains v final ≡ true)
      → {v : ℕ} → Ancestor edges group_id v
      → contains v final ≡ true
      → contains group_id final ≡ true
  closed_up final c self h = h
  closed_up final c (up {u} {v} e w) h = closed_up final c w (c u v h e)

  search_misses :
      (fuel : ℕ) (parents : List ℕ) (v : ℕ)
      → search_parents edges group_id fuel parents [] ≡ some false
      → contains v parents ≡ true
      → ¬ Ancestor edges group_id v
  search_misses fuel parents v h m w =
      let ex =
        search_exhausts fuel parents [] h (unfold contains in λ u v p e. cc (p))
          (unfold contains in refl) in
      cc (closed_up ex.final ex.closed w (ex.pending_in v m), ex.misses)

  unvisited-none : (es : Edges) → unvisited es [] ≡ length es
  unfolding contains
  unvisited-none [] = refl
  unvisited-none ((child, parent) ∷ es) = omega (arith, unvisited-none es)

  -- One of the parents is the group, or has it above itself.
  abbrev pub ClosesCycle : List ℕ → Type 0
  ClosesCycle parents = (v : ℕ) × (contains v parents ≡ true) × Ancestor edges group_id v

  by_result :
      (parents : List ℕ) (b : Bool)
      → would_create_cycle edges group_id parents ≡ some b
      → (b ≡ true) ↔ ClosesCycle parents
  unfolding would_create_cycle
  by_result parents true h =
      (λ e. search_finds (length parents + length edges) parents [] h, λ w. refl)
  by_result parents false h = (
    λ e. cc (e),
    λ w. absurd (search_misses (length parents + length edges) parents w.0 h w.1 w.2),
  )

  -- The search for a cycle ends on every graph, and says `true` exactly where one of the new parents is
  -- the group itself or has the group among its ancestors.
  pub would_create_cycle_lem :
      (parents : List ℕ)
      → (b : Bool) × (would_create_cycle edges group_id parents ≡ some b)
        × ((b ≡ true) ↔ ClosesCycle parents)
  would_create_cycle_lem parents = let (b, e) = ends in (b, e, by_result parents b e)
    where
      ends : (b : Bool) × (would_create_cycle edges group_id parents ≡ some b)
      ends =
          unfold would_create_cycle in
          search_ends (length parents + length edges) parents []
            (omega (arith, unvisited-none edges))
