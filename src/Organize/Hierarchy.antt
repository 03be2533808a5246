-- ===== src/Organize/Hierarchy.antt =====
-- The graph of groups and their parents, and the search for a cycle (apps/server/app/domain.py).
use project_digital_twin.Base.{
  ℕ, zero, suc, ◌+◌, Bool, true, false, ◌&&◌, not, Option, none, some, List, [], ◌∷◌, ◌++◌,
  contains, ◌==◌, nat_eq, list_eq, pair_eq, option_eq, length, leb, if◌then◌else◌,
}

-- `organize_group_parents`: a child and one of its parents
abbrev pub Edges : Type 0
Edges = List (ℕ × ℕ)

-- `_organize_parent_ids`
unfoldable pub parents_of : Edges → ℕ → List ℕ
parents_of [] group_id = []
parents_of ((child, parent) ∷ edges) group_id =
    let rest = parents_of edges group_id in if child == group_id then parent ∷ rest else rest

-- The `while` loop, with `pending` kept last entry first. `none` is a loop that has run out of fuel.
unfoldable pub search_parents : Edges → ℕ → ℕ → (pending visited : List ℕ) → Option Bool
search_parents edges group_id fuel [] visited = some false
search_parents edges group_id zero (current ∷ pending) visited = none
search_parents edges group_id (suc fuel) (current ∷ pending) visited =
    let seen = contains current visited in
    let rest =
      search_parents edges group_id fuel
        (if seen then pending else parents_of edges current ++ pending)
        (if seen then visited else current ∷ visited) in
    if current == group_id then some true else rest

-- `_would_create_organize_cycle`: a round takes one entry off `pending`, and every edge is put there at
-- most once, so this fuel is enough.
unfoldable pub would_create_cycle : Edges → ℕ → List ℕ → Option Bool
would_create_cycle edges group_id parent_ids =
    search_parents edges group_id (length parent_ids + length edges) parent_ids []

-- `organize_group_parents.update((group_id, parent_id) for parent_id in …)`
unfoldable pub add_edge : ℕ × ℕ → Edges → Edges
add_edge e edges = if contains e edges then edges else edges ++ e ∷ []

unfoldable pub hang : ℕ → List ℕ → Edges → Edges
hang group_id [] edges = edges
hang group_id (parent ∷ parents) edges = hang group_id parents (add_edge (group_id, parent) edges)

-- `difference_update` with a generator that reads the set it takes from: the first edge that it is
-- given is taken away, and the generator's next step raises. The flag says that it has raised.
unfoldable pub unhang : ℕ → Edges → Edges × Bool
unhang group_id [] = ([], false)
unhang group_id ((child, parent) ∷ edges) =
    let rest = unhang group_id edges in
    if child == group_id then (edges, true) else ((child, parent) ∷ rest.0, rest.1)

-- The edges that a deletion leaves.
unfoldable pub without_group : ℕ → Edges → Edges
without_group group_id [] = []
without_group group_id ((child, parent) ∷ edges) =
    let rest = without_group group_id edges in
    if not (child == group_id) && not (parent == group_id) then (child, parent) ∷ rest else rest

-- `sorted(ids, key=str)`: the texts of identifiers are ordered as the identifiers are.
unfoldable pub insert_id : ℕ → List ℕ → List ℕ
insert_id id [] = id ∷ []
insert_id id (i ∷ ids) = let rest = insert_id id ids in if leb id i then id ∷ i ∷ ids else i ∷ rest

unfoldable pub sorted_ids : List ℕ → List ℕ
unfolding insert_id
sorted_ids [] = []
sorted_ids (id ∷ ids) = insert_id id (sorted_ids ids)
