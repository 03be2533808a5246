-- ===== src/Projects/Registry.antt =====
-- The tables of projects and of their root directories stay in step (apps/server/app/domain.py).
use project_digital_twin.Base.{
  ℕ, ◌≡◌, refl, inl, inr, false, some, arith, Text, Platform, get, put, ◌==◌, nat_eq, list_eq,
  pair_eq, option_eq, Bool-cases, get-put,
}
use project_digital_twin.Store.Tables.{Project}
use project_digital_twin.Store.State.{ProjectTables}
use project_digital_twin.Projects.Lifecycle.{root_key, is_deleted}

module _ (p : Platform) where
  -- Each project stands under its own identifier; the roots are those of the projects that are not
  -- deleted, each under its key; and no two projects have one code.
  pub record IsRegistry (t : ProjectTables) : Type 0 where
    pub keyed : (id : ℕ) (x : Project) → get t.projects id ≡ some x → x.id ≡ id
    pub rooted :
        (id : ℕ) (x : Project)
        → get t.projects id ≡ some x
        → is_deleted x.status ≡ false
        → get t.project_roots (root_key p x.root_path) ≡ some id
    pub held :
        (key : Text) (id : ℕ)
        → get t.project_roots key ≡ some id
        → (x : Project) × (get t.projects id ≡ some x)
          × (is_deleted x.status ≡ false)
          × (root_key p x.root_path ≡ key)
    pub coded :
        (i j : ℕ) (x y : Project)
        → get t.projects i ≡ some x
        → get t.projects j ≡ some y
        → x.code ≡ y.code
        → i ≡ j

  -- Two projects that are not deleted never share a root directory.
  pub roots_are_exclusive :
      (t : ProjectTables) (i j : ℕ) (x y : Project)
      → IsRegistry t
      → get t.projects i ≡ some x
      → get t.projects j ≡ some y
      → is_deleted x.status ≡ false
      → is_deleted y.status ≡ false
      → root_key p x.root_path ≡ root_key p y.root_path
      → i ≡ j
  roots_are_exclusive t i j x y h gi gj li lj e = cc (h.rooted i x gi li, h.rooted j y gj lj)

  -- A change of a project that is not deleted before or after, and keeps its name for the outside.
  pub restate-IsRegistry :
      (t : ProjectTables) (id : ℕ) (x x' : Project)
      → IsRegistry t
      → get t.projects id ≡ some x
      → is_deleted x.status ≡ false
      → is_deleted x'.status ≡ false
      → x'.id ≡ x.id
      → x'.code ≡ x.code
      → x'.root_path ≡ x.root_path
      → IsRegistry (record t { projects = put t.projects id x' })
  restate-IsRegistry t id x x' h found live live' same_id same_code same_root = record {
    keyed = λ i y e. ground (arith, get-put t.projects id i x', h.keyed id x, h.keyed i y);
    rooted = λ i y e l. ground (arith, get-put t.projects id i x', h.rooted id x, h.rooted i y);
    held = λ key i e. elim (Bool-cases (id == i)) [
      | inl same ↦
          let (y, gy, ly, ky) = h.held key i e in
          (x', rw (get-put t.projects id i x', same) refl, live', ground (arith, gy))
      | inr other ↦
          let (y, gy, ly, ky) = h.held key i e in
          (y, rw (get-put t.projects id i x', other) gy, ly, ky)
    ];
    coded = λ i j y z ei ej e. ground (
      arith,
      get-put t.projects id i x',
      get-put t.projects id j x',
      h.coded id j x z,
      h.coded i id y x,
      h.coded i j y z,
      h.coded id id x x,
    );
  }
