-- ===== src/Base/Dicts.antt =====
-- Python's `dict` and `set`: an association list in insertion order; an update keeps its place.
use mathlib.Core.Path.{◌≡◌, refl}
use mathlib.Core.Option.{Option, none, some}
use mathlib.Core.List.{List, [], ◌∷◌}
use native.Mathlib.Omega.{arith}
use project_digital_twin.Base.Tests.{if◌then◌else◌}
use project_digital_twin.Base.Keys.{Key, ◌==◌, beq_refl}

abbrev pub Dict {ℓ κ} : Type ℓ → Type κ → Type (ℓ ⊔ κ)
Dict K V = List (K × V)

module _ {ℓ κ} {K : Type ℓ} {V : Type κ} ⦃e : Key K⦄ where
  -- `d.get(k)`
  unfoldable pub get : Dict K V → K → Option V
  get [] k = none
  get ((j, v) ∷ d) k = let rest = get d k in if j == k then some v else rest

  -- `d[k] = v`
  unfoldable pub put : Dict K V → K → V → Dict K V
  put [] k v = (k, v) ∷ []
  put ((j, w) ∷ d) k v = let rest = put d k v in if j == k then (j, v) ∷ d else (j, w) ∷ rest

  -- `d.pop(k, None)`
  unfoldable pub remove : Dict K V → K → Dict K V
  remove [] k = []
  remove ((j, v) ∷ d) k = let rest = remove d k in if j == k then rest else (j, v) ∷ rest

  pub get-cons :
      (d : Dict K V) (k j : K) (v : V) → get ((k, v) ∷ d) j ≡ (if k == j then some v else get d j)
  unfolding get
  get-cons d k j v = refl

  pub get-put :
      (d : Dict K V) (k j : K) (v : V) → get (put d k v) j ≡ (if k == j then some v else get d j)
  unfolding get put
  get-put [] k j v = refl
  get-put ((i, w) ∷ d) k j v =
      ground (arith, e.eqb_iff i k, e.eqb_iff k j, e.eqb_iff i j, get-put d k j v)

  pub get-put_self : (d : Dict K V) (k : K) (v : V) → get (put d k v) k ≡ some v
  get-put_self d k v = rw (get-put d k k v, beq_refl k)

  pub get-remove :
      (d : Dict K V) (k j : K) → get (remove d k) j ≡ (if k == j then none else get d j)
  unfolding get remove
  get-remove [] k j = ground arith
  get-remove ((i, w) ∷ d) k j =
      ground (arith, e.eqb_iff i k, e.eqb_iff k j, e.eqb_iff i j, get-remove d k j)

-- No key stands twice, as in every `dict`.
abbrev pub IsDict {ℓ κ} : {K : Type ℓ} {V : Type κ} ⦃e : Key K⦄ → Dict K V → Type κ
IsDict [] = Unit
IsDict ((k, v) ∷ d) = (get d k ≡ none) × IsDict d

pub get-empty {ℓ κ} : {K : Type ℓ} {V : Type κ} ⦃e : Key K⦄ (k : K) → get {V = V} [] k ≡ none
unfolding get
get-empty k = refl

-- `d.values()` and `d.keys()`
unfoldable pub values {ℓ κ} : {K : Type ℓ} {V : Type κ} → Dict K V → List V
values [] = []
values ((k, v) ∷ d) = v ∷ values d

unfoldable pub keys {ℓ κ} : {K : Type ℓ} {V : Type κ} → Dict K V → List K
keys [] = []
keys ((k, v) ∷ d) = k ∷ keys d

pub ruleset dict_laws = (get-cons, get-put, get-empty, get-remove)
