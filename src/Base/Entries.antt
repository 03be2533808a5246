-- ===== src/Base/Entries.antt =====
-- The entries of a dictionary without duplicate keys, as a loop over `d.items()` meets them.
use mathlib.Core.Path.{◌≡◌, refl}
use mathlib.Core.Logic.{inl, inr}
use mathlib.Core.Option.{none, some}
use mathlib.Core.List.{[], ◌∷◌}
use native.Mathlib.Omega.{arith}
use project_digital_twin.Base.Tests.{Bool-cases}
use project_digital_twin.Base.Keys.{Key, ◌==◌}
use project_digital_twin.Base.Dicts.{Dict, get, put, IsDict, get-put, get-cons}

module _ {ℓ κ} {K : Type ℓ} {V : Type κ} ⦃e : Key K⦄ where
  -- Each entry of `l` is what `d` has at its key.
  abbrev pub EntriesOf : Dict K V → Dict K V → Type κ
  EntriesOf d [] = Unit
  EntriesOf d ((k, v) ∷ l) = (get d k ≡ some v) × EntriesOf d l

  get-put_ne :
      (d : Dict K V) (k j : K) (v w : V)
      → get d j ≡ some w
      → get d k ≡ none
      → get (put d k v) j ≡ some w
  get-put_ne d k j v w h n = ground (arith, e.eqb_iff k j, get-put d k j v)

  pub IsDict-put : (d : Dict K V) (k : K) (v : V) → IsDict d → IsDict (put d k v)
  unfolding put
  IsDict-put [] k v h = (simp get-empty', tt)
    where
      get-empty' : get {V = V} [] k ≡ none
      get-empty' = unfold get in refl
  IsDict-put ((j, w) ∷ d) k v h = elim (Bool-cases (j == k)) [
    | inl same ↦ rw same h
    | inr other ↦
        rw other
          (ground (arith, h.0, get-put d k j v, e.eqb_iff k j, e.eqb_iff j k), IsDict-put d k v h.1)
  ]

  EntriesOf-cons :
      (d l : Dict K V) (k : K) (v : V) → get d k ≡ none → EntriesOf d l → EntriesOf ((k, v) ∷ d) l
  EntriesOf-cons d [] k v n h = tt
  EntriesOf-cons d ((j, w) ∷ l) k v n h =
      (ground (arith, h.0, get-cons d k j v, e.eqb_iff k j), EntriesOf-cons d l k v n h.1)

  -- A dictionary's own entries.
  pub EntriesOf-self : (d : Dict K V) → IsDict d → EntriesOf d d
  EntriesOf-self [] h = tt
  EntriesOf-self ((k, v) ∷ d) h = (
    rw get-cons (ground (arith, e.eqb_iff k k)),
    EntriesOf-cons d d k v h.0 (EntriesOf-self d h.1),
  )

  -- The loop goes on with entries that an update at another key leaves alone.
  pub EntriesOf-put :
      (d l : Dict K V) (k : K) (v : V) → get l k ≡ none → EntriesOf d l → EntriesOf (put d k v) l
  EntriesOf-put d [] k v n h = tt
  EntriesOf-put d ((j, w) ∷ l) k v n h = (
    ground (arith, h.0, get-cons l j k w, get-put d k j v, e.eqb_iff k j, e.eqb_iff j k),
    EntriesOf-put d l k v (ground (arith, get-cons l j k w)) h.1,
  )
