-- ===== src/Adapters/Bounds.antt =====
-- What normalized addresses and coordinates look like (apps/server/app/shared/normalization.py).
use project_digital_twin.Base.{
  ℕ, suc, ◌+◌, ◌≤◌, ◌≡◌, refl, ap, ◌∙◌, ◌⊎◌, inl, inr, Bool, true, ◌&&◌, Option, none, some, List,
  [], ◌∷◌, ◌++◌, arith, Text, text, ◌==◌, nat_eq, list_eq, pair_eq, option_eq, length, all,
  Bool-cases,
}
use project_digital_twin.Store.Values.{value_eq}
use project_digital_twin.Projects.Codes.{decimal}
use project_digital_twin.Adapters.Cells.{CellOps, good, invalid}
use project_digital_twin.Adapters.Normalization.{
  count, put_front, split, join, cell_text, read_int, is_octet, octets_of, dotted, join_octets,
  normalize_address, normalize_ip, within, normalize_coordinate,
}

abbrev pub IsOctet : ℕ → Type 0
IsOctet n = n ≤ 255

-- Four decimal numbers up to 255 with dots between them.
abbrev pub IsQuad : Text → Type 0
IsQuad t =
    (a : ℕ) × (b : ℕ) × (c : ℕ) × (d : ℕ) × IsOctet a
    × IsOctet b
    × IsOctet c
    × IsOctet d
    × (t ≡ decimal a ++ 46 ∷ (decimal b ++ 46 ∷ (decimal c ++ 46 ∷ decimal d)))

length-put_front :
    (c : ℕ) (parts : List Text) (n : ℕ) → length parts ≡ suc n → length (put_front c parts) ≡ suc n
length-put_front c [] n h = absurd (omega arith)
length-put_front c (part ∷ parts) n h = h

length-split : (c : ℕ) (t : Text) → length (split c t) ≡ suc (count c t)
unfolding split count
length-split c [] = refl
length-split c (d ∷ t) = elim (Bool-cases (d == c)) [
  | inl same ↦ rw same (omega (arith, length-split c t))
  | inr differs ↦
      rw differs (length-put_front d (split c t) (0 + count c t) (length-split c t ∙ omega arith))
]

module _ {Cell Number : Type 0} (ops : CellOps Cell Number) where
  octets_of-cons :
      (part : Text) (parts : List Text) (os : List (Bool × ℕ))
      → octets_of ops (part ∷ parts) ≡ some os
      → (o : Bool × ℕ) × (os' : List (Bool × ℕ)) × (octets_of ops parts ≡ some os') × (os ≡ o ∷ os')
  unfolding octets_of
  octets_of-cons part parts os h = by_part (read_int ops part) (octets_of ops parts) refl h
    where
      by_part :
          (o : Option (Bool × ℕ)) (rest : Option (List (Bool × ℕ)))
          → octets_of ops parts ≡ rest
          → (elim o [
            | none ↦ none
            | some o' ↦ elim rest [ none ↦ none | some os' ↦ some (o' ∷ os') ]
          ])
            ≡ some os
          → (o' : Bool × ℕ) × (os' : List (Bool × ℕ)) × (octets_of ops parts ≡ some os')
            × (os ≡ o' ∷ os')
      by_part none rest r e = absurd (cc (e))
      by_part (some o) none r e = absurd (cc (e))
      by_part (some o) (some os') r e = (o, os', r, cc (e))

  length-octets_of :
      (parts : List Text) (os : List (Bool × ℕ))
      → octets_of ops parts ≡ some os
      → length os ≡ length parts
  unfolding octets_of
  length-octets_of [] os h = let e : os ≡ [] = cc (h) in rw e refl
  length-octets_of (part ∷ parts) os h =
      let (o, os', r, e) = octets_of-cons part parts os h in
      rw e (ap suc (length-octets_of parts os' r))

-- Four octets within the bounds are joined to an address.
quad :
    (os : List (Bool × ℕ)) → length os ≡ 4 → all is_octet os ≡ true → IsQuad (join 46 (dotted os))
unfolding join dotted
quad ((na, a) ∷ (nb, b) ∷ (nc, c) ∷ (nd, d) ∷ []) h bounds =
    (a, b, c, d, ground arith, ground arith, ground arith, ground arith, refl)
quad [] h bounds = absurd (omega arith)
quad (a ∷ []) h bounds = absurd (omega arith)
quad (a ∷ b ∷ []) h bounds = absurd (omega arith)
quad (a ∷ b ∷ c ∷ []) h bounds = absurd (omega arith)
quad (a ∷ b ∷ c ∷ d ∷ e ∷ os) h bounds = absurd (omega arith)

joined :
    (o : Option (List (Bool × ℕ)))
    → ((os : List (Bool × ℕ)) → o ≡ some os → length os ≡ 4)
    → ((a : Text) × (join_octets o ≡ good (some a)) × IsQuad a)
      ⊎ (join_octets o ≡ invalid (text "Invalid IP address"))
joined none four = inr refl
joined (some os) four = elim (Bool-cases (all is_octet os)) [
  | inl bounds ↦ inl (join 46 (dotted os), rw bounds refl, quad os (four os refl) bounds)
  | inr outside ↦ inr (rw outside refl)
]

-- A value whose normalized text has three dots is either refused with the message of an invalid address, or
-- normalized to four decimal numbers up to 255 with dots between them.
pub normalize_ip-IsQuad :
    {Cell Number : Type 0} (ops : CellOps Cell Number) (value : Option Cell) (t : Text)
    → cell_text ops value ≡ some t
    → count 46 t ≡ 3
    → ((a : Text) × (normalize_ip ops value ≡ good (some a)) × IsQuad a)
      ⊎ (normalize_ip ops value ≡ invalid (text "Invalid IP address"))
unfolding normalize_ip normalize_address
normalize_ip-IsQuad ops value t e dots = rw e (
    rw dots (
      joined (octets_of ops (split 46 t))
        (λ os h. length-octets_of ops (split 46 t) os h ∙ (length-split 46 t ∙ ap suc dots))))

module _ {Cell Number : Type 0} (ops : CellOps Cell Number) where
  within_bounds :
      (minimum maximum x : Number) (name : Text) (o : Option Number)
      → within ops minimum maximum name o ≡ good (some x)
      → (ops.le minimum x && ops.le x maximum) ≡ true
  within_bounds minimum maximum x name none h = cc (h)
  within_bounds minimum maximum x name (some y) h =
      elim (Bool-cases (ops.le minimum y && ops.le y maximum)) [
        | inl inside ↦ let same : y ≡ x = cc (rw inside at h) in rw (← same) inside
        | inr outside ↦ absurd (cc (rw outside at h))
      ]

  pub normalize_coordinate_bounds :
      (value : Option Cell) (minimum maximum x : Number) (name : Text)
      → normalize_coordinate ops value minimum maximum name ≡ good (some x)
      → (ops.le minimum x && ops.le x maximum) ≡ true
  unfolding normalize_coordinate
  normalize_coordinate_bounds none minimum maximum x name h = cc (h)
  normalize_coordinate_bounds (some c) minimum maximum x name h =
      elim (Bool-cases (ops.is_blank c)) [
        | inl blank ↦ absurd (cc (rw blank at h))
        | inr filled ↦ within_bounds minimum maximum x name (ops.float_of c) (rw filled at h)
      ]
