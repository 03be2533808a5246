-- ===== src/Projects/Naming.antt =====
-- Project codes never repeat, and the search for a free one ends (apps/server/app/domain.py,
-- `_next_project_code`).
use project_digital_twin.Base.{
  ℕ, zero, suc, ◌+◌, ◌-◌, ◌*◌, ◌/◌, ◌%◌, ◌≤◌, ◌<◌, ◌≡◌, refl, sym, ap, ◌∙◌, ◌≢◌, inl, inr, true,
  false, some, List, [], ◌∷◌, ◌++◌, arith, Text, contains, ◌==◌, nat_eq, list_eq, pair_eq,
  option_eq, length, ltb, Bool-cases, list_beq_iff, if◌then◌else◌,
}
use project_digital_twin.Projects.Codes.{decimal_from, decimal, project_code, next_code}

-- The number that a list of digits spells, behind those already read.
value_from : ℕ → Text → ℕ
value_from acc [] = acc
value_from acc (c ∷ cs) = value_from (acc * 10 + (c - 48)) cs

value_from-append :
    (acc : ℕ) (xs : Text) (c : ℕ)
    → value_from acc (xs ++ c ∷ []) ≡ value_from acc xs * 10 + (c - 48)
unfolding value_from
value_from-append acc [] c = refl
value_from-append acc (x ∷ xs) c = value_from-append (acc * 10 + (x - 48)) xs c

value_decimal_from : (fuel n : ℕ) → n < fuel → value_from 0 (decimal_from fuel n) ≡ n
unfolding decimal_from
value_decimal_from zero n h = elim h [ ]
value_decimal_from (suc fuel) n h = elim (Bool-cases (ltb n 10)) [
  | inl small ↦ rw small (unfold value_from in ground arith)
  | inr large ↦
      rw
        (
          large,
          value_from-append 0 (decimal_from fuel (n / 10)) (48 + n % 10),
          value_decimal_from fuel (n / 10) (ground arith),
        )
        (omega arith)
]

value_decimal : (n : ℕ) → value_from 0 (decimal n) ≡ n
unfolding decimal
value_decimal n = value_decimal_from (suc n) n (omega arith)

-- the digits behind "P-"
abbrev digits_of : Text → Text
digits_of [] = []
digits_of (x ∷ []) = []
digits_of (x ∷ y ∷ cs) = cs

value_project_code : (n : ℕ) → value_from 0 (digits_of (project_code n)) ≡ n
unfolding project_code
value_project_code n = elim (Bool-cases (ltb n 10)) [
  | inl one ↦ rw one (unfold value_from in value_decimal n)
  | inr more ↦ rw more (elim (Bool-cases (ltb n 100)) [
    | inl two ↦ rw two (unfold value_from in value_decimal n)
    | inr three ↦ rw three (value_decimal n)
  ])
]

-- Two numbers have two codes.
pub project_code-injective : (m n : ℕ) → project_code m ≡ project_code n → m ≡ n
project_code-injective m n e =
    sym (value_project_code m) ∙ ap (λ c. value_from 0 (digits_of c)) e ∙ value_project_code n

without_code : Text → List Text → List Text
without_code c [] = []
without_code c (x ∷ xs) = let rest = without_code c xs in if x == c then rest else x ∷ rest

length-without_code : (c : Text) (xs : List Text) → length (without_code c xs) ≤ length xs
unfolding without_code
length-without_code c [] = omega arith
length-without_code c (x ∷ xs) = ground (arith, length-without_code c xs)

length-without_lt :
    (c : Text) (xs : List Text) → contains c xs ≡ true → length (without_code c xs) < length xs
unfolding without_code contains
length-without_lt c [] h = cc
length-without_lt c (x ∷ xs) h = ground (arith, length-without_lt c xs, length-without_code c xs)

contains-without_code :
    (c d : Text) (xs : List Text) → c ≢ d → contains d (without_code c xs) ≡ contains d xs
unfolding without_code contains
contains-without_code c d [] ne = refl
contains-without_code c d (x ∷ xs) ne =
    ground (arith, contains-without_code c d xs ne, list_beq_iff x c, list_beq_iff x d)

-- The loop depends on the codes from its number on, and it ends if there are fewer than its rounds.
next_code_ends :
    (fuel n : ℕ) (used rest : List Text)
    → ((k : ℕ) → n ≤ k → contains (project_code k) used ≡ contains (project_code k) rest)
    → length rest < fuel
    → (k : ℕ) × (next_code fuel n used ≡ some (project_code k))
      × (contains (project_code k) used ≡ false)
unfolding next_code
next_code_ends zero n used rest same h = elim h [ ]
next_code_ends (suc fuel) n used rest same h = elim (Bool-cases (contains (project_code n) used)) [
  | inr free ↦ (n, rw free refl, free)
  | inl taken ↦
      let (k, e, free) =
        next_code_ends fuel (n + 1) used (without_code (project_code n) rest)
          (λ k le.
            same k (omega arith)
            ∙ sym (
                contains-without_code (project_code n) (project_code k) rest
                  (λ e. absurd (omega (arith, project_code-injective n k e)))))
          (omega (
            arith,
            length-without_lt (project_code n) rest (sym (same n (omega arith)) ∙ taken),
          )) in
      (k, rw taken e, free)
]

-- With one round more than there are codes in use, the loop ends, and finds a code that is free.
pub next_code_is_free :
    (n : ℕ) (used : List Text)
    → (k : ℕ) × (next_code (suc (length used)) n used ≡ some (project_code k))
      × (contains (project_code k) used ≡ false)
next_code_is_free n used =
    next_code_ends (suc (length used)) n used used (λ k le. refl) (omega arith)
