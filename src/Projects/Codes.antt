-- ===== src/Projects/Codes.antt =====
-- `_next_project_code` (apps/server/app/domain.py).
use project_digital_twin.Base.{
  ℕ, zero, suc, ◌+◌, ◌/◌, ◌%◌, Option, none, some, List, [], ◌∷◌, ◌++◌, Text, text, contains,
  nat_eq, list_eq, pair_eq, option_eq, ltb, if◌then◌else◌,
}

-- `str(n)` of a number below 10 ^ fuel
unfoldable pub decimal_from : ℕ → ℕ → Text
decimal_from zero n = []
decimal_from (suc fuel) n =
    let front = decimal_from fuel (n / 10) in
    if ltb n 10 then (48 + n) ∷ [] else front ++ (48 + n % 10) ∷ []

-- A number is below 10 to the power of its successor.
unfoldable pub decimal : ℕ → Text
unfolding decimal_from
decimal n = decimal_from (suc n) n

-- f"P-{sequence:03d}"
unfoldable pub project_code : ℕ → Text
project_code n =
    text "P-"
    ++ (if ltb n 10
        then text "00" ++ decimal n
        else if ltb n 100
        then text "0" ++ decimal n
        else decimal n)

-- The `while` loop, with fuel.
unfoldable pub next_code : ℕ → ℕ → List Text → Option Text
next_code zero n used = none
next_code (suc fuel) n used =
    let rest = next_code fuel (n + 1) used in
    if contains (project_code n) used then rest else some (project_code n)
