-- ===== src/Adapters/Candidates.antt =====
-- The candidates for the identity of an imported entity
-- (apps/server/app/adapters/files/importers/mapping.py, `identity_candidates`).
use project_digital_twin.Base.{
  ℕ, ◌+◌, Bool, true, false, ◌&&◌, ◌||◌, not, Option, none, some, List, [], ◌∷◌, ◌++◌, Text, text,
  ◌==◌, nat_eq, list_eq, pair_eq, option_eq, ltb, if◌then◌else◌,
}
use project_digital_twin.Organize.Names.{normalize_text}
use project_digital_twin.Store.Values.{value_eq}

pub record IdentityRecord (Number : Type 0) : Type 0 where
  pub entity_id : ℕ
  pub object_type : Text
  pub name : Option Text
  pub parent_context : Option Text
  pub latitude : Option Number
  pub longitude : Option Number

pub record IdentityCandidate : Type 0 where
  pub entity_id : ℕ
  pub score : ℕ
  pub reasons : List Text
  pub requires_confirmation : Bool

-- `normalize_text` of a name that may be missing
abbrev pub normalized : Option Text → Option Text
normalized none = none
normalized (some t) = normalize_text t

-- `context and context == another`
abbrev pub is_same_context : Option Text → Option Text → Bool
is_same_context none another = false
is_same_context (some t) another = not (t == []) && some t == another

abbrev pub score_of : (context place : Bool) → ℕ
score_of context place = 2 + (if context then 1 else 0) + (if place then 1 else 0)

abbrev pub reasons_of : (context place : Bool) → List Text
reasons_of context place =
    text "object_type"
      ∷ text "normalized_name"
      ∷ (if context then text "parent_context" ∷ [] else [])
    ++ (if place then text "location" ∷ [] else [])

-- The key of the sorting: a higher score, then the lower identifier.
abbrev pub outranks : IdentityCandidate → IdentityCandidate → Bool
outranks c d = ltb d.score c.score || (c.score == d.score && ltb c.entity_id d.entity_id)

-- `sorted`, which leaves candidates of one rank in their order
unfoldable pub rank : IdentityCandidate → List IdentityCandidate → List IdentityCandidate
rank c [] = c ∷ []
rank c (d ∷ candidates) =
    let rest = rank c candidates in if outranks d c then d ∷ rest else c ∷ d ∷ candidates

unfoldable pub ranked : List IdentityCandidate → List IdentityCandidate
ranked [] = []
ranked (c ∷ candidates) = rank c (ranked candidates)

-- `same` is `==` on floats.
module _ {Number : Type 0} (same : Number → Number → Bool) where
  abbrev pub is_same_number : Option Number → Option Number → Bool
  is_same_number (some a) (some b) = same a b
  is_same_number (some a) none = false
  is_same_number none another = false

  abbrev pub is_same_place : IdentityRecord Number → IdentityRecord Number → Bool
  is_same_place r o = is_same_number r.latitude o.latitude && is_same_number r.longitude o.longitude

  abbrev pub is_namesake : IdentityRecord Number → IdentityRecord Number → Bool
  is_namesake r o = o.object_type == r.object_type && normalized r.name == normalized o.name

  unfoldable pub candidate_of : IdentityRecord Number → IdentityRecord Number → IdentityCandidate
  candidate_of r o = record {
    entity_id = o.entity_id;
    score = score_of (is_same_context r.parent_context o.parent_context) (is_same_place r o);
    reasons = reasons_of (is_same_context r.parent_context o.parent_context) (is_same_place r o);
    requires_confirmation = true;
  }

  unfoldable pub candidates_of :
      IdentityRecord Number → List (IdentityRecord Number) → List IdentityCandidate
  candidates_of r [] = []
  candidates_of r (o ∷ existing) =
      let rest = candidates_of r existing in
      if is_namesake r o then candidate_of r o ∷ rest else rest

  unfoldable pub identity_candidates :
      IdentityRecord Number → (existing : List (IdentityRecord Number)) → List IdentityCandidate
  identity_candidates r existing = ranked (candidates_of r existing)
