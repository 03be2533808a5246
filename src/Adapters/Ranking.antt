-- ===== src/Adapters/Ranking.antt =====
-- The candidates for an identity are the namesakes, ranked by what else agrees
-- (apps/server/app/adapters/files/importers/mapping.py).
use project_digital_twin.Base.{
  ℕ, ◌≤◌, ◌<◌, ◌≡◌, refl, sym, ap, ◌∙◌, ◌≢◌, ◌↔◌, ◌⊎◌, inl, inr, Bool, true, false, Option, none,
  some, List, [], ◌∷◌, map, arith, Text, text, contains, nat_eq, list_eq, pair_eq, option_eq,
  get_or, length, keep, All, Bool-cases, list_beq, list_beq_iff, option_beq, option_beq_iff,
}
use project_digital_twin.Adapters.Candidates.{
  IdentityRecord, IdentityCandidate, score_of, reasons_of, is_same_context, normalized,
  is_same_number, outranks, rank, ranked, is_same_place, is_namesake, candidate_of, candidates_of,
  identity_candidates,
}
use mathlib.Core.List.{Mem, Perm, mem-cons_self, mem-cons_of_mem}
use mathlib.Core.List.Perm
use project_digital_twin.Store.Values.{value_eq}

-- A higher score comes first, and at one score the lower identifier.
abbrev pub IsAhead : IdentityCandidate → IdentityCandidate → Type 0
IsAhead c d = (d.score < c.score) ⊎ ((d.score ≡ c.score) × (c.entity_id ≤ d.entity_id))

-- Each candidate is ahead of all that follow.
abbrev pub AreRanked : List IdentityCandidate → Type 0
AreRanked [] = Unit
AreRanked (c ∷ candidates) = All (IsAhead c) candidates × AreRanked candidates

-- Both have the same context, and it is not empty.
abbrev pub HaveContext : Option Text → Option Text → Type 0
HaveContext a b = (t : Text) × (a ≡ some t) × (b ≡ some t) × (t ≢ [])

-- Both have a number, and `==` finds them equal.
abbrev pub HaveNumber :
    {Number : Type 0} → (Number → Number → Bool) → Option Number → Option Number → Type 0
HaveNumber {Number} same a b =
    (x : Number) × (y : Number) × (a ≡ some x) × (b ≡ some y) × (same x y ≡ true)

-- The candidate is a namesake among the existing entities; its reasons say what else agrees, and its
-- score counts them.
pub record IsFounded {Number : Type 0} (same : Number → Number → Bool) (r : IdentityRecord Number)
    (existing : List (IdentityRecord Number)) (c : IdentityCandidate) : Type 0 where
  pub entity : IdentityRecord Number
  pub there : Mem entity existing
  pub of_type : entity.object_type ≡ r.object_type
  pub of_name : normalized r.name ≡ normalized entity.name
  pub identified : c.entity_id ≡ entity.entity_id
  pub agreement :
      ((contains (text "parent_context") c.reasons ≡ true)
        ↔ HaveContext r.parent_context entity.parent_context)
      × ((contains (text "location") c.reasons ≡ true) ↔ (
          HaveNumber same r.latitude entity.latitude
          × HaveNumber same r.longitude entity.longitude))
      × (c.score ≡ length c.reasons)
      × (2 ≤ c.score)
      × (c.score ≤ 4)

abbrev ids : List IdentityCandidate → List ℕ
ids = map (λ c. c.entity_id)

All-rank :
    (P : IdentityCandidate → Type 0) (c : IdentityCandidate) (candidates : List IdentityCandidate)
    → P c
    → All P candidates
    → All P (rank c candidates)
unfolding rank
All-rank P c [] p h = (p, tt)
All-rank P c (d ∷ candidates) p h = elim (Bool-cases (outranks d c)) [
  | inl higher ↦ rw higher (h.0, All-rank P c candidates p h.1)
  | inr not_higher ↦ rw not_higher (p, h)
]

All-ranked :
    (P : IdentityCandidate → Type 0) (candidates : List IdentityCandidate)
    → All P candidates
    → All P (ranked candidates)
unfolding ranked
All-ranked P [] h = tt
All-ranked P (c ∷ candidates) h = All-rank P c (ranked candidates) h.0 (All-ranked P candidates h.1)

outranks-IsAhead : (c d : IdentityCandidate) → outranks d c ≡ true → IsAhead d c
outranks-IsAhead c d h = ground arith

not_outranks-IsAhead : (c d : IdentityCandidate) → outranks d c ≡ false → IsAhead c d
not_outranks-IsAhead c d h = ground arith

IsAhead-trans : (c d e : IdentityCandidate) → IsAhead c d → IsAhead d e → IsAhead c e
IsAhead-trans c d e h k = ground arith

All-IsAhead :
    (c d : IdentityCandidate) (candidates : List IdentityCandidate)
    → IsAhead c d
    → All (IsAhead d) candidates
    → All (IsAhead c) candidates
All-IsAhead c d [] h k = tt
All-IsAhead c d (e ∷ candidates) h k = (IsAhead-trans c d e h k.0, All-IsAhead c d candidates h k.1)

rank-AreRanked :
    (c : IdentityCandidate) (candidates : List IdentityCandidate)
    → AreRanked candidates
    → AreRanked (rank c candidates)
unfolding rank
rank-AreRanked c [] h = (tt, tt)
rank-AreRanked c (d ∷ candidates) h = elim (Bool-cases (outranks d c)) [
  | inl higher ↦ rw higher (
    All-rank (IsAhead d) c candidates (outranks-IsAhead c d higher) h.0,
    rank-AreRanked c candidates h.1,
  )
  | inr not_higher ↦
      let ahead = not_outranks-IsAhead c d not_higher in
      rw not_higher ((ahead, All-IsAhead c d candidates ahead h.0), h)
]

ranked-AreRanked : (candidates : List IdentityCandidate) → AreRanked (ranked candidates)
unfolding ranked
ranked-AreRanked [] = tt
ranked-AreRanked (c ∷ candidates) =
    rank-AreRanked c (ranked candidates) (ranked-AreRanked candidates)

ids-rank :
    (c : IdentityCandidate) (candidates : List IdentityCandidate)
    → Perm (ids (rank c candidates)) (c.entity_id ∷ ids candidates)
unfolding rank
ids-rank c [] = Perm.rfl
ids-rank c (d ∷ candidates) = elim (Bool-cases (outranks d c)) [
  | inl higher ↦ rw higher (
      Perm.trans (Perm.cons d.entity_id (ids-rank c candidates))
        (Perm.swap c.entity_id d.entity_id (ids candidates)))
  | inr not_higher ↦ rw not_higher Perm.rfl
]

ids-ranked : (candidates : List IdentityCandidate) → Perm (ids (ranked candidates)) (ids candidates)
unfolding ranked
ids-ranked [] = Perm.rfl
ids-ranked (c ∷ candidates) =
    Perm.trans (ids-rank c (ranked candidates)) (Perm.cons c.entity_id (ids-ranked candidates))

-- The reasons name what agrees, and the score counts them.
reasons_of_lem :
    (context place : Bool)
    → (contains (text "parent_context") (reasons_of context place) ≡ context)
      × (contains (text "location") (reasons_of context place) ≡ place)
      × (score_of context place ≡ length (reasons_of context place))
      × (2 ≤ score_of context place)
      × (score_of context place ≤ 4)
unfolding contains list_beq
reasons_of_lem true true = (refl, refl, refl, omega arith, omega arith)
reasons_of_lem true false = (refl, refl, refl, omega arith, omega arith)
reasons_of_lem false true = (refl, refl, refl, omega arith, omega arith)
reasons_of_lem false false = (refl, refl, refl, omega arith, omega arith)

bool_same : (a b : Bool) → (a ≡ true → b ≡ true) → (b ≡ true → a ≡ true) → a ≡ b
bool_same a b h k = ground (arith, h, k)

some_inj : {A : Type 0} {a b : A} → some a ≡ some b → a ≡ b
some_inj {A} {a} e = ap (λ (o : Option A). get_or o a) e

module _ {Number : Type 0} (same : Number → Number → Bool) (r : IdentityRecord Number) where
  ids-candidates_of :
      (existing : List (IdentityRecord Number))
      → ids (candidates_of same r existing)
        ≡ map (λ o. o.entity_id) (keep (is_namesake same r) existing)
  unfolding candidates_of candidate_of
  ids-candidates_of [] = refl
  ids-candidates_of (o ∷ existing) = elim (Bool-cases (is_namesake same r o)) [
    | inl same_name ↦ rw same_name (ap (λ l. o.entity_id ∷ l) (ids-candidates_of existing))
    | inr different ↦ rw different (ids-candidates_of existing)
  ]

  pub is_namesake_iff :
      (o : IdentityRecord Number)
      → (is_namesake same r o ≡ true)
        ↔ ((o.object_type ≡ r.object_type) × (normalized r.name ≡ normalized o.name))
  is_namesake_iff o =
      let types = list_beq_iff o.object_type r.object_type in
      let names = option_beq_iff (normalized r.name) (normalized o.name) in
      (
        λ e. (types.0 (ground (arith, e)), names.0 (ground (arith, e))),
        λ (type, name). rw (types.1 type, names.1 name) refl,
      )

  context_iff : (a b : Option Text) → (is_same_context a b ≡ true) ↔ HaveContext a b
  unfolding option_beq
  context_iff none b = ((λ e. absurd (cc e)), λ (t, e, _, _). absurd (cc e))
  context_iff (some t) none = ((λ e. absurd (ground (arith, e))), λ (u, _, e, _). absurd (cc e))
  context_iff (some t) (some u) =
      let same_text = list_beq_iff t u in
      let blank = list_beq_iff t [] in
      (
        λ e. (
          t,
          refl,
          ap some (sym (same_text.0 (ground (arith, e)))),
          λ n. ground (arith, e, blank.1 n),
        ),
        λ (v, e, e', ne).
            ground (arith, same_text.1 (cc (e, e')), λ (n : t ≡ []). ne (cc (e, n)), blank),
      )

  number_iff : (a b : Option Number) → (is_same_number same a b ≡ true) ↔ HaveNumber same a b
  number_iff none b = ((λ e. absurd (cc e)), λ (x, y, e, _, _). absurd (cc e))
  number_iff (some x) none = ((λ e. absurd (cc e)), λ (x', y, _, e, _). absurd (cc e))
  number_iff (some x) (some y) =
      ((λ e. (x, y, refl, refl, e)), λ (x', y', e, e', h). rw (some_inj e, some_inj e') h)

  place_iff :
      (o : IdentityRecord Number)
      → (is_same_place same r o ≡ true)
        ↔ (HaveNumber same r.latitude o.latitude × HaveNumber same r.longitude o.longitude)
  place_iff o =
      let latitudes = number_iff r.latitude o.latitude in
      let longitudes = number_iff r.longitude o.longitude in
      (
        λ e. (latitudes.0 (ground (arith, e)), longitudes.0 (ground (arith, e))),
        λ h. rw (latitudes.1 h.0, longitudes.1 h.1) refl,
      )

  candidate_of-IsFounded :
      (o : IdentityRecord Number) (existing : List (IdentityRecord Number))
      → is_namesake same r o ≡ true
      → IsFounded same r (o ∷ existing) (candidate_of same r o)
  unfolding candidate_of
  candidate_of-IsFounded o existing h =
      let (context, place, counted, low, high) =
        reasons_of_lem (is_same_context r.parent_context o.parent_context)
          (is_same_place same r o) in
      let contexts = context_iff r.parent_context o.parent_context in
      let places = place_iff o in
      record {
        entity = o;
        there = mem-cons_self;
        of_type = ((is_namesake_iff o).0 h).0;
        of_name = ((is_namesake_iff o).0 h).1;
        identified = refl;
        agreement = (
          ((λ e. contexts.0 (sym context ∙ e)), λ e. context ∙ contexts.1 e),
          ((λ e. places.0 (sym place ∙ e)), λ e. place ∙ places.1 e),
          counted,
          low,
          high,
        );
      }

  All-IsFounded-cons :
      (o : IdentityRecord Number) (existing : List (IdentityRecord Number))
      (candidates : List IdentityCandidate)
      → All (IsFounded same r existing) candidates
      → All (IsFounded same r (o ∷ existing)) candidates
  All-IsFounded-cons o existing [] h = tt
  All-IsFounded-cons o existing (c ∷ candidates) h = (
    record {
      entity = h.0.entity;
      there = mem-cons_of_mem o h.0.there;
      of_type = h.0.of_type;
      of_name = h.0.of_name;
      identified = h.0.identified;
      agreement = h.0.agreement;
    },
    All-IsFounded-cons o existing candidates h.1,
  )

  candidates_of-IsFounded :
      (existing : List (IdentityRecord Number))
      → All (IsFounded same r existing) (candidates_of same r existing)
  unfolding candidates_of
  candidates_of-IsFounded [] = tt
  candidates_of-IsFounded (o ∷ existing) =
      let rest =
        All-IsFounded-cons o existing (candidates_of same r existing)
          (candidates_of-IsFounded existing) in
      elim (Bool-cases (is_namesake same r o)) [
        | inl same_name ↦ rw same_name (candidate_of-IsFounded o existing same_name, rest)
        | inr different ↦ rw different rest
      ]

  -- Tests that hold for the same entities keep the same.
  keep_same :
      (test test' : IdentityRecord Number → Bool) (existing : List (IdentityRecord Number))
      → ((o : IdentityRecord Number) → test o ≡ test' o)
      → keep test existing ≡ keep test' existing
  keep_same test test' [] same_test = refl
  keep_same test test' (o ∷ existing) same_test = elim (Bool-cases (test' o)) [
    | inl kept ↦ rw (same_test o, kept) (ap (λ l. o ∷ l) (keep_same test test' existing same_test))
    | inr left ↦ rw (same_test o, left) (keep_same test test' existing same_test)
  ]

  -- The candidates are the existing entities of the same type and normalized name, whatever test tells
  -- these, each once for each time that it stands there. The reasons of each say whether the context
  -- and both coordinates agree as well, and its score is the number of its reasons, from 2 to 4. A
  -- candidate comes before those with a lower score and those with the same score and a higher
  -- identifier.
  pub identity_candidates_lem :
      (agrees : IdentityRecord Number → Bool) (existing : List (IdentityRecord Number))
      → ((o : IdentityRecord Number)
          → (agrees o ≡ true)
            ↔ ((o.object_type ≡ r.object_type) × (normalized r.name ≡ normalized o.name)))
      → Perm
          (ids (identity_candidates same r existing))
          (map (λ o. o.entity_id) (keep agrees existing))
        × All (IsFounded same r existing) (identity_candidates same r existing)
        × AreRanked (identity_candidates same r existing)
  unfolding identity_candidates
  identity_candidates_lem agrees existing tells = (
    rw
        (
          ids-candidates_of existing,
          keep_same (is_namesake same r) agrees existing (λ o.
              bool_same (is_namesake same r o) (agrees o)
                (λ e. (tells o).1 ((is_namesake_iff o).0 e))
                (λ e. (is_namesake_iff o).1 ((tells o).0 e))),
        )
        at (ids-ranked (candidates_of same r existing)),
    All-ranked (IsFounded same r existing) (candidates_of same r existing)
        (candidates_of-IsFounded existing),
    ranked-AreRanked (candidates_of same r existing),
  )
