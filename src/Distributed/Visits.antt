-- ===== src/Distributed/Visits.antt =====
-- Both phases of a two-phase commit: an action on each node in turn, until one fails.
use solidity_course_blockcha.Prelude.{
  ◌≡◌, ◌≢◌, ◌⊎◌, refl, ap, sym, subst, ◌∙◌, inl, inr, Bool, true, false, none, some, List, [], ◌∷◌,
  String, string_discrete, Option-cases, Bool-cases, if◌then◌else◌,
}
use solidity_course_blockcha.Prelude.Dict
use solidity_course_blockcha.Prelude.Dict.{get-put_self, get-put_ne}

abbrev pub IsIn : String → List String → Type 0
IsIn k [] = ⊥
IsIn k (x ∷ xs) = (x ≡ k) ⊎ IsIn k xs

abbrev pub Distinct : List String → Type 0
Distinct [] = Unit {0}
Distinct (x ∷ xs) = (¬ (IsIn x xs)) × Distinct xs

pub some_eq {ℓ} : {A : Type ℓ} {a b : A} → some a ≡ some b → a ≡ b
some_eq e = cc

pub false-true : false ≢ true
false-true e = cc

module _ {N : Type 0} (f : String → N → N × Bool) where
  -- Both phases: an action on each node in turn, until one fails.
  pub visit : List String → List (String × N) → List (String × N) × Bool
  visit [] nodes = (nodes, true)
  visit (id ∷ ids) nodes = elim (Dict.get string_discrete nodes id) [
    | none ↦ (nodes, false)
    | some node ↦
        let rest = visit ids (Dict.put string_discrete nodes id (f id node).0) in
        if (f id node).1 then rest else (Dict.put string_discrete nodes id (f id node).0, false)
  ]

  pub visit_end : (nodes : List (String × N)) → (nodes, true) ≡ visit [] nodes
  unfolding visit
  visit_end nodes = refl

  pub visit_missing :
      (x : String) (ids : List String) (nodes : List (String × N))
      → Dict.get string_discrete nodes x ≡ none
      → visit (x ∷ ids) nodes ≡ (nodes, false)
  unfolding visit
  visit_missing x ids nodes e = rw (e, visit) refl

  pub visit_next :
      (x : String) (ids : List String) (nodes : List (String × N)) (node : N)
      → Dict.get string_discrete nodes x ≡ some node
      → (f x node).1 ≡ true
      → visit (x ∷ ids) nodes ≡ visit ids (Dict.put string_discrete nodes x (f x node).0)
  unfolding visit
  visit_next x ids nodes node e b = rw (e, visit) (rw (b, visit) refl)

  pub visit_failed :
      (x : String) (ids : List String) (nodes : List (String × N)) (node : N)
      → Dict.get string_discrete nodes x ≡ some node
      → (f x node).1 ≡ false
      → visit (x ∷ ids) nodes ≡ (Dict.put string_discrete nodes x (f x node).0, false)
  unfolding visit
  visit_failed x ids nodes node e b = rw (e, visit) (rw (b, visit) refl)

  pub visit_other :
      (ids : List String) (nodes : List (String × N)) (id : String)
      → ¬ (IsIn id ids)
      → Dict.get string_discrete (visit ids nodes).0 id ≡ Dict.get string_discrete nodes id
  unfolding visit
  visit_other [] nodes id out = refl
  visit_other (x ∷ ids) nodes id out = elim (Option-cases (Dict.get string_discrete nodes x)) [
    | inl e ↦ rw (e, visit) refl
    | inr (node, e) ↦
        let kept = get-put_ne string_discrete nodes x id (f x node).0 (λ same. out (inl same)) in
        elim (Bool-cases (f x node).1) [
          | inl b ↦ rw (e, visit) (rw (b, visit) (visit_other ids _ id (λ i. out (inr i)) ∙ kept))
          | inr b ↦ rw (e, visit) (rw (b, visit) kept)
        ]
  ]

  -- The first node was acted on, unless it is not there.
  pub visit_first :
      (x : String) (ids : List String) (nodes : List (String × N)) (node : N)
      → ¬ (IsIn x ids)
      → Dict.get string_discrete nodes x ≡ some node
      → Dict.get string_discrete (visit (x ∷ ids) nodes).0 x ≡ some (f x node).0
  unfolding visit
  visit_first x ids nodes node new e = elim (Bool-cases (f x node).1) [
    | inl b ↦
        rw (e, visit)
          (rw (b, visit)
            (visit_other ids _ x new ∙ get-put_self string_discrete nodes x (f x node).0))
    | inr b ↦ rw (e, visit) (rw (b, visit) (get-put_self string_discrete nodes x (f x node).0))
  ]

  -- What an action did on a node.
  abbrev pub Done : List (String × N) → List (String × N) → String → Type 0
  Done nodes after id =
      (node : N) × (Dict.get string_discrete nodes id ≡ some node)
      × ((f id node).1 ≡ true)
      × (Dict.get string_discrete after id ≡ some (f id node).0)

  -- When no action fails, each node was acted on, once.
  pub visit-Done :
      (ids : List String) (nodes : List (String × N)) (id : String)
      → Distinct ids
      → (visit ids nodes).1 ≡ true
      → IsIn id ids
      → Done nodes (visit ids nodes).0 id
  visit-Done [] nodes id d ok i = absurd i
  visit-Done (x ∷ ids) nodes id (new, d) ok i =
      elim (Option-cases (Dict.get string_discrete nodes x)) [
        | inl e ↦ absurd (false-true (sym (ap (λ r. r.1) (visit_missing x ids nodes e)) ∙ ok))
        | inr (node, e) ↦ elim (Bool-cases (f x node).1) [
          | inr b ↦
              absurd (false-true (sym (ap (λ r. r.1) (visit_failed x ids nodes node e b)) ∙ ok))
          | inl b ↦ elim i [
            | inl same ↦
                subst (Done nodes (visit (x ∷ ids) nodes).0) same
                  (node, e, b, visit_first x ids nodes node new e)
            | inr later ↦
                let next = visit_next x ids nodes node e b in
                let (other, g, ok', g') =
                  visit-Done ids _ id d (sym (ap (λ r. r.1) next) ∙ ok) later in
                let ne : x ≢ id = λ same. new (subst (λ k. IsIn k ids) (sym same) later) in
                (
                  other,
                  sym (get-put_ne string_discrete nodes x id _ ne) ∙ g,
                  ok',
                  ap (λ r. Dict.get string_discrete r.0 id) next ∙ g',
                )
          ]
        ]
      ]
