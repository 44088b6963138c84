-- ===== src/Types/Coercions.antt =====
-- What the common type of two types is.
use solidity_course_blockcha.Prelude.{
  ℕ, ◌≡◌, refl, ap, sym, ◌∙◌, inl, inr, Bool, true, false, ◌&&◌, ◌||◌, Option, none, some, List, [],
  ◌∷◌, ◌==◌, arith, if◌then◌else◌, Bool-cases, ap₂, ==-true→eq,
}
use solidity_course_blockcha.Types.Value.{
  TypeId, null_id, boolean_id, integer_id, float_id, text_id, varchar_id, char_id, blob_id,
  decimal_id, timestamp_id, id_number, same_id, DataType, type_id,
}
use solidity_course_blockcha.Types.Coercion.{
  type_precedence, precedes, coercion_rules, has_rule, can_coerce, resolve_common_type,
}

id_of : ℕ → TypeId
id_of n =
    if n == 1
    then null_id
    else if n == 2
    then boolean_id
    else if n == 3
    then integer_id
    else if n == 4
    then float_id
    else if n == 5
    then text_id
    else if n == 6
    then varchar_id
    else if n == 7
    then char_id
    else if n == 8
    then blob_id
    else if n == 9
    then decimal_id
    else timestamp_id

id_of-id_number : (a : TypeId) → id_of (id_number a) ≡ a
unfolding id_of
id_of-id_number null_id = refl
id_of-id_number boolean_id = refl
id_of-id_number integer_id = refl
id_of-id_number float_id = refl
id_of-id_number text_id = refl
id_of-id_number varchar_id = refl
id_of-id_number char_id = refl
id_of-id_number blob_id = refl
id_of-id_number decimal_id = refl
id_of-id_number timestamp_id = refl

same_id→eq : (a b : TypeId) → same_id a b ≡ true → a ≡ b
same_id→eq a b h =
    sym (id_of-id_number a)
    ∙ ap id_of (==-true→eq (id_number a) (id_number b) h)
    ∙ id_of-id_number b

abbrev Precedes : TypeId → TypeId → Type 0
Precedes a b = precedes (type_precedence a) (type_precedence b) ≡ true

abbrev AllPrecede : List (TypeId × TypeId) → Type 0
AllPrecede [] = Unit {0}
AllPrecede ((x, y) ∷ rules) = Precedes x y × AllPrecede rules

both : (p q : Bool) → (p && q) ≡ true → (p ≡ true) × (q ≡ true)
both true q h = (refl, h)
both false q h = cc

has_rule-Precedes :
    (a b : TypeId) (rules : List (TypeId × TypeId))
    → AllPrecede rules
    → has_rule a b rules ≡ true
    → Precedes a b
has_rule-Precedes a b [] all h = cc
has_rule-Precedes a b ((x, y) ∷ rules) (first, all) h =
    elim (Bool-cases (same_id a x && same_id b y)) [
      | inl e ↦
          let (ax, by) = both (same_id a x) (same_id b y) e in
          ap₂ (λ (p q : TypeId). precedes (type_precedence p) (type_precedence q))
            (same_id→eq a x ax) (same_id→eq b y by)
          ∙ first
      | inr e ↦
          has_rule-Precedes a b rules all (ap (λ (c : Bool). c || has_rule a b rules) (sym e) ∙ h)
    ]

rule_of :
    (a b : DataType)
    → same_id (type_id a) null_id ≡ false
    → same_id (type_id a) (type_id b) ≡ false
    → can_coerce a b ≡ true
    → Precedes (type_id a) (type_id b)
unfolding can_coerce
rule_of a b e f h =
    has_rule-Precedes (type_id a) (type_id b) coercion_rules
      (refl, (refl, (refl, (refl, (refl, (refl, tt))))))
      (ap₂ (λ (p q : Bool). p || q || has_rule (type_id a) (type_id b) coercion_rules) (sym e)
          (sym f)
        ∙ h)

can_coerce_null : (a b : DataType) → same_id (type_id a) null_id ≡ true → can_coerce a b ≡ true
unfolding can_coerce
can_coerce_null a b h =
    ap
      (λ (p : Bool).
        p || same_id (type_id a) (type_id b) || has_rule (type_id a) (type_id b) coercion_rules)
      h

or_true : (p : Bool) → (p || true) ≡ true
or_true true = refl
or_true false = refl

can_coerce_same : (a b : DataType) → same_id (type_id a) (type_id b) ≡ true → can_coerce a b ≡ true
unfolding can_coerce
can_coerce_same a b h =
    ap
      (λ (q : Bool).
        same_id (type_id a) null_id || q || has_rule (type_id a) (type_id b) coercion_rules)
      h
    ∙ ap (λ (q : Bool). q || has_rule (type_id a) (type_id b) coercion_rules)
        (or_true (same_id (type_id a) null_id))

same_id_comm : (a b : TypeId) → same_id a b ≡ same_id b a
same_id_comm a b = ground arith

-- The common type is one of the two, to which the other can be coerced; or neither can be coerced to
-- the other.
pub data IsCommon (a b : DataType) : Option DataType → Type 0 where
  first : can_coerce b a ≡ true → IsCommon a b (some a)
  second : can_coerce a b ≡ true → IsCommon a b (some b)
  neither : can_coerce a b ≡ false → can_coerce b a ≡ false → IsCommon a b none

and_false : (p : Bool) → (p && false) ≡ false
and_false true = refl
and_false false = refl

by_rules :
    (a b : DataType)
    → same_id (type_id b) null_id ≡ false
    → same_id (type_id a) (type_id b) ≡ false
    → IsCommon a b (
        if precedes (type_precedence (type_id b)) (type_precedence (type_id a)) && can_coerce b a
        then some a
        else if can_coerce a b
        then some b
        else none)
by_rules a b f g = elim (Bool-cases (can_coerce b a)) [
  | inl c ↦
      let p = rule_of b a f (same_id_comm (type_id b) (type_id a) ∙ g) c in
      rw (p, precedes) (rw c (first c))
  | inr c ↦ rw c (
      rw (and_false (precedes (type_precedence (type_id b)) (type_precedence (type_id a))))
        (elim (Bool-cases (can_coerce a b)) [
          | inl d ↦ rw d (second d)
          | inr d ↦ rw d (neither d c)
        ]))
]

-- resolve_common_type gives one of its two types, to which the other can be coerced, and raises
-- TypeError only where neither type can be coerced to the other.
pub resolve_common_type-IsCommon : (a b : DataType) → IsCommon a b (resolve_common_type a b)
unfolding resolve_common_type
resolve_common_type-IsCommon a b = elim (Bool-cases (same_id (type_id a) null_id)) [
  | inl e ↦ rw (e, resolve_common_type) (second (can_coerce_null a b e))
  | inr e ↦ elim (Bool-cases (same_id (type_id b) null_id)) [
    | inl f ↦
        rw (e, resolve_common_type) (rw (f, resolve_common_type) (first (can_coerce_null b a f)))
    | inr f ↦ elim (Bool-cases (same_id (type_id a) (type_id b))) [
      | inl g ↦
          rw (e, resolve_common_type)
            (rw (f, resolve_common_type)
              (rw (g, resolve_common_type)
                (first (can_coerce_same b a (same_id_comm (type_id b) (type_id a) ∙ g)))))
      | inr g ↦
          rw (e, resolve_common_type)
            (rw (f, resolve_common_type) (rw (g, resolve_common_type) (by_rules a b f g)))
    ]
  ]
]
