-- ===== src/Types/Coercion.antt =====
-- pysql/types.py: implicit conversions and common types.
use solidity_course_blockcha.Prelude.{
  ℕ, Bool, true, false, ◌&&◌, ◌||◌, Option, none, some, List, [], ◌∷◌, leb, if◌then◌else◌, ◌>>=◌,
}
use solidity_course_blockcha.Types.Value.{
  Value, null, integer, float, text, Python, TypeId, null_id, boolean_id, integer_id, float_id,
  text_id, varchar_id, char_id, blob_id, decimal_id, timestamp_id, same_id, DataType, type_id,
}
use solidity_course_blockcha.Types.Classes.{is_null}

-- `none` is the -1 of an id that is not in the table.
abbrev pub type_precedence : TypeId → Option ℕ
type_precedence null_id = some 0
type_precedence boolean_id = some 1
type_precedence integer_id = some 2
type_precedence float_id = some 3
type_precedence char_id = some 4
type_precedence varchar_id = some 5
type_precedence text_id = some 6
type_precedence blob_id = some 7
type_precedence timestamp_id = some 8
type_precedence decimal_id = none

abbrev pub precedes : Option ℕ → Option ℕ → Bool
precedes none b = true
precedes (some a) none = false
precedes (some a) (some b) = leb a b

abbrev pub coercion_rules : List (TypeId × TypeId)
coercion_rules =
    (boolean_id, integer_id)
    ∷ (integer_id, float_id)
    ∷ (char_id, varchar_id)
    ∷ (char_id, text_id)
    ∷ (varchar_id, text_id)
    ∷ (integer_id, timestamp_id)
    ∷ []

abbrev pub has_rule : TypeId → TypeId → List (TypeId × TypeId) → Bool
has_rule a b [] = false
has_rule a b ((x, y) ∷ rules) = (same_id a x && same_id b y) || has_rule a b rules

unfoldable pub can_coerce : DataType → DataType → Bool
can_coerce from to =
    same_id (type_id from) null_id
    || same_id (type_id from) (type_id to)
    || has_rule (type_id from) (type_id to) coercion_rules

-- `none` is TypeError.
unfoldable pub resolve_common_type : DataType → DataType → Option DataType
resolve_common_type a b =
    if same_id (type_id a) null_id
    then some b
    else if same_id (type_id b) null_id
    then some a
    else if same_id (type_id a) (type_id b)
    then some a
    else if precedes (type_precedence (type_id b)) (type_precedence (type_id a)) && can_coerce b a
    then some a
    else if can_coerce a b
    then some b
    else none

module _ {F T : Type 0} (py : Python F T) where
  abbrev pub convert : TypeId → TypeId → Value F T → Option (Value F T)
  convert boolean_id integer_id v = py.to_int v >>= λ i. some (integer i)
  convert integer_id float_id v = py.to_float v >>= λ f. some (float f)
  convert char_id varchar_id v = some (text (py.to_str v))
  convert char_id text_id v = some (text (py.to_str v))
  convert varchar_id text_id v = some (text (py.to_str v))
  convert integer_id timestamp_id v = py.to_int v >>= λ i. some (integer i)
  convert _ _ v = none

  -- `none` is an exception.
  unfoldable pub coerce_value : Value F T → DataType → DataType → Option (Value F T)
  coerce_value v from to =
      if is_null v
      then some null
      else if same_id (type_id from) (type_id to)
      then some v
      else if can_coerce from to
      then convert (type_id from) (type_id to) v
      else none
