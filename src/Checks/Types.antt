-- ===== src/Checks/Types.antt =====
-- pysql/types.py with ASCII texts, as their codes, and two floating-point numbers; the theorems at
-- values of each kind.
use solidity_course_blockcha.Prelude.{
  ℕ, zero, suc, ◌^◌, ◌<◌, ◌≡◌, refl, ap, Bool, true, false, ◌==◌, Option, none, some, List, [], ◌∷◌,
  ◌++◌, if◌then◌else◌, arith, length, replicate, be, pack_one, unpack_one, pack, unpack,
}
use solidity_course_blockcha.Types.Value.{
  ℤ, pos, negsuc, Value, boolean, integer, float, text, bytes, Python, IsPython, boolean_type,
  integer_type, text_type, char_type,
}
use solidity_course_blockcha.Types.Storage.{validate, storage_size, serialize, deserialize}
use solidity_course_blockcha.Types.Encodings.{chars}
use solidity_course_blockcha.Types.Coercion.{can_coerce, resolve_common_type, coerce_value}
use solidity_course_blockcha.Types.Coercions.{IsCommon, resolve_common_type-IsCommon}
use solidity_course_blockcha.Types.RoundTrip.{deserialize-serialize, negative_refused}

program : Unit {0}
unfolding be pack_one unpack_one pack unpack storage_size serialize deserialize
program = tt

abbrev pub strip_before : ℕ → List ℕ → List ℕ
strip_before x [] = if x == 32 then [] else x ∷ []
strip_before x (y ∷ ys) = x ∷ y ∷ ys

abbrev pub strip : List ℕ → List ℕ
strip [] = []
strip (x ∷ xs) = strip_before x (strip xs)

strip-padded : (t : List ℕ) (k : ℕ) → strip (t ++ replicate k 32) ≡ strip t
strip-padded [] zero = refl
strip-padded [] (suc k) = ap (strip_before 32) (strip-padded [] k)
strip-padded (x ∷ t) k = ap (strip_before x) (strip-padded t k)

abbrev pub V : Type 0
V = Value Bool (List ℕ)

abbrev to_bool : V → Bool
to_bool (boolean b) = b
to_bool _ = true

abbrev to_int : V → Option ℤ
to_int (integer i) = some i
to_int _ = none

abbrev to_float : V → Option Bool
to_float (float f) = some f
to_float _ = none

abbrev to_str : V → List ℕ
to_str (text t) = t
to_str _ = []

abbrev to_bytes : V → Option (List ℕ)
to_bytes (bytes b) = some b
to_bytes _ = none

abbrev pub ascii : Python Bool (List ℕ)
ascii = record {
  encode = λ t. t;
  decode = λ b. some b;
  rstrip = strip;
  empty = [];
  float_zero = false;
  float_bits = λ f. if f then 2 ^ 63 else 0;
  float_of_bits = λ n. n == 2 ^ 63;
  to_bool = to_bool;
  to_int = to_int;
  to_float = to_float;
  to_str = to_str;
  to_bytes = to_bytes;
}

bits-lt : (f : Bool) → (if f then 2 ^ 63 else 0) < 2 ^ 64
bits-lt true = omega arith
bits-lt false = omega arith

bits_back : (f : Bool) → ((if f then 2 ^ 63 else 0) == 2 ^ 63) ≡ f
bits_back true = refl
bits_back false = refl

pub ascii-IsPython : IsPython ascii
ascii-IsPython = record {
  decodes = λ t. refl;
  decodes_padded = λ t k. (t ++ replicate k 32, refl, strip-padded t k);
  bits_fit = bits-lt;
  of_bits = bits_back;
  bool_is = λ b. refl;
  int_is = λ i. refl;
  float_is = λ f. refl;
  str_is = λ t. refl;
  bytes_is = λ b. refl;
}

five : serialize ascii integer_type (integer (pos 5)) ≡ some (128 ∷ 0 ∷ 0 ∷ 0 ∷ 0 ∷ 0 ∷ 0 ∷ 5 ∷ [])
unfolding program
five = refl

-- A trailing space of a CHAR is lost.
stripped : deserialize ascii (char_type 3) (65 ∷ 32 ∷ 32 ∷ 9 ∷ []) ≡ some (text (65 ∷ []))
unfolding program
stripped = refl

deserialize-serialize_example :
    (b : List ℕ) × (serialize ascii (char_type 3) (text (65 ∷ [])) ≡ some b)
    × (storage_size ascii (char_type 3) (text (65 ∷ [])) ≡ some (length b))
    × ((rest : List ℕ) → deserialize ascii (char_type 3) (b ++ rest) ≡ some (text (65 ∷ [])))
deserialize-serialize_example =
    deserialize-serialize ascii-IsPython (char_type 3) (text (65 ∷ []))
      (chars 3 (65 ∷ []) (omega arith) refl)

negative_refused_example :
    (validate ascii integer_type (integer (negsuc 0)) ≡ true)
    × (serialize ascii integer_type (integer (negsuc 0)) ≡ none)
negative_refused_example = negative_refused ascii-IsPython 0 (omega arith)

resolve_common_type-IsCommon_example :
    IsCommon integer_type text_type (resolve_common_type integer_type text_type)
resolve_common_type-IsCommon_example = resolve_common_type-IsCommon integer_type text_type

common : resolve_common_type integer_type boolean_type ≡ some integer_type
unfolding can_coerce resolve_common_type
common = refl

coerced : coerce_value ascii (boolean true) boolean_type text_type ≡ none
unfolding can_coerce coerce_value
coerced = refl
