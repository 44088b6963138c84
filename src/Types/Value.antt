-- ===== src/Types/Value.antt =====
-- pysql/types.py: values and data types. Floating-point numbers, texts and the conversions of Python's
-- built-in types are given from outside.
use solidity_course_blockcha.Prelude.{
  ℕ, ◌^◌, ◌≡◌, ◌<◌, Bool, false, ◌||◌, Option, some, List, [], ◌∷◌, ◌++◌, ◌==◌, replicate,
}

pub data ℤ : Type 0 where
  pos negsuc : ℕ → ℤ

pub data Value (F T : Type 0) : Type 0 where
  null : Value F T
  boolean : Bool → Value F T
  integer : ℤ → Value F T
  float : F → Value F T
  text : T → Value F T
  bytes : List ℕ → Value F T

-- What the types use of Python: UTF-8, `rstrip`, the 64 bits of a floating-point number, and the
-- built-in conversions, where `none` is an exception.
pub record Python (F T : Type 0) : Type 0 where
  pub encode : T → List ℕ
  pub decode : List ℕ → Option T
  pub rstrip : T → T
  pub empty : T
  pub float_zero : F
  pub float_bits : F → ℕ
  pub float_of_bits : ℕ → F
  pub to_bool : Value F T → Bool
  pub to_int : Value F T → Option ℤ
  pub to_float : Value F T → Option F
  pub to_str : Value F T → T
  pub to_bytes : Value F T → Option (List ℕ)

-- A conversion keeps a value that has the type, and what was encoded is decoded, with padding too,
-- which rstrip removes.
pub record IsPython {F T : Type 0} (py : Python F T) : Type 0 where
  pub decodes : (t : T) → py.decode (py.encode t) ≡ some t
  pub decodes_padded :
      (t : T) (k : ℕ)
      → (s : T) × (py.decode (py.encode t ++ replicate k 32) ≡ some s) × (py.rstrip s ≡ py.rstrip t)
  pub bits_fit : (f : F) → py.float_bits f < 2 ^ 64
  pub of_bits : (f : F) → py.float_of_bits (py.float_bits f) ≡ f
  pub bool_is : (b : Bool) → py.to_bool (boolean b) ≡ b
  pub int_is : (i : ℤ) → py.to_int (integer i) ≡ some i
  pub float_is : (f : F) → py.to_float (float f) ≡ some f
  pub str_is : (t : T) → py.to_str (text t) ≡ t
  pub bytes_is : (b : List ℕ) → py.to_bytes (bytes b) ≡ some b

pub data TypeId : Type 0 where
  null_id boolean_id integer_id float_id text_id varchar_id char_id blob_id decimal_id
        timestamp_id :
      TypeId

pub data DataType : Type 0 where
  null_type boolean_type integer_type float_type text_type blob_type timestamp_type : DataType
  varchar_type char_type : ℕ → DataType

abbrev pub type_id : DataType → TypeId
type_id null_type = null_id
type_id boolean_type = boolean_id
type_id integer_type = integer_id
type_id float_type = float_id
type_id text_type = text_id
type_id blob_type = blob_id
type_id timestamp_type = timestamp_id
type_id (varchar_type n) = varchar_id
type_id (char_type n) = char_id

-- The number that auto() gives.
abbrev pub id_number : TypeId → ℕ
id_number null_id = 1
id_number boolean_id = 2
id_number integer_id = 3
id_number float_id = 4
id_number text_id = 5
id_number varchar_id = 6
id_number char_id = 7
id_number blob_id = 8
id_number decimal_id = 9
id_number timestamp_id = 10

abbrev pub same_id : TypeId → TypeId → Bool
same_id a b = id_number a == id_number b

abbrev pub is_one_of : TypeId → List TypeId → Bool
is_one_of a [] = false
is_one_of a (b ∷ ids) = same_id a b || is_one_of a ids
