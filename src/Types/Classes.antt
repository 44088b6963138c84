-- ===== src/Types/Classes.antt =====
-- pysql/types.py: the classes of the data types.
use solidity_course_blockcha.Prelude.{
  Format, ℕ, ◌+◌, ◌-◌, ◌/◌, ◌%◌, ◌^◌, min, ltb, Bool, true, false, not, ◌||◌, Option, none, some,
  List, [], ◌∷◌, ◌++◌, ◌==◌, leb, if◌then◌else◌, ◌>>=◌, length, take, slice, replicate, unsigned,
  pack_one, unpack_one, be, of_be,
}
use solidity_course_blockcha.Types.Value.{
  ℤ, pos, negsuc, Value, null, boolean, integer, float, text, bytes, Python, TypeId, null_id,
  boolean_id, integer_id, float_id, text_id, varchar_id, char_id, blob_id, timestamp_id, same_id,
  is_one_of,
}

-- n ^ (1 << 63)
abbrev pub flip_sign : ℕ → ℕ
flip_sign n = if (n / 2 ^ 63) % 2 == 1 then n - 2 ^ 63 else n + 2 ^ 63

-- i ^ (1 << 63). Python's integers are in two's complement without a bound: `negsuc n` has the bits
-- of n, each flipped, so that a bit of it is flipped when that bit of n is.
abbrev pub flip_sign_int : ℤ → ℤ
flip_sign_int (pos n) = pos (flip_sign n)
flip_sign_int (negsuc n) = negsuc (flip_sign n)

-- Unsigned formats have no negative number: struct.error.
abbrev pub pack_int : Format → ℤ → Option (List ℕ)
pack_int f (pos n) = pack_one f n
pack_int f (negsuc n) = none

abbrev pub encode_int : ℤ → Option (List ℕ)
encode_int i = pack_int (unsigned 8) (flip_sign_int i)

-- n ^ 0xFFFFFFFFFFFFFFFF, for 64 bits
abbrev pub flip_all : ℕ → ℕ
flip_all n = 2 ^ 64 - 1 - n

abbrev pub encode_float : ℕ → ℕ
encode_float bits = if leb (2 ^ 63) bits then flip_all bits else flip_sign bits

abbrev pub decode_float : ℕ → ℕ
decode_float n = if leb (2 ^ 63) n then flip_sign n else flip_all n

-- A length of `w` bytes, and what it counts.
abbrev pub with_length : ℕ → List ℕ → Option (List ℕ)
with_length w b = pack_one (unsigned w) (length b) >>= λ l. some (l ++ b)

abbrev pub read_with_length : ℕ → List ℕ → Option (List ℕ)
read_with_length w input = unpack_one (unsigned w) (take w input) >>= λ n. some (slice input w n)

-- encoded.ljust(n, b"\x20")
abbrev pub pad : ℕ → List ℕ → List ℕ
pad n b = b ++ replicate (n - length b) 32

-- -(2 ** 63) <= i < 2 ** 63
abbrev pub in_int64 : ℤ → Bool
in_int64 (pos n) = ltb n (2 ^ 63)
in_int64 (negsuc n) = ltb n (2 ^ 63)

-- The methods of a data type; `none` is an exception.
pub record TypeClass (F T : Type 0) : Type 0 where
  pub storage_size : Value F T → Option ℕ
  pub serialize : Value F T → Option (List ℕ)
  pub deserialize : List ℕ → Option (Value F T)
  pub validate : Value F T → Bool
  pub is_compatible : TypeId → Bool
  pub default_value : Value F T

module _ {F T : Type 0} where
  abbrev pub decode_int : List ℕ → Option (Value F T)
  decode_int input =
      unpack_one (unsigned 8) (take 8 input) >>= λ k. some (integer (pos (flip_sign k)))

  -- isinstance, but that a bool is an int as well.
  abbrev pub is_null : Value F T → Bool
  is_null null = true
  is_null _ = false

  abbrev is_bool : Value F T → Bool
  is_bool (boolean b) = true
  is_bool _ = false

  abbrev is_int : Value F T → Bool
  is_int (integer i) = true
  is_int _ = false

  abbrev is_int64 : Value F T → Bool
  is_int64 (integer i) = in_int64 i
  is_int64 _ = false

  abbrev is_float : Value F T → Bool
  is_float (float f) = true
  is_float _ = false

  abbrev is_text : Value F T → Bool
  is_text (text t) = true
  is_text _ = false

  abbrev is_bytes : Value F T → Bool
  is_bytes (bytes b) = true
  is_bytes _ = false

module _ {F T : Type 0} (py : Python F T) where
  abbrev is_text_up_to : ℕ → Value F T → Bool
  is_text_up_to n (text t) = leb (length (py.encode t)) n
  is_text_up_to n _ = false

  abbrev pub null_class : TypeClass F T
  null_class = record {
    storage_size = λ v. some 0;
    serialize = λ v. some [];
    deserialize = λ input. some null;
    validate = λ v. is_null v;
    is_compatible = λ other. same_id null_id other;
    default_value = null;
  }

  abbrev pub boolean_class : TypeClass F T
  boolean_class = record {
    storage_size = λ v. some 1;
    serialize = λ v. pack_one (unsigned 1) (if py.to_bool v then 1 else 0);
    deserialize =
        λ input. unpack_one (unsigned 1) (take 1 input) >>= λ n. some (boolean (not (n == 0)));
    validate = λ v. is_bool v || is_int v;
    is_compatible = λ other. is_one_of other (boolean_id ∷ integer_id ∷ []);
    default_value = boolean false;
  }

  abbrev pub integer_class : TypeClass F T
  integer_class = record {
    storage_size = λ v. some 8;
    serialize = λ v. py.to_int v >>= encode_int;
    deserialize = λ input. decode_int input;
    validate = λ v. is_int64 v;
    is_compatible = λ other. is_one_of other (integer_id ∷ boolean_id ∷ float_id ∷ []);
    default_value = integer (pos 0);
  }

  abbrev pub float_class : TypeClass F T
  float_class = record {
    storage_size = λ v. some 8;
    serialize = λ v. py.to_float v >>= λ f. some (be 8 (encode_float (py.float_bits f)));
    deserialize = λ input. some (float (py.float_of_bits (decode_float (of_be 0 (take 8 input)))));
    validate = λ v. is_int v || is_float v;
    is_compatible = λ other. is_one_of other (float_id ∷ integer_id ∷ []);
    default_value = float py.float_zero;
  }

  abbrev pub text_class : TypeClass F T
  text_class = record {
    storage_size = λ v. some (4 + length (py.encode (py.to_str v)));
    serialize = λ v. with_length 4 (py.encode (py.to_str v));
    deserialize = λ input. read_with_length 4 input >>= λ b. py.decode b >>= λ t. some (text t);
    validate = λ v. is_text v;
    is_compatible = λ other. same_id text_id other;
    default_value = text py.empty;
  }

  abbrev pub varchar_class : ℕ → TypeClass F T
  varchar_class n = record {
    storage_size = λ v. some (2 + min (length (py.encode (py.to_str v))) n);
    serialize = λ v. with_length 2 (take n (py.encode (py.to_str v)));
    deserialize = λ input. read_with_length 2 input >>= λ b. py.decode b >>= λ t. some (text t);
    validate = λ v. is_text_up_to n v;
    is_compatible = λ other. is_one_of other (varchar_id ∷ text_id ∷ char_id ∷ []);
    default_value = text py.empty;
  }

  abbrev pub char_class : ℕ → TypeClass F T
  char_class n = record {
    storage_size = λ v. some n;
    serialize = λ v. some (pad n (take n (py.encode (py.to_str v))));
    deserialize = λ input. py.decode (take n input) >>= λ t. some (text (py.rstrip t));
    validate = λ v. is_text_up_to n v;
    is_compatible = λ other. is_one_of other (char_id ∷ varchar_id ∷ text_id ∷ []);
    default_value = text py.empty;
  }

  abbrev pub blob_class : TypeClass F T
  blob_class = record {
    storage_size = λ v. py.to_bytes v >>= λ b. some (4 + length b);
    serialize = λ v. py.to_bytes v >>= with_length 4;
    deserialize = λ input. read_with_length 4 input >>= λ b. some (bytes b);
    validate = λ v. is_bytes v;
    is_compatible = λ other. same_id blob_id other;
    default_value = bytes [];
  }

  abbrev pub timestamp_class : TypeClass F T
  timestamp_class = record {
    storage_size = λ v. some 8;
    serialize = λ v. py.to_int v >>= encode_int;
    deserialize = λ input. decode_int input;
    validate = λ v. is_bool v || is_int v || is_float v;
    is_compatible = λ other. same_id timestamp_id other;
    default_value = integer (pos 0);
  }
