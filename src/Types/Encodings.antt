-- ===== src/Types/Encodings.antt =====
-- The encodings of numbers and of what has a length, and the values that fit their types.
use solidity_course_blockcha.Prelude.{
  ℕ, ◌+◌, ◌^◌, ◌<◌, ◌≤◌, ◌≡◌, refl, ap, sym, ◌∙◌, Bool, true, false, not, Option, some, List, ◌++◌,
  ◌==◌, if◌then◌else◌, ◌>>=◌, arith, append_assoc, length, length-append, take, take-length, drop,
  slice, piece_at, unsigned, pack_one, unpack_one, pack_one-lt,
}
use solidity_course_blockcha.Types.Value.{
  pos, Value, null, boolean, integer, float, text, bytes, Python, DataType, null_type, boolean_type,
  integer_type, float_type, text_type, blob_type, timestamp_type, varchar_type, char_type,
}
use solidity_course_blockcha.Types.Classes.{
  flip_sign, encode_int, encode_float, decode_float, with_length, read_with_length,
}

flip_sign_low : (n : ℕ) → n < 2 ^ 63 → flip_sign n ≡ n + 2 ^ 63
flip_sign_low n h = ground arith

pub flip_sign_back : (n : ℕ) → n < 2 ^ 63 → flip_sign (n + 2 ^ 63) ≡ n
flip_sign_back n h = ground arith

pub decode_float-encode_float : (n : ℕ) → n < 2 ^ 64 → decode_float (encode_float n) ≡ n
decode_float-encode_float n h = ground arith

pub encode_float-lt : (n : ℕ) → n < 2 ^ 64 → encode_float n < 2 ^ 64
encode_float-lt n h = ground arith

pub take_prefix : (b rest : List ℕ) {n : ℕ} → length b ≡ n → take n (b ++ rest) ≡ b
take_prefix b rest {n} size = ap (λ (k : ℕ). take k (b ++ rest)) (sym size) ∙ take-length b rest

pub record IsPrefixed (w : ℕ) (b : List ℕ) : Type 0 where
  pub joined : List ℕ
  pub made : with_length w b ≡ some joined
  pub long : length joined ≡ w + length b
  pub read : (rest : List ℕ) → read_with_length w (joined ++ rest) ≡ some b

pub with_length-IsPrefixed : (w : ℕ) (b : List ℕ) → length b < 256 ^ w → IsPrefixed w b
with_length-IsPrefixed w b small =
    let (l, packed, unpacked, size) = pack_one-lt (unsigned w) (length b) small in
    record {
      joined = l ++ b;
      made = rw packed refl;
      long = length-append l b ∙ omega (arith, size);
      read = λ rest.
          let whole = (l ++ b) ++ rest in
          let (first, after) = piece_at whole l (b ++ rest) 0 size (append_assoc l b rest) in
          let (second, _) =
            piece_at whole b rest w refl (ap (λ (k : ℕ). drop k whole) (omega arith) ∙ after) in
          ap (λ (i : List ℕ). unpack_one (unsigned w) i >>= λ n. some (slice whole w n)) first
          ∙ ap (λ (o : Option ℕ). o >>= λ n. some (slice whole w n)) unpacked
          ∙ ap some second;
    }

-- A value of the type that fits its bytes: no number is negative, and a text of a CHAR has nothing
-- that rstrip removes.
pub data IsStorable {F T : Type 0} (py : Python F T) : DataType → Value F T → Type 0 where
  nulls : IsStorable py null_type null
  booleans : (b : Bool) → IsStorable py boolean_type (boolean b)
  integers : (n : ℕ) → n < 2 ^ 63 → IsStorable py integer_type (integer (pos n))
  floats : (f : F) → IsStorable py float_type (float f)
  texts : (t : T) → length (py.encode t) < 2 ^ 32 → IsStorable py text_type (text t)
  varchars :
      (m : ℕ) (t : T)
      → length (py.encode t) ≤ m
      → length (py.encode t) < 2 ^ 16
      → IsStorable py (varchar_type m) (text t)
  chars :
      (m : ℕ) (t : T)
      → length (py.encode t) ≤ m
      → py.rstrip t ≡ t
      → IsStorable py (char_type m) (text t)
  blobs : (b : List ℕ) → length b < 2 ^ 32 → IsStorable py blob_type (bytes b)
  timestamps : (n : ℕ) → n < 2 ^ 63 → IsStorable py timestamp_type (integer (pos n))

pub record IsPacked (n : ℕ) : Type 0 where
  pub packed : List ℕ
  pub encoded : encode_int (pos n) ≡ some packed
  pub eight : length packed ≡ 8
  pub read : (rest : List ℕ) → unpack_one (unsigned 8) (take 8 (packed ++ rest)) ≡ some (n + 2 ^ 63)

pub encode_int-IsPacked : (n : ℕ) → n < 2 ^ 63 → IsPacked n
encode_int-IsPacked n h =
    let low = flip_sign_low n h in
    let (b, e, u, size) = pack_one-lt (unsigned 8) (n + 2 ^ 63) (omega arith) in
    record {
      packed = b;
      encoded = ap (pack_one (unsigned 8)) low ∙ e;
      eight = size;
      read = λ rest. ap (unpack_one (unsigned 8)) (take_prefix b rest size) ∙ u;
    }

pub bit-cases : (b : Bool) → ((if b then 1 else 0) < 256) × (not ((if b then 1 else 0) == 0) ≡ b)
bit-cases true = (omega arith, refl)
bit-cases false = (omega arith, refl)
