-- ===== src/Types/RoundTrip.antt =====
-- Values that are stored and read back; and the negative integers, which are valid and cannot be stored.
use solidity_course_blockcha.Prelude.{
  ℕ, ◌+◌, ◌-◌, ◌^◌, ◌<◌, ◌≤◌, ◌≡◌, refl, ap, sym, ◌∙◌, min, Bool, true, not, Option, none, some,
  List, [], ◌++◌, ◌==◌, lt→ltb, if◌then◌else◌, ◌>>=◌, arith, length, length-append, length-be,
  length-replicate, take, take_all, replicate, unsigned, pack_one, unpack_one, pack_one-lt, be,
  of_be, of_be-be,
}
use solidity_course_blockcha.Types.Value.{
  ℤ, pos, negsuc, Value, boolean, integer, float, text, bytes, Python, IsPython, DataType,
  boolean_type, integer_type, float_type, text_type, blob_type, timestamp_type, varchar_type,
  char_type,
}
use solidity_course_blockcha.Types.Classes.{
  pad, flip_sign, encode_int, encode_float, decode_float, with_length, read_with_length,
}
use solidity_course_blockcha.Types.Storage.{validate, storage_size, serialize, deserialize}
use solidity_course_blockcha.Types.Encodings.{
  flip_sign_back, decode_float-encode_float, encode_float-lt, take_prefix, IsPrefixed,
  with_length-IsPrefixed, IsStorable, nulls, booleans, integers, floats, texts, varchars, chars,
  blobs, timestamps, encode_int-IsPacked, bit-cases,
}

-- The bytes of a value, which are its storage size, and are read back whatever follows.
record IsReadBack {F T : Type 0} (py : Python F T) (c : DataType) (v : Value F T) : Type 0 where
  stored : List ℕ
  serialized : serialize py c v ≡ some stored
  sized : storage_size py c v ≡ some (length stored)
  read_back : (rest : List ℕ) → deserialize py c (stored ++ rest) ≡ some v

module _ {F T : Type 0} {py : Python F T} (laws : IsPython py) where
  roundtrip_text :
      (w : ℕ) (t : T) (c : DataType)
      → IsPrefixed w (py.encode t)
      → serialize py c (text t) ≡ with_length w (py.encode t)
      → storage_size py c (text t) ≡ some (w + length (py.encode t))
      → ((input : List ℕ)
          → deserialize py c input
            ≡ (read_with_length w input >>= λ b. py.decode b >>= λ s. some (text s)))
      → IsReadBack py c (text t)
  roundtrip_text w t c l writes size reads = record {
    stored = l.joined;
    serialized = writes ∙ l.made;
    sized = size ∙ ap some (sym l.long);
    read_back = λ rest.
        reads (l.joined ++ rest)
        ∙ ap (λ (o : Option (List ℕ)). o >>= λ b. py.decode b >>= λ s. some (text s)) (l.read rest)
        ∙ ap (λ (o : Option T). o >>= λ s. some (text s)) (laws.decodes t);
  }

  roundtrip_int :
      (n : ℕ) (c : DataType)
      → n < 2 ^ 63
      → serialize py c (integer (pos n)) ≡ (py.to_int (integer (pos n)) >>= encode_int)
      → storage_size py c (integer (pos n)) ≡ some 8
      → ((input : List ℕ)
          → deserialize py c input
            ≡ (unpack_one (unsigned 8) (take 8 input) >>= λ k. some (integer (pos (flip_sign k)))))
      → IsReadBack py c (integer (pos n))
  roundtrip_int n c h writes size reads =
      let i = encode_int-IsPacked n h in
      record {
        stored = i.packed;
        serialized =
            writes ∙ ap (λ (o : Option ℤ). o >>= encode_int) (laws.int_is (pos n)) ∙ i.encoded;
        sized = size ∙ ap some (sym i.eight);
        read_back = λ rest.
            reads (i.packed ++ rest)
            ∙ ap (λ (o : Option ℕ). o >>= λ k. some (integer (pos (flip_sign k)))) (i.read rest)
            ∙ ap (λ (k : ℕ). some (integer (pos k))) (flip_sign_back n h);
      }

  roundtrip_bool : (b : Bool) → IsReadBack py boolean_type (boolean b)
  unfolding serialize deserialize storage_size
  roundtrip_bool b =
      let (fits, same) = bit-cases b in
      let (packed, e, u, size) = pack_one-lt (unsigned 1) (if b then 1 else 0) fits in
      record {
        stored = packed;
        serialized =
            ap (λ (c : Bool). pack_one (unsigned 1) (if c then 1 else 0)) (laws.bool_is b) ∙ e;
        sized = ap some (sym size);
        read_back = λ rest.
            ap (λ (i : List ℕ). unpack_one (unsigned 1) i >>= λ n. some (boolean (not (n == 0))))
              (take_prefix packed rest size)
            ∙ ap (λ (o : Option ℕ). o >>= λ n. some (boolean (not (n == 0)))) u
            ∙ ap (λ (c : Bool). some (boolean c)) same;
      }

  roundtrip_float : (f : F) → IsReadBack py float_type (float f)
  unfolding serialize deserialize storage_size
  roundtrip_float f =
      let bits = py.float_bits f in
      let fits = laws.bits_fit f in
      let code = encode_float bits in
      let size = length-be 8 code in
      record {
        stored = be 8 code;
        serialized =
            ap (λ (o : Option F). o >>= λ x. some (be 8 (encode_float (py.float_bits x))))
              (laws.float_is f);
        sized = ap some (sym size);
        read_back = λ rest.
            ap (λ (i : List ℕ). some (float (py.float_of_bits (decode_float (of_be 0 i)))))
              (take_prefix (be 8 code) rest size)
            ∙ ap (λ (k : ℕ). some (float (py.float_of_bits (decode_float k))))
                (of_be-be 8 code (omega (arith, encode_float-lt bits fits)))
            ∙ ap (λ (k : ℕ). some (float (py.float_of_bits k)))
                (decode_float-encode_float bits fits)
            ∙ ap (λ (x : F). some (float x)) (laws.of_bits f);
      }

  roundtrip_char :
      (m : ℕ) (t : T)
      → length (py.encode t) ≤ m
      → py.rstrip t ≡ t
      → IsReadBack py (char_type m) (text t)
  unfolding serialize deserialize storage_size
  roundtrip_char m t h k =
      let b = py.encode t in
      let padding = replicate (m - length b) 32 in
      let whole : take m (py.encode (py.to_str (text t))) ≡ b =
        ap (λ (s : T). take m (py.encode s)) (laws.str_is t) ∙ take_all b m h in
      let size : length (b ++ padding) ≡ m =
        omega (arith, length-append b padding, length-replicate {A = ℕ} (m - length b) 32) in
      let (s, decoded, stripped) = laws.decodes_padded t (m - length b) in
      record {
        stored = b ++ padding;
        serialized = ap (λ (c : List ℕ). some (pad m c)) whole;
        sized = ap some (sym size);
        read_back = λ rest.
            ap (λ (i : List ℕ). py.decode i >>= λ x. some (text (py.rstrip x)))
              (take_prefix (b ++ padding) rest size)
            ∙ ap (λ (o : Option T). o >>= λ x. some (text (py.rstrip x))) decoded
            ∙ ap (λ (x : T). some (text x)) (stripped ∙ k);
      }

  roundtrip_blob : (b : List ℕ) → length b < 2 ^ 32 → IsReadBack py blob_type (bytes b)
  unfolding serialize deserialize storage_size
  roundtrip_blob b h =
      let l = with_length-IsPrefixed 4 b h in
      record {
        stored = l.joined;
        serialized = ap (λ (o : Option (List ℕ)). o >>= with_length 4) (laws.bytes_is b) ∙ l.made;
        sized =
            ap (λ (o : Option (List ℕ)). o >>= λ c. some (4 + length c)) (laws.bytes_is b)
            ∙ ap some (sym l.long);
        read_back = λ rest. ap (λ (o : Option (List ℕ)). o >>= λ c. some (bytes c)) (l.read rest);
      }

  roundtrip_value : (c : DataType) (v : Value F T) → IsStorable py c v → IsReadBack py c v
  unfolding serialize deserialize storage_size
  roundtrip_value c v nulls = record {
    stored = [];
    serialized = refl;
    sized = refl;
    read_back = λ rest. refl;
  }
  roundtrip_value c v (booleans b) = roundtrip_bool b
  roundtrip_value c v (integers n h) = roundtrip_int n integer_type h refl refl (λ input. refl)
  roundtrip_value c v (floats f) = roundtrip_float f
  roundtrip_value c v (texts t h) =
      let same = laws.str_is t in
      roundtrip_text 4 t text_type (with_length-IsPrefixed 4 (py.encode t) h)
        (ap (λ (s : T). with_length 4 (py.encode s)) same)
        (ap (λ (s : T). some (4 + length (py.encode s))) same) (λ input. refl)
  roundtrip_value c v (varchars m t h k) =
      let same = laws.str_is t in
      let whole = take_all (py.encode t) m h in
      roundtrip_text 2 t (varchar_type m) (with_length-IsPrefixed 2 (py.encode t) k)
        (ap (λ (s : T). with_length 2 (take m (py.encode s))) same ∙ ap (with_length 2) whole)
        (ap (λ (s : T). some (2 + min (length (py.encode s)) m)) same ∙ ap some (omega arith))
        (λ input. refl)
  roundtrip_value c v (chars m t h k) = roundtrip_char m t h k
  roundtrip_value c v (blobs b h) = roundtrip_blob b h
  roundtrip_value c v (timestamps n h) = roundtrip_int n timestamp_type h refl refl (λ input. refl)

  -- A value that IsStorable has for its type is stored in bytes of its storage size, from which,
  -- whatever bytes follow, the same value is read back: NULL, a BOOLEAN, a FLOAT, an INTEGER or a
  -- TIMESTAMP that is not negative and less than 2^63, a TEXT or a BLOB of less than 2^32 bytes, a
  -- VARCHAR of at most its length and less than 2^16 bytes, and a CHAR of at most its length that
  -- rstrip leaves as it is.
  pub deserialize-serialize :
      (c : DataType) (v : Value F T)
      → IsStorable py c v
      → (b : List ℕ) × (serialize py c v ≡ some b)
        × (storage_size py c v ≡ some (length b))
        × ((rest : List ℕ) → deserialize py c (b ++ rest) ≡ some v)
  deserialize-serialize c v h =
      let s = roundtrip_value c v h in (s.stored, s.serialized, s.sized, s.read_back)

  -- Every negative integer of 64 bits is a valid INTEGER, and serialize raises struct.error for it.
  pub negative_refused :
      (n : ℕ)
      → n < 2 ^ 63
      → (validate py integer_type (integer (negsuc n)) ≡ true)
        × (serialize py integer_type (integer (negsuc n)) ≡ none)
  unfolding validate serialize
  negative_refused n h =
      (lt→ltb n (2 ^ 63) h, ap (λ (o : Option ℤ). o >>= encode_int) (laws.int_is (negsuc n)))
