-- ===== src/Checks/Heap.antt =====
-- pysql/storage/heap.py at a table of three columns, and a row with a NULL.
use solidity_course_blockcha.Prelude.{
  ℕ, ◌≡◌, refl, inl, inr, none, some, List, [], ◌∷◌, ◌++◌, arith, be, pack_one, unpack_one, pack,
  unpack,
}
use solidity_course_blockcha.Types.Value.{
  pos, null, integer, text, integer_type, text_type, varchar_type,
}
use solidity_course_blockcha.Types.Storage as Storage
use solidity_course_blockcha.Types.Encodings.{integers, varchars}
use solidity_course_blockcha.Heap.Serializer.{
  TableSchema, bit, set_bit, mark, is_marked, null_bitmap, serialize_columns, serialize_record,
  deserialize_columns, deserialize_record,
}
use solidity_course_blockcha.Heap.RoundTrip.{deserialize_record-serialize_record}
use solidity_course_blockcha.Checks.Types.{V, ascii, ascii-IsPython}

program : Unit {0}
unfolding be pack_one unpack_one pack unpack Storage.storage_size Storage.serialize
    Storage.deserialize bit set_bit mark is_marked null_bitmap serialize_columns serialize_record
    deserialize_columns deserialize_record
program = tt

abbrev users : TableSchema ℕ
users = record {
  table_name = 0;
  column_names = 1 ∷ 2 ∷ 3 ∷ [];
  column_types = integer_type ∷ text_type ∷ varchar_type 4 ∷ [];
  primary_key = some 1;
}

abbrev row : List V
row = integer (pos 7) ∷ null ∷ text (65 ∷ 66 ∷ []) ∷ []

row_bytes :
    serialize_record ascii users row
    ≡ some (2 ∷ 128 ∷ 0 ∷ 0 ∷ 0 ∷ 0 ∷ 0 ∷ 0 ∷ 7 ∷ 0 ∷ 2 ∷ 65 ∷ 66 ∷ [])
unfolding program
row_bytes = refl

-- A schema with more names than types: the row is refused at the missing type.
abbrev short_schema : TableSchema ℕ
short_schema = record users { column_types = integer_type ∷ [] }

no_type : serialize_record ascii short_schema row ≡ none
unfolding program
no_type = refl

-- A row of another length is refused.
short_row : serialize_record ascii users (null ∷ []) ≡ none
unfolding program
short_row = refl

deserialize_record-serialize_record_example :
    (b : List ℕ) × (serialize_record ascii users row ≡ some b)
    × ((rest : List ℕ) → deserialize_record ascii users (b ++ rest) ≡ some row)
deserialize_record-serialize_record_example =
    deserialize_record-serialize_record ascii-IsPython users row refl (
      inr (integer_type, refl, refl, integers 7 (omega arith)),
      (
        inl refl,
        (
          inr (varchar_type 4, refl, refl, varchars 4 (65 ∷ 66 ∷ []) (omega arith) (omega arith)),
          tt,
        ),
      ),
    )
