-- ===== src/Heap/Serializer.antt =====
-- pysql/storage/heap.py: RecordSerializer, on a table's schema.
use solidity_course_blockcha.Prelude.{
  ℕ, zero, suc, ◌+◌, ◌*◌, ◌/◌, ◌%◌, Bool, Option, none, some, List, [], ◌∷◌, ◌++◌, ◌==◌,
  if◌then◌else◌, ◌>>=◌, length, get_elem?, set, take, drop, replicate,
}
use solidity_course_blockcha.Types.Value.{Value, null, Python, DataType}
use solidity_course_blockcha.Types.Classes.{is_null}
use solidity_course_blockcha.Types.Storage as Storage

pub record TableSchema (N : Type 0) : Type 0 where
  pub table_name : N
  pub column_names : List N
  pub column_types : List DataType
  pub primary_key : Option N

abbrev pub num_columns : {N : Type 0} → TableSchema N → ℕ
num_columns schema = length schema.column_names

-- math.ceil(num_columns / 8)
abbrev pub null_bitmap_size : ℕ → ℕ
null_bitmap_size columns = (columns + 7) / 8

-- byte & (1 << k), as a truth value
unfoldable pub bit : ℕ → ℕ → Bool
bit zero byte = byte % 2 == 1
bit (suc k) byte = bit k (byte / 2)

-- byte | (1 << k)
unfoldable pub set_bit : ℕ → ℕ → ℕ
set_bit zero byte = byte / 2 * 2 + 1
set_bit (suc k) byte = set_bit k (byte / 2) * 2 + byte % 2

-- A bit beyond the bitmap is not set.
unfoldable pub mark : ℕ → List ℕ → List ℕ
mark i bitmap = elim (get_elem? bitmap (i / 8)) [
  | none ↦ bitmap
  | some byte ↦ set bitmap (i / 8) (set_bit (i % 8) byte)
]

-- `none` is IndexError.
unfoldable pub is_marked : List ℕ → ℕ → Option Bool
is_marked bitmap i = get_elem? bitmap (i / 8) >>= λ byte. some (bit (i % 8) byte)

-- The bitmap for the values from column `i` on.
unfoldable pub null_bitmap : {F T : Type 0} → ℕ → List (Value F T) → List ℕ → List ℕ
null_bitmap i [] bitmap = bitmap
null_bitmap i (v ∷ vs) bitmap = null_bitmap (suc i) vs (if is_null v then mark i bitmap else bitmap)

module _ {F T : Type 0} (py : Python F T) where
  -- The bytes of the values from column `i` on; `none` is an exception, here and below, that of a
  -- missing column type too.
  unfoldable pub serialize_columns : List DataType → ℕ → List (Value F T) → Option (List ℕ)
  serialize_columns types i [] = some []
  serialize_columns types i (v ∷ vs) =
      let later = serialize_columns types (suc i) vs in
      if is_null v
      then later
      else (get_elem? types i >>= λ c.
          Storage.serialize py c v >>= λ b. later >>= λ rest. some (b ++ rest))

  unfoldable pub serialize_record :
      {N : Type 0} → TableSchema N → List (Value F T) → Option (List ℕ)
  serialize_record schema values =
      if length values == num_columns schema
      then (serialize_columns schema.column_types 0 values >>= λ parts.
          some
            (null_bitmap 0 values (replicate (null_bitmap_size (num_columns schema)) 0) ++ parts))
      else none

  -- `count` columns from column `i` on, of which the first starts at the offset.
  unfoldable pub deserialize_columns :
      List DataType → ℕ → ℕ → List ℕ → List ℕ → ℕ → Option (List (Value F T))
  deserialize_columns types zero i bitmap input offset = some []
  deserialize_columns types (suc count) i bitmap input offset = is_marked bitmap i >>= λ marked.
      if marked
      then (deserialize_columns types count (suc i) bitmap input offset >>= λ vs. some (null ∷ vs))
      else (get_elem? types i >>= λ c. Storage.deserialize py c (drop offset input) >>= λ v.
          Storage.storage_size py c v >>= λ n.
          deserialize_columns types count (suc i) bitmap input (offset + n) >>= λ vs. some (v ∷ vs))

  unfoldable pub deserialize_record :
      {N : Type 0} → TableSchema N → List ℕ → Option (List (Value F T))
  deserialize_record schema input =
      let columns = num_columns schema in
      let size = null_bitmap_size columns in
      deserialize_columns schema.column_types columns 0 (take size input) input size
