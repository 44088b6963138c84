-- ===== src/Heap/RoundTrip.antt =====
-- A record that is written is read back.
use solidity_course_blockcha.Prelude.{
  get_elem?, ℕ, suc, ◌+◌, ◌≡◌, refl, ap, sym, ◌∙◌, inl, inr, ◌⊎◌, true, false, some, List, [], ◌∷◌,
  ◌++◌, ◌==◌, arith, append_assoc, length, drop, piece_at, length-replicate, replicate,
}
use solidity_course_blockcha.Types.Value.{Value, null, Python, IsPython, DataType}
use solidity_course_blockcha.Types.Storage as Storage
use solidity_course_blockcha.Types.Encodings.{IsStorable}
use solidity_course_blockcha.Types.RoundTrip.{deserialize-serialize}
use solidity_course_blockcha.Types.Classes.{is_null}
use solidity_course_blockcha.Heap.Serializer.{
  TableSchema, num_columns, null_bitmap_size, null_bitmap, serialize_columns, serialize_record,
  deserialize_columns, deserialize_record,
}
use solidity_course_blockcha.Heap.Bitmaps.{IsMarked, length-null_bitmap, fresh_bitmap-IsMarked}

same_test : (a b : ℕ) → a ≡ b → (a == b) ≡ true
same_test a b h = ground arith

module _ {F T : Type 0} (py : Python F T) where
  -- A row from column `i` on: a value that is not null has a type of its column that it fits.
  abbrev pub IsRow : List DataType → ℕ → List (Value F T) → Type 0
  IsRow types i [] = Unit {0}
  IsRow types i (v ∷ vs) =
      ((v ≡ null)
        ⊎ ((c : DataType) × (get_elem? types i ≡ some c) × (is_null v ≡ false) × IsStorable py c v))
      × IsRow types (suc i) vs

module _ {F T : Type 0} {py : Python F T} (laws : IsPython py) (types : List DataType) where
  -- The columns' bytes, and that they are read back at any offset where they stand.
  record Columns (i : ℕ) (vs : List (Value F T)) : Type 0 where
    parts : List ℕ
    serialized : serialize_columns py types i vs ≡ some parts
    read_back :
        (bitmap input rest : List ℕ) (offset : ℕ)
        → IsMarked i vs bitmap
        → drop offset input ≡ parts ++ rest
        → deserialize_columns py types (length vs) i bitmap input offset ≡ some vs

  columns : (i : ℕ) (vs : List (Value F T)) → IsRow py types i vs → Columns i vs
  unfolding serialize_columns deserialize_columns
  columns i [] h = record {
    parts = [];
    serialized = refl;
    read_back = λ bitmap input rest offset marks at. refl;
  }
  columns i (v ∷ vs) (inl is, hs) =
      let r = columns (suc i) vs hs in
      record {
        parts = r.parts;
        serialized = rw (is, serialize_columns) r.serialized;
        read_back = λ bitmap input rest offset marks at.
            let null_here = marks.0 ∙ ap (λ (x : Value F T). some (is_null x)) is in
            let later = r.read_back bitmap input rest offset marks.1 at in
            rw null_here (rw later (ap (λ (x : Value F T). some (x ∷ vs)) (sym is)));
      }
  columns i (v ∷ vs) (inr (c, typed, given, fits), hs) =
      let r = columns (suc i) vs hs in
      let (b, written, sized, back) = deserialize-serialize laws c v fits in
      record {
        parts = b ++ r.parts;
        serialized =
            rw (given, serialize_columns)
              (rw (typed, serialize_columns)
                (rw (written, serialize_columns) (rw r.serialized refl)));
        read_back = λ bitmap input rest offset marks at.
            let value_here = marks.0 ∙ ap some given in
            let stands = at ∙ append_assoc b r.parts rest in
            let first = ap (Storage.deserialize py c) stands ∙ back (r.parts ++ rest) in
            let after = (piece_at input b (r.parts ++ rest) offset refl stands).1 in
            let later = r.read_back bitmap input rest (offset + length b) marks.1 after in
            rw value_here (rw typed (rw first (rw sized (rw later refl))));
      }

module _ {F T : Type 0} {py : Python F T} (laws : IsPython py) where
  -- A row with a value for each column name, of which every value is null or has a type of its column
  -- that it fits as IsStorable says, is serialized, and read back from the bytes, whatever bytes
  -- follow.
  pub deserialize_record-serialize_record :
      {N : Type 0} (schema : TableSchema N) (values : List (Value F T))
      → length values ≡ length schema.column_names
      → IsRow py schema.column_types 0 values
      → (b : List ℕ) × (serialize_record py schema values ≡ some b)
        × ((rest : List ℕ) → deserialize_record py schema (b ++ rest) ≡ some values)
  unfolding serialize_record deserialize_record
  deserialize_record-serialize_record schema values same h =
      let types = schema.column_types in
      let r = columns laws types 0 values h in
      let n = num_columns schema in
      let size = null_bitmap_size n in
      let bitmap = null_bitmap 0 values (replicate size 0) in
      let long : length bitmap ≡ size =
        length-null_bitmap 0 values (replicate size 0) ∙ length-replicate {A = ℕ} size 0 in
      (
        bitmap ++ r.parts,
        rw (same_test (length values) n same) (rw r.serialized refl),
        λ rest.
            let input = (bitmap ++ r.parts) ++ rest in
            let (first, after) =
              piece_at input bitmap (r.parts ++ rest) 0 long (append_assoc bitmap r.parts rest) in
            ap (λ (m : List ℕ). deserialize_columns py types n 0 m input size) first
            ∙ ap (λ (k : ℕ). deserialize_columns py types k 0 bitmap input size) (sym same)
            ∙ r.read_back bitmap input rest size (fresh_bitmap-IsMarked size values (omega arith))
                (ap (λ (k : ℕ). drop k input) (omega arith) ∙ after),
      )
