-- ===== src/Types/Storage.antt =====
-- pysql/types.py: the methods of the data types, by the type.
use solidity_course_blockcha.Prelude.{ℕ, Bool, Option, List}
use solidity_course_blockcha.Types.Value.{
  Value, Python, DataType, type_id, null_type, boolean_type, integer_type, float_type, text_type,
  blob_type, timestamp_type, varchar_type, char_type,
}
use solidity_course_blockcha.Types.Classes.{
  TypeClass, null_class, boolean_class, integer_class, float_class, text_class, varchar_class,
  char_class, blob_class, timestamp_class,
}

module _ {F T : Type 0} (py : Python F T) where
  abbrev pub class_of : DataType → TypeClass F T
  class_of null_type = null_class py
  class_of boolean_type = boolean_class py
  class_of integer_type = integer_class py
  class_of float_type = float_class py
  class_of text_type = text_class py
  class_of (varchar_type n) = varchar_class py n
  class_of (char_type n) = char_class py n
  class_of blob_type = blob_class py
  class_of timestamp_type = timestamp_class py

  unfoldable pub storage_size : DataType → Value F T → Option ℕ
  storage_size c = (class_of c).storage_size

  unfoldable pub serialize : DataType → Value F T → Option (List ℕ)
  serialize c = (class_of c).serialize

  unfoldable pub deserialize : DataType → List ℕ → Option (Value F T)
  deserialize c = (class_of c).deserialize

  unfoldable pub validate : DataType → Value F T → Bool
  validate c = (class_of c).validate

  abbrev pub default_value : DataType → Value F T
  default_value c = (class_of c).default_value

  abbrev pub is_compatible : DataType → DataType → Bool
  is_compatible c other = (class_of c).is_compatible (type_id other)
