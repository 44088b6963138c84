-- ===== src/Types.antt =====
-- pysql/types.py: the SQL data types. `Value` has the values and the types, `Classes` the methods of
-- each type, `Storage` the same by type, `Coercion` the implicit conversions. `Encodings` and
-- `RoundTrip` are about values that are stored and read back, `Coercions` about common types.
pub mod Value
pub mod Classes
pub mod Storage
pub mod Encodings
pub mod RoundTrip
pub mod Coercion
pub mod Coercions
