-- ===== src/Wal/Record.antt =====
-- pysql/storage/wal.py: log records and their bytes.
use solidity_course_blockcha.Prelude.{
  ℕ, zero, suc, ◌+◌, ◌-◌, Option, none, some, List, [], ◌∷◌, ◌++◌, ◌>>=◌, length, slice, Format,
  unsigned, signed, pack, unpack,
}

pub data LogRecordType : Type 0 where
  begin commit abort insert delete update checkpoint clr end : LogRecordType

abbrev pub record_type_code : LogRecordType → ℕ
record_type_code begin = 1
record_type_code commit = 2
record_type_code abort = 3
record_type_code insert = 4
record_type_code delete = 5
record_type_code update = 6
record_type_code checkpoint = 7
record_type_code clr = 8
record_type_code end = 9

-- `LogRecordType(code)`; `none` is its ValueError.
abbrev pub record_type_of : ℕ → Option LogRecordType
record_type_of zero = none
record_type_of (suc zero) = some begin
record_type_of (suc (suc zero)) = some commit
record_type_of (suc (suc (suc zero))) = some abort
record_type_of (suc (suc (suc (suc zero)))) = some insert
record_type_of (suc (suc (suc (suc (suc zero))))) = some delete
record_type_of (suc (suc (suc (suc (suc (suc zero)))))) = some update
record_type_of (suc (suc (suc (suc (suc (suc (suc zero))))))) = some checkpoint
record_type_of (suc (suc (suc (suc (suc (suc (suc (suc zero)))))))) = some clr
record_type_of (suc (suc (suc (suc (suc (suc (suc (suc (suc zero))))))))) = some end
record_type_of (suc (suc (suc (suc (suc (suc (suc (suc (suc (suc n)))))))))) = none

abbrev pub log_header_size : ℕ
log_header_size = 35

pub record LogRecord : Type 0 where
  pub lsn : ℕ
  pub txn_id : ℕ
  pub record_type : LogRecordType
  pub prev_lsn : ℕ
  pub table_id : ℕ
  pub page_id : ℕ
  pub slot_id : ℕ
  pub undo_data : List ℕ
  pub redo_data : List ℕ

-- The defaults of the dataclass.
abbrev pub new_record : LogRecord
new_record = record {
  lsn = 0;
  txn_id = 0;
  record_type = begin;
  prev_lsn = 0;
  table_id = 0;
  page_id = 0;
  slot_id = 0;
  undo_data = [];
  redo_data = [];
}

-- ">qIBqIIH"
abbrev pub log_header_format : List Format
log_header_format =
    signed 8 ∷ unsigned 4 ∷ unsigned 1 ∷ signed 8 ∷ unsigned 4 ∷ unsigned 4 ∷ unsigned 2 ∷ []

abbrev pub log_header_values : LogRecord → List ℕ
log_header_values r =
    r.lsn
    ∷ r.txn_id
    ∷ record_type_code r.record_type
    ∷ r.prev_lsn
    ∷ r.table_id
    ∷ r.page_id
    ∷ r.slot_id
    ∷ []

-- ">I"
abbrev pub length_format : List Format
length_format = unsigned 4 ∷ []

-- A length and the bytes it counts.
unfoldable pub serialize_part : List ℕ → Option (List ℕ)
serialize_part bytes = pack length_format (length bytes ∷ []) >>= λ l. some (l ++ bytes)

-- `none` is struct.error.
unfoldable pub serialize : LogRecord → Option (List ℕ)
serialize r = pack log_header_format (log_header_values r) >>= λ header.
    serialize_part r.undo_data >>= λ undo_part. serialize_part r.redo_data >>= λ redo_part.
    let bytes = header ++ (undo_part ++ redo_part) in
    pack length_format (length bytes ∷ []) >>= λ trailer. some (bytes ++ trailer)

abbrev first_of : List ℕ → Option ℕ
first_of (v ∷ []) = some v
first_of _ = none

unfoldable pub unpack_length : List ℕ → Option ℕ
unpack_length bytes = unpack length_format bytes >>= first_of

-- A result with the bytes consumed, or the exception.
pub data Deserialized : Type 0 where
  deserialized : LogRecord → ℕ → Deserialized
  struct_error : Deserialized
  value_error : Deserialized

abbrev pub made_record : List ℕ → List ℕ → List ℕ → ℕ → Deserialized
made_record (lsn ∷ txn ∷ code ∷ prev ∷ table ∷ page ∷ slot ∷ []) undo redo consumed =
    elim (record_type_of code) [
      | none ↦ value_error
      | some t ↦
          deserialized
            (record {
              lsn = lsn;
              txn_id = txn;
              record_type = t;
              prev_lsn = prev;
              table_id = table;
              page_id = page;
              slot_id = slot;
              undo_data = undo;
              redo_data = redo;
            })
            consumed
    ]
made_record _ undo redo consumed = struct_error

-- The method reads headers of `log_header_size` bytes; here the size is an argument.
unfoldable pub deserialize_by : ℕ → List ℕ → ℕ → Deserialized
deserialize_by header_size bytes offset =
    elim (unpack log_header_format (slice bytes offset header_size)) [
      | none ↦ struct_error
      | some values ↦
          let undo_pos = offset + header_size in
          elim (unpack_length (slice bytes undo_pos 4)) [
            | none ↦ struct_error
            | some undo_len ↦
                let undo_data = slice bytes (undo_pos + 4) undo_len in
                let redo_pos = undo_pos + 4 + undo_len in
                elim (unpack_length (slice bytes redo_pos 4)) [
                  | none ↦ struct_error
                  | some redo_len ↦
                      let redo_data = slice bytes (redo_pos + 4) redo_len in
                      made_record values undo_data redo_data (redo_pos + 4 + redo_len + 4 - offset)
                ]
          ]
    ]

unfoldable pub deserialize : List ℕ → ℕ → Deserialized
deserialize = deserialize_by log_header_size
