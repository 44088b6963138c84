-- ===== src/Wal/Manager.antt =====
-- pysql/storage/wal.py: WALManager, over the bytes of its file.
use solidity_course_blockcha.Prelude.{
  ℕ, zero, suc, ◌+◌, Bool, true, false, Option, none, some, List, [], ◌∷◌, ◌++◌, ◌>>=◌, ltb,
  if◌then◌else◌, length, get_last?, contains, ℕ_discrete,
}
use solidity_course_blockcha.Prelude.Dict.{get, put, pop}
use solidity_course_blockcha.Wal.Record.{
  LogRecordType, begin, commit, abort, insert, delete, update, checkpoint, clr, end,
  log_header_size, LogRecord, new_record, serialize, deserialized, struct_error, value_error,
  deserialize_by,
}

pub record WalManager : Type 0 where
  pub file : List ℕ
  pub next_lsn : ℕ
  pub flushed_lsn : ℕ
  pub buffer : List LogRecord
  pub txn_table : List (ℕ × ℕ)

-- `get(txn_id, 0)`
abbrev pub get_lsn : Option ℕ → ℕ
get_lsn none = 0
get_lsn (some lsn) = lsn

-- The manager after the call, and the LSN.
unfoldable pub append : LogRecord → WalManager → WalManager × ℕ
append r w =
    let lsn = w.next_lsn in
    let prev_lsn = get_lsn (get ℕ_discrete w.txn_table r.txn_id) in
    (
      record w {
        txn_table = put ℕ_discrete w.txn_table r.txn_id lsn;
        buffer = w.buffer ++ record r { lsn = lsn; prev_lsn = prev_lsn } ∷ [];
        next_lsn = lsn + 1;
      },
      lsn,
    )

-- The file after the writes; `false` when a record cannot be serialized, which leaves the records
-- before it in the file.
unfoldable pub write_records : List LogRecord → List ℕ → List ℕ × Bool
write_records [] file = (file, true)
write_records (r ∷ rs) file = elim (serialize r) [
  | none ↦ (file, false)
  | some bytes ↦ write_records rs (file ++ bytes)
]

abbrev pub newest_lsn : ℕ → Option LogRecord → ℕ
newest_lsn flushed none = flushed
newest_lsn flushed (some r) = r.lsn

abbrev pub flushed_by : WalManager → WalManager
flushed_by w = record w { flushed_lsn = newest_lsn w.flushed_lsn (get_last? w.buffer); buffer = [] }

-- The manager after the call; `false` where it raises struct.error.
unfoldable pub flush : WalManager → WalManager × Bool
flush w = elim w.buffer [
  | [] ↦ (w, true)
  | r ∷ rs ↦
      let (file, done) = write_records (r ∷ rs) w.file in
      let written = record w { file = file } in
      if done then (flushed_by written, true) else (written, false)
]

-- An append and a flush: the LSN, or `none` where the flush raises struct.error.
abbrev pub append_flush : LogRecord → WalManager → WalManager × Option ℕ
append_flush r w =
    let (appended, lsn) = append r w in
    let (flushed, done) = flush appended in (flushed, if done then some lsn else none)

unfoldable pub log_begin : ℕ → WalManager → WalManager × ℕ
log_begin txn_id = append (record new_record { txn_id = txn_id; record_type = begin })

unfoldable pub log_commit : ℕ → WalManager → WalManager × Option ℕ
log_commit txn_id = append_flush (record new_record { txn_id = txn_id; record_type = commit })

unfoldable pub log_abort : ℕ → WalManager → WalManager × ℕ
log_abort txn_id = append (record new_record { txn_id = txn_id; record_type = abort })

unfoldable pub log_insert : ℕ → ℕ → ℕ → ℕ → List ℕ → WalManager → WalManager × ℕ
log_insert txn_id table_id page_id slot_id redo_data = append (record new_record {
  txn_id = txn_id;
  record_type = insert;
  table_id = table_id;
  page_id = page_id;
  slot_id = slot_id;
  redo_data = redo_data;
})

unfoldable pub log_delete : ℕ → ℕ → ℕ → ℕ → List ℕ → WalManager → WalManager × ℕ
log_delete txn_id table_id page_id slot_id undo_data = append (record new_record {
  txn_id = txn_id;
  record_type = delete;
  table_id = table_id;
  page_id = page_id;
  slot_id = slot_id;
  undo_data = undo_data;
})

unfoldable pub log_update : ℕ → ℕ → ℕ → ℕ → List ℕ → List ℕ → WalManager → WalManager × ℕ
log_update txn_id table_id page_id slot_id undo_data redo_data = append (record new_record {
  txn_id = txn_id;
  record_type = update;
  table_id = table_id;
  page_id = page_id;
  slot_id = slot_id;
  undo_data = undo_data;
  redo_data = redo_data;
})

unfoldable pub log_checkpoint : WalManager → WalManager × Option ℕ
log_checkpoint = append_flush (record new_record { record_type = checkpoint })

-- The records from an offset on; `none` is ValueError.
unfoldable pub read_from : ℕ → ℕ → List ℕ → ℕ → Option (List LogRecord)
read_from header_size zero bytes offset = some []
read_from header_size (suc rounds) bytes offset =
    if ltb offset (length bytes)
    then elim (deserialize_by header_size bytes offset) [
      | deserialized r consumed ↦
          read_from header_size rounds bytes (offset + consumed) >>= λ rs. some (r ∷ rs)
      | struct_error ↦ some []
      | value_error ↦ none
    ]
    else some []

-- Every record consumes a byte at least, so there are no more rounds than bytes.
unfoldable pub read_all : WalManager → Option (List LogRecord)
read_all w = read_from log_header_size (length w.file) w.file 0

-- A set of transaction ids, in the order of insertion.
abbrev pub add : ℕ → List ℕ → List ℕ
add t set = if contains t set then set else set ++ t ∷ []

pub record Analysis : Type 0 where
  pub active_txns : List (ℕ × List LogRecord)
  pub committed : List ℕ
  pub aborted : List ℕ

abbrev pub append_change : LogRecord → Analysis → Analysis
append_change r a = elim (get ℕ_discrete a.active_txns r.txn_id) [
  | none ↦ a
  | some rs ↦ record a { active_txns = put ℕ_discrete a.active_txns r.txn_id (rs ++ r ∷ []) }
]

abbrev pub analyse_record : LogRecordType → LogRecord → Analysis → Analysis
analyse_record begin r a = record a { active_txns = put ℕ_discrete a.active_txns r.txn_id [] }
analyse_record commit r a = record a {
  committed = add r.txn_id a.committed;
  active_txns = pop ℕ_discrete a.active_txns r.txn_id;
}
analyse_record abort r a = record a {
  aborted = add r.txn_id a.aborted;
  active_txns = pop ℕ_discrete a.active_txns r.txn_id;
}
analyse_record insert r a = append_change r a
analyse_record delete r a = append_change r a
analyse_record update r a = append_change r a
analyse_record checkpoint r a = a
analyse_record clr r a = a
analyse_record end r a = a

unfoldable pub analyse_step : Analysis → LogRecord → Analysis
analyse_step a r = analyse_record r.record_type r a

unfoldable pub analyse : Analysis → List LogRecord → Analysis
analyse a [] = a
analyse a (r ∷ rs) = analyse (analyse_step a r) rs

-- The transactions left active are aborted.
unfoldable pub abort_active : List (ℕ × List LogRecord) → List ℕ → List ℕ
abort_active [] aborted = aborted
abort_active ((t, rs) ∷ active) aborted = abort_active active (add t aborted)

unfoldable pub outcome : List LogRecord → List ℕ × List ℕ
outcome rs =
    let a = analyse (record { active_txns = []; committed = []; aborted = [] }) rs in
    (a.committed, abort_active a.active_txns a.aborted)

unfoldable pub after_last : List LogRecord → WalManager → WalManager
after_last rs w = elim (get_last? rs) [
  | none ↦ w
  | some r ↦ record w { next_lsn = r.lsn + 1; flushed_lsn = r.lsn }
]

-- The committed and the aborted transactions; `none` is ValueError, here and below.
unfoldable pub recover : WalManager → Option (WalManager × List ℕ × List ℕ)
recover w = read_all w >>= λ rs.
    let (committed, aborted) = outcome rs in some (after_last rs w, committed, aborted)

unfoldable pub recover_lsn : WalManager → Option WalManager
recover_lsn w = read_all w >>= λ rs. some (after_last rs w)

unfoldable pub truncate : WalManager → WalManager
truncate w = record w { file = []; flushed_lsn = 0 }

abbrev pub fresh : List ℕ → WalManager
fresh file = record { file = file; next_lsn = 1; flushed_lsn = 0; buffer = []; txn_table = [] }

-- `none` for a path where there is no file.
unfoldable pub open_wal : Option (List ℕ) → Option WalManager
open_wal none = some (fresh [])
open_wal (some file) = recover_lsn (fresh file)
