-- ===== src/Wal/Log.antt =====
-- The specification of the log: the requests in their order, numbered from 1 and chained by
-- transaction; and what it means that a manager has the log.
use solidity_course_blockcha.Prelude.{
  ℕ, ◌+◌, ◌^◌, ◌<◌, ◌≡◌, true, Option, none, some, List, [], ◌∷◌, ◌++◌, ◌==◌, ◌>>=◌, if◌then◌else◌,
  length, get_last?, ℕ_discrete,
}
use solidity_course_blockcha.Prelude.Dict.{get}
use solidity_course_blockcha.Wal.Record.{
  begin, commit, abort, insert, delete, update, checkpoint, LogRecord, new_record,
}
use solidity_course_blockcha.Wal.Manager.{
  WalManager, get_lsn, write_records, flush, log_begin, log_commit, log_abort, log_insert,
  log_delete, log_update, log_checkpoint,
}

-- The LSN of the transaction's last record; 0 where there is none.
abbrev pub last_lsn : ℕ → ℕ → List LogRecord → ℕ
last_lsn found t [] = found
last_lsn found t (r ∷ rs) = last_lsn (if r.txn_id == t then r.lsn else found) t rs

-- A request as the next record of the log.
abbrev pub stamp : List LogRecord → LogRecord → LogRecord
stamp log r = record r { lsn = length log + 1; prev_lsn = last_lsn 0 r.txn_id log }

-- The records that the requests add to the log.
abbrev pub stamps : List LogRecord → List LogRecord → List LogRecord
stamps log [] = []
stamps log (r ∷ rs) = let s = stamp log r in s ∷ stamps (log ++ s ∷ []) rs

-- Records whose fields fit the format.
pub record InRange (r : LogRecord) : Type 0 where
  pub lsn_fits : r.lsn < 2 ^ 63
  pub txn_fits : r.txn_id < 2 ^ 32
  pub prev_fits : r.prev_lsn < 2 ^ 63
  pub table_fits : r.table_id < 2 ^ 32
  pub page_fits : r.page_id < 2 ^ 32
  pub slot_fits : r.slot_id < 2 ^ 16
  pub size_fits : length r.undo_data + length r.redo_data + 39 < 2 ^ 32

abbrev pub AllInRange : List LogRecord → Type 0
AllInRange [] = Unit {0}
AllInRange (r ∷ rs) = InRange r × AllInRange rs

-- The calls of the methods that write to the log.
pub data Call : Type 0 where
  begins commits aborts : ℕ → Call
  inserts deletes : ℕ → ℕ → ℕ → ℕ → List ℕ → Call
  updates : ℕ → ℕ → ℕ → ℕ → List ℕ → List ℕ → Call
  checkpoints flushes : Call

abbrev pub returned : {A : Type 0} → WalManager × Option A → Option WalManager
returned (w, none) = none
returned (w, some a) = some w

-- `none` where the call raises struct.error.
abbrev pub perform : Call → WalManager → Option WalManager
perform (begins t) w = some (log_begin t w).0
perform (commits t) w = returned (log_commit t w)
perform (aborts t) w = some (log_abort t w).0
perform (inserts t table page slot redo) w = some (log_insert t table page slot redo w).0
perform (deletes t table page slot undo) w = some (log_delete t table page slot undo w).0
perform (updates t table page slot undo redo) w = some (log_update t table page slot undo redo w).0
perform checkpoints w = returned (log_checkpoint w)
perform flushes w = let (flushed, done) = flush w in if done then some flushed else none

abbrev pub perform_all : List Call → WalManager → Option WalManager
perform_all [] w = some w
perform_all (c ∷ cs) w = perform c w >>= λ v. perform_all cs v

-- The record that a call asks for.
abbrev pub request : Call → List LogRecord
request (begins t) = record new_record { txn_id = t; record_type = begin } ∷ []
request (commits t) = record new_record { txn_id = t; record_type = commit } ∷ []
request (aborts t) = record new_record { txn_id = t; record_type = abort } ∷ []
request (inserts t table page slot redo) =
    record new_record {
      txn_id = t;
      record_type = insert;
      table_id = table;
      page_id = page;
      slot_id = slot;
      redo_data = redo;
    }
    ∷ []
request (deletes t table page slot undo) =
    record new_record {
      txn_id = t;
      record_type = delete;
      table_id = table;
      page_id = page;
      slot_id = slot;
      undo_data = undo;
    }
    ∷ []
request (updates t table page slot undo redo) =
    record new_record {
      txn_id = t;
      record_type = update;
      table_id = table;
      page_id = page;
      slot_id = slot;
      undo_data = undo;
      redo_data = redo;
    }
    ∷ []
request checkpoints = record new_record { record_type = checkpoint } ∷ []
request flushes = []

abbrev pub requests : List Call → List LogRecord
requests [] = []
requests (c ∷ cs) = request c ++ requests cs

-- The manager has the log: a part that is in the file, after what the file held before, and the rest
-- in the buffer.
pub record IsLogged (before : List ℕ) (log : List LogRecord) (w : WalManager) : Type 0 where
  pub flushed : List LogRecord
  pub split : flushed ++ w.buffer ≡ log
  pub written : write_records flushed before ≡ (w.file, true)
  pub next : w.next_lsn ≡ length log + 1
  pub flushed_is : w.flushed_lsn ≡ length flushed
  pub table : (t : ℕ) → get_lsn (get ℕ_discrete w.txn_table t) ≡ last_lsn 0 t log
  pub newest : (r : LogRecord) → get_last? w.buffer ≡ some r → r.lsn ≡ length log
