-- ===== src/Checks/Wal.antt =====
-- pysql/storage/wal.py at a log of two transactions, of which one commits.
use solidity_course_blockcha.Prelude.{
  ℕ, ◌≡◌, refl, true, false, Option, none, some, List, [], ◌∷◌, ◌++◌, ◌||◌, arith, ℕ_discrete,
  length, contains, be, pack, unpack,
}
use solidity_course_blockcha.Prelude.Dict.{get, put, pop}
use solidity_course_blockcha.Wal.Record.{
  commit, abort, LogRecord, serialize_part, serialize, unpack_length, deserialize_by, deserialize,
  struct_error,
}
use solidity_course_blockcha.Wal.Manager.{
  WalManager, append, write_records, flush, log_begin, log_commit, log_abort, log_insert,
  log_delete, log_update, log_checkpoint, read_from, read_all, analyse_step, analyse, abort_active,
  outcome, after_last, recover, recover_lsn, truncate, fresh, open_wal,
}
use solidity_course_blockcha.Wal.Reading.{recover_nothing}
use solidity_course_blockcha.Wal.Encoding.{packed_size}
use solidity_course_blockcha.Wal.Recovery.{is_logged, is_left_open, outcome_lem}
use solidity_course_blockcha.Wal.Log.{
  begins, commits, inserts, Call, AllInRange, stamps, request, requests, perform_all, IsLogged,
}
use solidity_course_blockcha.Wal.Runs.{perform_all-IsLogged, IsDurable, log_commit-IsDurable}

program : Unit {0}
unfolding ℕ_discrete be pack unpack get put pop serialize_part serialize unpack_length
    deserialize_by deserialize append write_records flush log_begin log_commit log_abort log_insert
    log_delete log_update log_checkpoint read_from read_all analyse_step analyse abort_active
    outcome after_last recover recover_lsn truncate open_wal
program = tt

abbrev two_transactions : List Call
two_transactions = begins 1 ∷ inserts 1 0 0 0 (7 ∷ []) ∷ begins 2 ∷ []

abbrev log : List LogRecord
log = stamps [] (requests two_transactions ++ request (commits 1))

abbrev after_commit : Option WalManager
after_commit = perform_all (two_transactions ++ commits 1 ∷ []) (fresh [])

abbrev in_file : Option WalManager → List ℕ
in_file none = []
in_file (some w) = w.file

-- Four records, each with 43 bytes and its data.
file_size : length (in_file after_commit) ≡ 173
unfolding program
file_size = refl

-- A record's bytes with nothing after them cannot be read either.
unreadable : deserialize (in_file after_commit) 0 ≡ struct_error
unfolding program
unreadable = refl

readable : read_from packed_size 173 (in_file after_commit) 0 ≡ some log
unfolding program
readable = refl

written : write_records log [] ≡ (in_file after_commit, true)
unfolding program
written = refl

truncated : length (truncate (fresh (1 ∷ []))).file ≡ 0
unfolding program
truncated = refl

fits : AllInRange log
fits = (
  record {
    lsn_fits = omega arith;
    txn_fits = omega arith;
    prev_fits = omega arith;
    table_fits = omega arith;
    page_fits = omega arith;
    slot_fits = omega arith;
    size_fits = omega arith;
  },
  (
    record {
      lsn_fits = omega arith;
      txn_fits = omega arith;
      prev_fits = omega arith;
      table_fits = omega arith;
      page_fits = omega arith;
      slot_fits = omega arith;
      size_fits = omega arith;
    },
    (
      record {
        lsn_fits = omega arith;
        txn_fits = omega arith;
        prev_fits = omega arith;
        table_fits = omega arith;
        page_fits = omega arith;
        slot_fits = omega arith;
        size_fits = omega arith;
      },
      (
        record {
          lsn_fits = omega arith;
          txn_fits = omega arith;
          prev_fits = omega arith;
          table_fits = omega arith;
          page_fits = omega arith;
          slot_fits = omega arith;
          size_fits = omega arith;
        },
        tt,
      ),
    ),
  ),
)

recover_nothing_example :
    (read_all (fresh (1 ∷ 2 ∷ [])) ≡ some [])
    × (recover (fresh (1 ∷ 2 ∷ [])) ≡ some (fresh (1 ∷ 2 ∷ []), [], []))
    × ((file : List ℕ) → open_wal (some file) ≡ some (fresh file))
recover_nothing_example = recover_nothing (fresh (1 ∷ 2 ∷ []))

outcome_lem_example :
    (contains 2 (outcome log).0 ≡ is_logged commit 2 log)
    × (contains 2 (outcome log).1 ≡ (is_logged abort 2 log || is_left_open false 2 log))
outcome_lem_example = outcome_lem log 2

perform_all-IsLogged_example :
    (w : WalManager) × (perform_all (two_transactions ++ commits 1 ∷ []) (fresh []) ≡ some w)
    × IsLogged [] (stamps [] (requests (two_transactions ++ commits 1 ∷ []))) w
perform_all-IsLogged_example = perform_all-IsLogged [] (two_transactions ++ commits 1 ∷ []) fits

log_commit-IsDurable_example :
    (w : WalManager) × (perform_all (two_transactions ++ commits 1 ∷ []) (fresh []) ≡ some w)
    × IsDurable [] log w
log_commit-IsDurable_example = log_commit-IsDurable [] two_transactions 1 fits
