-- ===== src/Wal/Reading.antt =====
-- What deserialize, read_all and recover make of a log file.
use solidity_course_blockcha.Prelude.{
  ℕ, zero, suc, ◌+◌, ◌-◌, ◌<◌, ◌≡◌, refl, inl, inr, none, some, List, [], arith, ltb, Bool-cases,
  Option-cases, length, drop, slice, length-drop, length-take, min, unpack, unpack_size,
}
use solidity_course_blockcha.Wal.Record.{
  log_header_format, length_format, unpack_length, struct_error, deserialize_by, deserialize,
  log_header_size,
}
use solidity_course_blockcha.Wal.Manager.{
  WalManager, read_from, read_all, recover, recover_lsn, after_last, outcome, analyse, abort_active,
  fresh, open_wal,
}

length-slice : (b : List ℕ) (a n : ℕ) → length (slice b a n) ≡ min n (length b - a)
length-slice b a n = omega (arith, length-take n (drop a b), length-drop a b)

unpack_length_short : (b : List ℕ) → length b < 4 → unpack_length b ≡ none
unfolding unpack_length
unpack_length_short b h = elim (Option-cases (unpack length_format b)) [
  | inl e ↦ rw e refl
  | inr (vs, e) ↦ absurd (omega (arith, unpack_size length_format b vs e))
]

-- A header of 35 bytes is 4 bytes too long for its format, and where the data ends after 31 bytes
-- there is no length to read.
pub deserialize_fails : (bytes : List ℕ) (offset : ℕ) → deserialize bytes offset ≡ struct_error
unfolding deserialize deserialize_by
deserialize_fails bytes offset =
    elim (Option-cases (unpack log_header_format (slice bytes offset log_header_size))) [
      | inl e ↦ rw (e, deserialize, deserialize_by) refl
      | inr (vs, e) ↦
          let n = unpack_size log_header_format _ vs e in
          let short = length-slice bytes offset log_header_size in
          let past = length-slice bytes (offset + log_header_size) 4 in
          rw (e, deserialize, deserialize_by)
            (rw
              (
                unpack_length_short (slice bytes (offset + log_header_size) 4) (omega arith),
                deserialize_by,
              )
              refl)
    ]

read_from_nothing :
    (rounds : ℕ) (bytes : List ℕ) → read_from log_header_size rounds bytes 0 ≡ some []
unfolding read_from deserialize
read_from_nothing zero bytes = refl
read_from_nothing (suc rounds) bytes = elim (Bool-cases (ltb 0 (length bytes))) [
  | inl c ↦ rw (c, read_from) (rw (deserialize_fails bytes 0) refl)
  | inr c ↦ rw c refl
]

-- Whatever the log file holds, read_all returns no record and recover no transaction, and a manager
-- opened on the file starts again at LSN 1.
pub recover_nothing :
    (w : WalManager)
    → (read_all w ≡ some [])
      × (recover w ≡ some (w, [], []))
      × ((file : List ℕ) → open_wal (some file) ≡ some (fresh file))
unfolding read_all recover recover_lsn open_wal after_last outcome analyse abort_active
recover_nothing w =
    let nothing = read_from_nothing (length w.file) w.file in
    (nothing, rw nothing refl, λ file. rw (read_from_nothing (length file) file) refl)
