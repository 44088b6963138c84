-- ===== src/Wal/Flushes.antt =====
-- Records whose fields fit are serialized, and a flush puts the whole log in the file.
use solidity_course_blockcha.Prelude.{
  ℕ, ◌^◌, ◌<◌, ◌≡◌, refl, ap, subst, sym, ◌∙◌, ◌⊎◌, inl, inr, true, some, List, [], ◌∷◌, ◌++◌,
  arith, Option-cases, length, length-append, append-nil, get_last?, pack, pack-Fits, unpack-pack,
}
use solidity_course_blockcha.Wal.Record.{
  LogRecordType, begin, commit, abort, insert, delete, update, checkpoint, clr, end,
  record_type_code, log_header_format, log_header_values, length_format, serialize_part, serialize,
  LogRecord,
}
use solidity_course_blockcha.Wal.Manager.{WalManager, newest_lsn, write_records, flush, flushed_by}
use solidity_course_blockcha.Wal.Log.{InRange, AllInRange, IsLogged}

write_records-append :
    (xs ys : List LogRecord) (before middle : List ℕ)
    → write_records xs before ≡ (middle, true)
    → write_records (xs ++ ys) before ≡ write_records ys middle
unfolding write_records
write_records-append [] ys before middle h = let e : before ≡ middle = cc in ap (write_records ys) e
write_records-append (x ∷ xs) ys before middle h = elim (Option-cases (serialize x)) [
  | inl e ↦ absurd (ground arith)
  | inr (b, e) ↦
      rw (e, write_records) (write_records-append xs ys (before ++ b) middle (ground arith))
]

packs_one : (n : ℕ) → n < 2 ^ 32 → (bytes : List ℕ) × (pack length_format (n ∷ []) ≡ some bytes)
packs_one n small = pack-Fits length_format (n ∷ []) (small, tt)

record_type_code-lt : (t : LogRecordType) → record_type_code t < 256
record_type_code-lt begin = omega arith
record_type_code-lt commit = omega arith
record_type_code-lt abort = omega arith
record_type_code-lt insert = omega arith
record_type_code-lt delete = omega arith
record_type_code-lt update = omega arith
record_type_code-lt checkpoint = omega arith
record_type_code-lt clr = omega arith
record_type_code-lt end = omega arith

serialize-InRange : (r : LogRecord) → InRange r → (bytes : List ℕ) × (serialize r ≡ some bytes)
unfolding serialize serialize_part
serialize-InRange r h =
    let (header, hp) = pack-Fits log_header_format (log_header_values r) (
      h.lsn_fits,
      (
        h.txn_fits,
        (
          record_type_code-lt r.record_type,
          (h.prev_fits, (h.table_fits, (h.page_fits, (h.slot_fits, tt)))),
        ),
      ),
    ) in
    let (u, up) = packs_one (length r.undo_data) (omega (arith, h.size_fits)) in
    let (v, vp) = packs_one (length r.redo_data) (omega (arith, h.size_fits)) in
    let n = (unpack-pack log_header_format (log_header_values r) header hp).1 in
    let un = (unpack-pack length_format (length r.undo_data ∷ []) u up).1 in
    let vn = (unpack-pack length_format (length r.redo_data ∷ []) v vp).1 in
    let bytes = header ++ ((u ++ r.undo_data) ++ (v ++ r.redo_data)) in
    let (t, tp) = packs_one (length bytes) (
      omega (
        arith,
        h.size_fits,
        n,
        un,
        vn,
        length-append header ((u ++ r.undo_data) ++ (v ++ r.redo_data)),
        length-append (u ++ r.undo_data) (v ++ r.redo_data),
        length-append u r.undo_data,
        length-append v r.redo_data,
      )) in
    (bytes ++ t, rw hp (rw up (rw vp (rw tp refl))))

write_records_total :
    (rs : List LogRecord) (file : List ℕ)
    → AllInRange rs
    → (after : List ℕ) × (write_records rs file ≡ (after, true))
unfolding write_records
write_records_total [] file h = (file, refl)
write_records_total (r ∷ rs) file (h, hs) =
    let (bytes, e) = serialize-InRange r h in
    let (after, g) = write_records_total rs (file ++ bytes) hs in (after, rw (e, write_records) g)

pub AllInRange-append_right : (xs ys : List LogRecord) → AllInRange (xs ++ ys) → AllInRange ys
AllInRange-append_right [] ys h = h
AllInRange-append_right (x ∷ xs) ys (h, hs) = AllInRange-append_right xs ys hs

pub AllInRange-append_left : (xs ys : List LogRecord) → AllInRange (xs ++ ys) → AllInRange xs
AllInRange-append_left [] ys h = tt
AllInRange-append_left (x ∷ xs) ys (h, hs) = (h, AllInRange-append_left xs ys hs)

newest_of : (r : LogRecord) (rs : List LogRecord) → (x : LogRecord) × (get_last? (r ∷ rs) ≡ some x)
newest_of r [] = (r, refl)
newest_of r (x ∷ rs) = newest_of x rs

buffer-cases :
    (rs : List LogRecord) → (rs ≡ []) ⊎ ((x : LogRecord) × (xs : List LogRecord) × (rs ≡ x ∷ xs))
buffer-cases [] = inl refl
buffer-cases (x ∷ xs) = inr (x, xs, refl)

-- All of the log is in the file.
pub record IsFlushed (before : List ℕ) (log : List LogRecord) (w : WalManager) : Type 0 where
  pub logged : IsLogged before log w
  pub empty : w.buffer ≡ []

flush_waiting :
    (w : WalManager) (x : LogRecord) (xs : List LogRecord) (file : List ℕ)
    → w.buffer ≡ x ∷ xs
    → write_records w.buffer w.file ≡ (file, true)
    → flush w ≡ (flushed_by (record w { file = file }), true)
unfolding flush
flush_waiting w x xs file e =
    subst
      (λ (b : List LogRecord).
        write_records b w.file ≡ (file, true)
        → flush (record w { buffer = b })
          ≡ (flushed_by (record w { file = file; buffer = b }), true))
      (sym e) (λ g. rw (g, flush) refl)

pub flush-IsFlushed :
    {before : List ℕ} {log : List LogRecord} {w : WalManager}
    → IsLogged before log w
    → AllInRange log
    → (v : WalManager) × (flush w ≡ (v, true)) × IsFlushed before log v
unfolding flush
flush-IsFlushed {before} {log} {w} h fits = elim (buffer-cases w.buffer) [
  | inl e ↦ (
    w,
    rw (e, flush) (ap (λ (b : List LogRecord). (record w { buffer = b }, true)) e),
    record { logged = h; empty = e },
  )
  | inr (x, xs, e) ↦
      let waiting =
        AllInRange-append_right h.flushed w.buffer (subst AllInRange (sym h.split) fits) in
      let (file, g) = write_records_total w.buffer w.file waiting in
      let (r, last) = newest_of x xs in
      let newest = ap get_last? e ∙ last in
      (
        flushed_by (record w { file = file }),
        flush_waiting w x xs file e g,
        record {
          logged = record {
            flushed = h.flushed ++ w.buffer;
            split = append-nil (h.flushed ++ w.buffer) ∙ h.split;
            written = write_records-append h.flushed w.buffer before w.file h.written ∙ g;
            next = h.next;
            flushed_is =
                ap (newest_lsn w.flushed_lsn) newest ∙ h.newest r newest ∙ ap length (sym h.split);
            table = h.table;
            newest = λ y c. cc;
          };
          empty = refl;
        },
      )
]
