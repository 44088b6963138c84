-- ===== src/Wal/Encoding.antt =====
-- What the bytes of a log file determine: a header of 31 bytes, which is what its format takes, reads
-- every record back.
use solidity_course_blockcha.Prelude.{
  piece_at, ℕ, zero, suc, ◌+◌, ◌-◌, ◌<◌, ◌≤◌, ◌≡◌, refl, ap, ap₂, sym, ◌∙◌, inl, inr, true, some,
  List, [], ◌∷◌, ◌++◌, arith, >>=_some, ltb, lt→ltb, Bool-cases, Option-cases, length,
  length-append, drop, slice, drop-length, append_assoc, append-nil, ltb→lt, pack, unpack,
  unpack-pack,
}
use solidity_course_blockcha.Wal.Record.{
  LogRecordType, begin, commit, abort, insert, delete, update, checkpoint, clr, end,
  record_type_code, record_type_of, log_header_format, log_header_values, length_format,
  serialize_part, serialize, unpack_length, deserialized, deserialize_by, made_record, LogRecord,
}
use solidity_course_blockcha.Wal.Manager.{write_records, read_from}

abbrev pub packed_size : ℕ
packed_size = 31

record_type_of-record_type_code : (t : LogRecordType) → record_type_of (record_type_code t) ≡ some t
record_type_of-record_type_code begin = refl
record_type_of-record_type_code commit = refl
record_type_of-record_type_code abort = refl
record_type_of-record_type_code insert = refl
record_type_of-record_type_code delete = refl
record_type_of-record_type_code update = refl
record_type_of-record_type_code checkpoint = refl
record_type_of-record_type_code clr = refl
record_type_of-record_type_code end = refl

-- The parts of a serialized record.
record IsSerialized (r : LogRecord) (bytes : List ℕ) : Type 0 where
  header : List ℕ
  undo_length : List ℕ
  redo_length : List ℕ
  trailer : List ℕ
  header_packed : pack log_header_format (log_header_values r) ≡ some header
  undo_packed : pack length_format (length r.undo_data ∷ []) ≡ some undo_length
  redo_packed : pack length_format (length r.redo_data ∷ []) ≡ some redo_length
  trailer_size : length trailer ≡ 4
  joined :
      (header ++ ((undo_length ++ r.undo_data) ++ (redo_length ++ r.redo_data))) ++ trailer ≡ bytes

serialize-IsSerialized :
    (r : LogRecord) (bytes : List ℕ) → serialize r ≡ some bytes → IsSerialized r bytes
unfolding serialize serialize_part
serialize-IsSerialized r bytes h =
    let (header, hp, g) = >>=_some (pack log_header_format (log_header_values r)) _ h in
    let (up, us, g2) = >>=_some (serialize_part r.undo_data) _ g in
    let (ul, ulp, ue) = >>=_some (pack length_format (length r.undo_data ∷ [])) _ us in
    let (rp, rs, g3) = >>=_some (serialize_part r.redo_data) _ g2 in
    let (rl, rlp, re) = >>=_some (pack length_format (length r.redo_data ∷ [])) _ rs in
    let (t, tp, e) = >>=_some (pack length_format (length (header ++ (up ++ rp)) ∷ [])) _ g3 in
    let undo_is : ul ++ r.undo_data ≡ up = cc in
    let redo_is : rl ++ r.redo_data ≡ rp = cc in
    let all : (header ++ (up ++ rp)) ++ t ≡ bytes = cc in
    record {
      header = header;
      undo_length = ul;
      redo_length = rl;
      trailer = t;
      header_packed = hp;
      undo_packed = ulp;
      redo_packed = rlp;
      trailer_size = (unpack-pack length_format _ t tp).1;
      joined = rw undo_is (rw redo_is all);
    }

length_parts :
    (h u a v b t : List ℕ)
    → length ((h ++ ((u ++ a) ++ (v ++ b))) ++ t)
      ≡ length h + length u + length a + length v + length b + length t
length_parts h u a v b t = omega (
  arith,
  length-append (h ++ ((u ++ a) ++ (v ++ b))) t,
  length-append h ((u ++ a) ++ (v ++ b)),
  length-append (u ++ a) (v ++ b),
  length-append u a,
  length-append v b,
)

append_parts :
    (h u a v b t rest : List ℕ)
    → ((h ++ ((u ++ a) ++ (v ++ b))) ++ t) ++ rest ≡ h ++ (u ++ (a ++ (v ++ (b ++ (t ++ rest)))))
append_parts h u a v b t rest = simp append_assoc

unpack_length-pack :
    (n : ℕ) (bytes : List ℕ)
    → pack length_format (n ∷ []) ≡ some bytes
    → (unpack_length bytes ≡ some n) × (length bytes ≡ 4)
unfolding unpack_length
unpack_length-pack n bytes h =
    let (u, size) = unpack-pack length_format (n ∷ []) bytes h in (rw u refl, size)

made_record-log_header_values :
    (r : LogRecord) (consumed : ℕ)
    → made_record (log_header_values r) r.undo_data r.redo_data consumed ≡ deserialized r consumed
made_record-log_header_values r consumed =
    rw (record_type_of-record_type_code r.record_type, made_record) refl

deserialize_by_fields :
    (size offset n k : ℕ) (bytes values : List ℕ)
    → unpack log_header_format (slice bytes offset size) ≡ some values
    → unpack_length (slice bytes (offset + size) 4) ≡ some n
    → unpack_length (slice bytes (offset + size + 4 + n) 4) ≡ some k
    → deserialize_by size bytes offset
      ≡ made_record values
          (slice bytes (offset + size + 4) n)
          (slice bytes (offset + size + 4 + n + 4) k)
          (offset + size + 4 + n + 4 + k + 4 - offset)
unfolding deserialize_by
deserialize_by_fields size offset n k bytes values e1 e2 e3 =
    rw (e1, deserialize_by) (rw (e2, deserialize_by) (rw (e3, deserialize_by) refl))

-- A serialized record is read back where it stands, with its size.
deserialize_by-serialize :
    (r : LogRecord) (piece rest bytes : List ℕ) (offset : ℕ)
    → serialize r ≡ some piece
    → drop offset bytes ≡ piece ++ rest
    → (deserialize_by packed_size bytes offset ≡ deserialized r (length piece)) × (0 < length piece)
deserialize_by-serialize r piece rest bytes offset h at =
    let s = serialize-IsSerialized r piece h in
    let a = r.undo_data in
    let b = r.redo_data in
    let (hu, hn) = unpack-pack log_header_format (log_header_values r) s.header s.header_packed in
    let (uu, un) = unpack_length-pack (length a) s.undo_length s.undo_packed in
    let (ru, rn) = unpack_length-pack (length b) s.redo_length s.redo_packed in
    let start =
      at
      ∙ ap (λ (c : List ℕ). c ++ rest) (sym s.joined)
      ∙ append_parts s.header s.undo_length a s.redo_length b s.trailer rest in
    let undo_at = offset + packed_size in
    let redo_at = undo_at + 4 + length a in
    let (a1, d1) = piece_at bytes s.header _ offset hn start in
    let (a2, d2) = piece_at bytes s.undo_length _ undo_at un d1 in
    let (a3, d3) = piece_at bytes a _ (undo_at + 4) refl d2 in
    let (a4, d4) = piece_at bytes s.redo_length _ redo_at rn d3 in
    let (a5, d5) = piece_at bytes b _ (redo_at + 4) refl d4 in
    let size : length piece ≡ packed_size + 4 + length a + 4 + length b + 4 =
      ap length (sym s.joined)
      ∙ length_parts s.header s.undo_length a s.redo_length b s.trailer
      ∙ omega (arith, hn, un, rn, s.trailer_size) in
    let end_at = redo_at + 4 + length b + 4 - offset in
    let consumed : end_at ≡ length piece = omega (arith, size) in
    (
      deserialize_by_fields packed_size offset (length a) (length b) bytes (log_header_values r)
            (ap (unpack log_header_format) a1 ∙ hu) (ap unpack_length a2 ∙ uu)
            (ap unpack_length a4 ∙ ru)
          ∙ ap₂ (λ (u v : List ℕ). made_record (log_header_values r) u v end_at) a3 a5
          ∙ ap (made_record (log_header_values r) a b) consumed
          ∙ made_record-log_header_values r (length piece),
      omega (arith, size),
    )

write_records_appends :
    (rs : List LogRecord) (before after : List ℕ)
    → write_records rs before ≡ (after, true)
    → (tail : List ℕ) × (before ++ tail ≡ after)
unfolding write_records
write_records_appends [] before after h = ([], append-nil before ∙ cc)
write_records_appends (r ∷ rs) before after h = elim (Option-cases (serialize r)) [
  | inl e ↦ absurd (ground arith)
  | inr (piece, e) ↦
      let (tail, joined) = write_records_appends rs (before ++ piece) after (ground arith) in
      (piece ++ tail, sym (append_assoc before piece tail) ∙ joined)
]

read_from_end :
    (size rounds offset : ℕ) (bytes : List ℕ)
    → length bytes ≤ offset
    → read_from size rounds bytes offset ≡ some []
unfolding read_from
read_from_end size zero offset bytes h = refl
read_from_end size (suc rounds) offset bytes h = elim (Bool-cases (ltb offset (length bytes))) [
  | inl c ↦ absurd (omega (arith, ltb→lt _ _ c))
  | inr c ↦ rw c refl
]

-- One round of the loop where a record can be read.
read_from_step :
    (size rounds offset consumed : ℕ) (bytes : List ℕ) (r : LogRecord) (rs : List LogRecord)
    → offset < length bytes
    → deserialize_by size bytes offset ≡ deserialized r consumed
    → read_from size rounds bytes (offset + consumed) ≡ some rs
    → read_from size (suc rounds) bytes offset ≡ some (r ∷ rs)
unfolding read_from
read_from_step size rounds offset consumed bytes r rs inside here next =
    rw (lt→ltb offset (length bytes) inside, read_from) (rw (here, read_from) (rw next refl))

-- Records that were written after some bytes are read back from the end of these bytes on.
pub read_from-write_records :
    (rs : List LogRecord) (rounds : ℕ) (before after : List ℕ)
    → write_records rs before ≡ (after, true)
    → length after ≤ length before + rounds
    → read_from packed_size rounds after (length before) ≡ some rs
unfolding write_records
read_from-write_records [] rounds before after h enough =
    let same : before ≡ after = cc in
    read_from_end packed_size rounds (length before) after (omega (arith, ap length same))
read_from-write_records (r ∷ rs) rounds before after h enough = elim (Option-cases (serialize r)) [
  | inl e ↦ absurd (ground arith)
  | inr (piece, e) ↦
      let next : write_records rs (before ++ piece) ≡ (after, true) = ground arith in
      let (tail, joined) = write_records_appends rs (before ++ piece) after next in
      let size = length-append before piece in
      let whole : length before + length piece + length tail ≡ length after =
        omega (arith, size, length-append (before ++ piece) tail, ap length joined) in
      let here : drop (length before) after ≡ piece ++ tail =
        ap (drop (length before)) (sym joined ∙ append_assoc before piece tail)
        ∙ drop-length before (piece ++ tail) in
      let (is, positive) = deserialize_by-serialize r piece tail after (length before) e here in
      let fewer = rounds - 1 in
      let later =
        ap (read_from packed_size fewer after) (sym size)
        ∙ read_from-write_records rs fewer (before ++ piece) after next (omega (arith, size)) in
      ap (λ (k : ℕ). read_from packed_size k after (length before)) (omega arith)
      ∙ read_from_step packed_size fewer (length before) (length piece) after r rs (omega arith) is
          later
]
