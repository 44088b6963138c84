-- ===== src/Wal/Runs.antt =====
-- Whatever is called but truncate, the manager has the log that its specification describes; after a
-- commit the file has all of it.
use solidity_course_blockcha.Prelude.{
  true, inl, inr, ℕ, ◌≡◌, refl, ap, subst, sym, ◌∙◌, inl, inr, Option, some, List, [], ◌∷◌, ◌++◌,
  arith, ◌>>=◌, Option-cases, length, append_assoc, append-nil,
}
use solidity_course_blockcha.Prelude.Dict.{get}
use solidity_course_blockcha.Wal.Record.{serialize, commit, checkpoint, LogRecord, new_record}
use solidity_course_blockcha.Wal.Manager.{
  WalManager, append, write_records, append_flush, log_begin, log_commit, log_abort, log_insert,
  log_delete, log_update, log_checkpoint, fresh,
}
use solidity_course_blockcha.Wal.Log.{
  stamp, stamps, AllInRange, Call, begins, commits, aborts, inserts, deletes, updates, checkpoints,
  flushes, returned, perform, perform_all, request, requests, IsLogged,
}
use solidity_course_blockcha.Wal.Appends.{append-IsLogged}
use solidity_course_blockcha.Wal.Flushes.{AllInRange-append_left, IsFlushed, flush-IsFlushed}

stamps-append :
    (log xs ys : List LogRecord)
    → stamps log (xs ++ ys) ≡ stamps log xs ++ stamps (log ++ stamps log xs) ys
stamps-append log [] ys = ap (λ (l : List LogRecord). stamps l ys) (sym (append-nil log))
stamps-append log (x ∷ xs) ys =
    let s = stamp log x in
    ap (◌∷◌ s) (
      stamps-append (log ++ s ∷ []) xs ys
      ∙ ap (λ (l : List LogRecord). stamps (log ++ s ∷ []) xs ++ stamps l ys)
          (append_assoc log (s ∷ []) (stamps (log ++ s ∷ []) xs)))

append_flush-IsFlushed :
    {before : List ℕ} {log : List LogRecord} {w : WalManager} (r : LogRecord)
    → IsLogged before log w
    → AllInRange (log ++ stamp log r ∷ [])
    → (v : WalManager) × (append_flush r w ≡ (v, some w.next_lsn))
      × IsFlushed before (log ++ stamp log r ∷ []) v
unfolding append
append_flush-IsFlushed {before} {log} {w} r h fits =
    let (v, e, f) = flush-IsFlushed (append-IsLogged r h) fits in (v, rw e refl, f)

-- Each call returns where the log's fields fit, and does what the specification says.
record Goes (before : List ℕ) (log : List LogRecord) (c : Call) (w : WalManager) : Type 0 where
  after : WalManager
  returns : perform c w ≡ some after
  logged : IsLogged before (log ++ stamps log (request c)) after

perform-Goes :
    {before : List ℕ} {log : List LogRecord} {w : WalManager} (c : Call)
    → IsLogged before log w
    → AllInRange (log ++ stamps log (request c))
    → Goes before log c w
unfolding log_begin log_commit log_abort log_insert log_delete log_update log_checkpoint
perform-Goes (begins t) h fits = record { after = _; returns = refl; logged = append-IsLogged _ h }
perform-Goes (aborts t) h fits = record { after = _; returns = refl; logged = append-IsLogged _ h }
perform-Goes (inserts t table page slot redo) h fits = record {
  after = _;
  returns = refl;
  logged = append-IsLogged _ h;
}
perform-Goes (deletes t table page slot undo) h fits = record {
  after = _;
  returns = refl;
  logged = append-IsLogged _ h;
}
perform-Goes (updates t table page slot undo redo) h fits = record {
  after = _;
  returns = refl;
  logged = append-IsLogged _ h;
}
perform-Goes (commits t) h fits =
    let (v, e, f) =
      append_flush-IsFlushed (record new_record { txn_id = t; record_type = commit }) h fits in
    record { after = v; returns = ap returned e; logged = f.logged }
perform-Goes checkpoints h fits =
    let (v, e, f) =
      append_flush-IsFlushed (record new_record { record_type = checkpoint }) h fits in
    record { after = v; returns = ap returned e; logged = f.logged }
perform-Goes {before} {log} {w} flushes h fits =
    let (v, e, f) = flush-IsFlushed h (subst AllInRange (append-nil log) fits) in
    record {
      after = v;
      returns = rw e refl;
      logged = subst (λ (l : List LogRecord). IsLogged before l v) (sym (append-nil log)) f.logged;
    }

fresh-IsLogged : (before : List ℕ) → IsLogged before [] (fresh before)
unfolding write_records get
fresh-IsLogged before = record {
  flushed = [];
  split = refl;
  written = refl;
  next = refl;
  flushed_is = refl;
  table = λ t. refl;
  newest = λ r e. cc;
}

run-IsLogged :
    (before : List ℕ) (cs : List Call) (log : List LogRecord) (w : WalManager)
    → IsLogged before log w
    → AllInRange (log ++ stamps log (requests cs))
    → (v : WalManager) × (perform_all cs w ≡ some v)
      × IsLogged before (log ++ stamps log (requests cs)) v
run-IsLogged before [] log w h fits =
    (w, refl, subst (λ (l : List LogRecord). IsLogged before l w) (sym (append-nil log)) h)
run-IsLogged before (c ∷ cs) log w h fits =
    let first = stamps log (request c) in
    let rest = stamps (log ++ first) (requests cs) in
    let same : log ++ stamps log (requests (c ∷ cs)) ≡ (log ++ first) ++ rest =
      ap (λ (l : List LogRecord). log ++ l) (stamps-append log (request c) (requests cs))
      ∙ sym (append_assoc log first rest) in
    let all = subst AllInRange same fits in
    let g = perform-Goes c h (AllInRange-append_left (log ++ first) rest all) in
    let (v, e, i) = run-IsLogged before cs (log ++ first) g.after g.logged all in
    (
      v,
      ap (λ (o : Option WalManager). o >>= λ u. perform_all cs u) g.returns ∙ e,
      subst (λ (l : List LogRecord). IsLogged before l v) (sym same) i,
    )

-- From a fresh manager over a file, where the fields of all records fit, no call of the log_ methods
-- and of flush raises, and after any such calls, without a truncate, the log is the requests in
-- their order, numbered from 1, each with the number of its transaction's record before it: a part
-- of it is in the file, after what the file held, up to flushed_lsn, and the rest is in the buffer.
pub perform_all-IsLogged :
    (before : List ℕ) (calls : List Call)
    → AllInRange (stamps [] (requests calls))
    → (w : WalManager) × (perform_all calls (fresh before) ≡ some w)
      × IsLogged before (stamps [] (requests calls)) w
perform_all-IsLogged before calls fits =
    run-IsLogged before calls [] (fresh before) (fresh-IsLogged before) fits

perform_all-append :
    (cs : List Call) (c : Call) (w : WalManager)
    → perform_all (cs ++ c ∷ []) w ≡ (perform_all cs w >>= λ v. perform c v)
perform_all-append [] c w = elim (Option-cases (perform c w)) [
  | inl e ↦ rw e refl
  | inr (v, e) ↦ rw e refl
]
perform_all-append (x ∷ cs) c w = elim (Option-cases (perform x w)) [
  | inl e ↦ rw e refl
  | inr (v, e) ↦ rw e (perform_all-append cs c v)
]

-- The bytes of records, one after the other.
abbrev pub AreBytes : List LogRecord → List ℕ → Type 0
AreBytes [] bytes = [] ≡ bytes
AreBytes (r ∷ rs) bytes =
    (piece : List ℕ) × (rest : List ℕ) × (serialize r ≡ some piece)
    × AreBytes rs rest
    × (piece ++ rest ≡ bytes)

write_records-AreBytes :
    (rs : List LogRecord) (before after : List ℕ)
    → write_records rs before ≡ (after, true)
    → (bytes : List ℕ) × AreBytes rs bytes × (before ++ bytes ≡ after)
unfolding write_records
write_records-AreBytes [] before after h = ([], refl, append-nil before ∙ cc)
write_records-AreBytes (r ∷ rs) before after h = elim (Option-cases (serialize r)) [
  | inl e ↦ absurd (ground arith)
  | inr (piece, e) ↦
      let (rest, are, joined) = write_records-AreBytes rs (before ++ piece) after (ground arith) in
      (piece ++ rest, (piece, rest, e, are, refl), sym (append_assoc before piece rest) ∙ joined)
]

-- What is in the file after the commit of a transaction.
pub record IsDurable (before : List ℕ) (log : List LogRecord) (w : WalManager) : Type 0 where
  pub nothing_waits : w.buffer ≡ []
  pub all_flushed : w.flushed_lsn ≡ length log
  pub in_file : (bytes : List ℕ) × AreBytes log bytes × (before ++ bytes ≡ w.file)

flushed-IsDurable :
    {before : List ℕ} {log : List LogRecord} {w : WalManager}
    → IsFlushed before log w
    → IsDurable before log w
flushed-IsDurable {before} {log} {w} f =
    let h = f.logged in
    let all : h.flushed ≡ log =
      sym (append-nil h.flushed)
      ∙ ap (λ (l : List LogRecord). h.flushed ++ l) (sym f.empty)
      ∙ h.split in
    record {
      nothing_waits = f.empty;
      all_flushed = h.flushed_is ∙ ap length all;
      in_file =
          subst
            (λ (l : List LogRecord).
              (bytes : List ℕ) × AreBytes l bytes × (before ++ bytes ≡ w.file))
            all (write_records-AreBytes h.flushed before w.file h.written);
    }

-- After any calls of the log_ methods and of flush, without a truncate, and then the commit of a
-- transaction, where the fields of all records fit, the commit has returned, nothing waits in the
-- buffer, flushed_lsn is the number of records, and the file is what it held at first, followed by
-- the bytes that serialize gives for each record of the log in turn.
pub log_commit-IsDurable :
    (before : List ℕ) (calls : List Call) (t : ℕ)
    → AllInRange (stamps [] (requests calls ++ request (commits t)))
    → (w : WalManager) × (perform_all (calls ++ commits t ∷ []) (fresh before) ≡ some w)
      × IsDurable before (stamps [] (requests calls ++ request (commits t))) w
unfolding log_commit
log_commit-IsDurable before calls t fits =
    let same = stamps-append [] (requests calls) (request (commits t)) in
    let log = stamps [] (requests calls) in
    let all = subst AllInRange same fits in
    let (v, e, h) = perform_all-IsLogged before calls (AllInRange-append_left log _ all) in
    let (w, g, f) =
      append_flush-IsFlushed (record new_record { txn_id = t; record_type = commit }) h all in
    (
      w,
      perform_all-append calls (commits t) (fresh before)
          ∙ ap (λ (o : Option WalManager). o >>= λ u. perform (commits t) u) e
          ∙ ap returned g,
      subst (λ (l : List LogRecord). IsDurable before l w) (sym same) (flushed-IsDurable f),
    )
