-- ===== src/Wal/Appends.antt =====
-- An append keeps the log that the specification describes.
use solidity_course_blockcha.Prelude.{
  ℕ, ◌≡◌, refl, ap, ap₂, sym, ◌∙◌, inl, inr, some, List, [], ◌∷◌, ◌++◌, arith, ◌==◌, ==-true→eq,
  ==-false→ne, Bool-cases, if◌then◌else◌, length-append, append_assoc, get_last?, some-injective,
  ℕ_discrete,
}
use solidity_course_blockcha.Prelude.Dict.{get, put, get-put_self, get-put_ne}
use solidity_course_blockcha.Wal.Record.{LogRecord}
use solidity_course_blockcha.Wal.Manager.{WalManager, get_lsn, append}
use solidity_course_blockcha.Wal.Log.{last_lsn, stamp, IsLogged}

last_lsn-append :
    (found t : ℕ) (log : List LogRecord) (r : LogRecord)
    → last_lsn found t (log ++ r ∷ []) ≡ (if r.txn_id == t then r.lsn else last_lsn found t log)
last_lsn-append found t [] r = refl
last_lsn-append found t (x ∷ log) r =
    last_lsn-append (if x.txn_id == t then x.lsn else found) t log r

get_last?-append : (rs : List LogRecord) (r : LogRecord) → get_last? (rs ++ r ∷ []) ≡ some r
get_last?-append [] r = refl
get_last?-append (x ∷ []) r = refl
get_last?-append (x ∷ y ∷ rs) r = get_last?-append (y ∷ rs) r

get_lsn-put :
    (d : List (ℕ × ℕ)) (k n t : ℕ)
    → get_lsn (get ℕ_discrete (put ℕ_discrete d k n) t)
      ≡ (if k == t then n else get_lsn (get ℕ_discrete d t))
get_lsn-put d k n t = elim (Bool-cases (k == t)) [
  | inl e ↦
      let same = ==-true→eq k t e in
      ap get_lsn
        (ap (get ℕ_discrete (put ℕ_discrete d k n)) (sym same) ∙ get-put_self ℕ_discrete d k n)
      ∙ rw e refl
  | inr e ↦ ap get_lsn (get-put_ne ℕ_discrete d k t n (==-false→ne k t e)) ∙ rw e refl
]

-- An append is the specification's: the next number and the transaction's last record.
pub append-IsLogged :
    {before : List ℕ} {log : List LogRecord} {w : WalManager} (r : LogRecord)
    → IsLogged before log w
    → IsLogged before (log ++ stamp log r ∷ []) (append r w).0
unfolding append
append-IsLogged {before} {log} {w} r h =
    let same : (append r w).0.buffer ≡ w.buffer ++ stamp log r ∷ [] =
      ap₂ (λ (n p : ℕ). w.buffer ++ record r { lsn = n; prev_lsn = p } ∷ []) h.next
        (h.table r.txn_id) in
    record {
      flushed = h.flushed;
      split =
          ap (λ (l : List LogRecord). h.flushed ++ l) same
          ∙ sym (append_assoc h.flushed w.buffer (stamp log r ∷ []))
          ∙ ap (λ (l : List LogRecord). l ++ stamp log r ∷ []) h.split;
      written = h.written;
      next = omega (arith, h.next, length-append log (stamp log r ∷ []));
      flushed_is = h.flushed_is;
      table = λ t.
          get_lsn-put w.txn_table r.txn_id w.next_lsn t
          ∙ ap₂ (λ (n o : ℕ). if r.txn_id == t then n else o) h.next (h.table t)
          ∙ sym (last_lsn-append 0 t log (stamp log r));
      newest = λ x e.
          ap (λ (y : LogRecord). y.lsn)
            (some-injective _ _
              (sym e ∙ ap get_last? same ∙ get_last?-append w.buffer (stamp log r)))
          ∙ omega (arith, length-append log (stamp log r ∷ []));
    }
