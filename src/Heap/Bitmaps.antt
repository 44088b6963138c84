-- ===== src/Heap/Bitmaps.antt =====
-- The null bitmap of a record has the bits of the columns that are null.
use solidity_course_blockcha.Prelude.{
  ℕ, zero, suc, ◌+◌, ◌*◌, ◌/◌, ◌%◌, ◌<◌, ◌≤◌, ◌≡◌, ◌≢◌, refl, ap, sym, ◌∙◌, inl, inr, true, false,
  Option, some, List, [], ◌∷◌, ◌==◌, arith, ℕ_discrete, if◌then◌else◌, ◌>>=◌, Bool-cases,
  Option-cases, length, length-set, length-replicate, get_elem?, get_elem?-some, get_elem?-set_self,
  get_elem?-set_ne, set, replicate,
}
use solidity_course_blockcha.Types.Value.{Value}
use solidity_course_blockcha.Types.Classes.{is_null}
use solidity_course_blockcha.Heap.Serializer.{bit, set_bit, mark, is_marked, null_bitmap}

bit-set_bit_self : (k byte : ℕ) → bit k (set_bit k byte) ≡ true
unfolding bit set_bit
bit-set_bit_self zero byte = ground arith
bit-set_bit_self (suc k) byte =
    let e : (set_bit k (byte / 2) * 2 + byte % 2) / 2 ≡ set_bit k (byte / 2) = omega arith in
    ap (bit k) e ∙ bit-set_bit_self k (byte / 2)

bit-set_bit_ne : (j k byte : ℕ) → j ≢ k → bit j (set_bit k byte) ≡ bit j byte
unfolding bit set_bit
bit-set_bit_ne zero zero byte ne = absurd (ne refl)
bit-set_bit_ne zero (suc k) byte ne =
    let e : (set_bit k (byte / 2) * 2 + byte % 2) % 2 ≡ byte % 2 = omega arith in
    ap (λ (b : ℕ). b == 1) e
bit-set_bit_ne (suc j) zero byte ne =
    let e : (byte / 2 * 2 + 1) / 2 ≡ byte / 2 = omega arith in ap (bit j) e
bit-set_bit_ne (suc j) (suc k) byte ne =
    let e : (set_bit k (byte / 2) * 2 + byte % 2) / 2 ≡ set_bit k (byte / 2) = omega arith in
    ap (bit j) e ∙ bit-set_bit_ne j k (byte / 2) (λ same. ne (ap suc same))

mark_byte :
    (i byte : ℕ) (bitmap : List ℕ)
    → get_elem? bitmap (i / 8) ≡ some byte
    → mark i bitmap ≡ set bitmap (i / 8) (set_bit (i % 8) byte)
unfolding mark
mark_byte i byte bitmap e = rw (e, mark) refl

length-mark : (i : ℕ) (bitmap : List ℕ) → length (mark i bitmap) ≡ length bitmap
unfolding mark
length-mark i bitmap = elim (Option-cases (get_elem? bitmap (i / 8))) [
  | inl e ↦ rw (e, length, mark) refl
  | inr (byte, e) ↦
      ap length (mark_byte i byte bitmap e) ∙ (length-set bitmap (i / 8) (set_bit (i % 8) byte))
]

is_marked-mark_self :
    (i : ℕ) (bitmap : List ℕ) → i / 8 < length bitmap → is_marked (mark i bitmap) i ≡ some true
unfolding is_marked
is_marked-mark_self i bitmap h =
    let (byte, e) = get_elem?-some bitmap (i / 8) h in
    ap (λ (m : List ℕ). is_marked m i) (mark_byte i byte bitmap e)
    ∙ (ap (λ (o : Option ℕ). o >>= λ b. some (bit (i % 8) b))
          (get_elem?-set_self bitmap (i / 8) (set_bit (i % 8) byte) h)
        ∙ ap some (bit-set_bit_self (i % 8) byte))

is_marked-mark_ne :
    (i j : ℕ) (bitmap : List ℕ)
    → i / 8 < length bitmap
    → i ≢ j
    → is_marked (mark i bitmap) j ≡ is_marked bitmap j
unfolding is_marked
is_marked-mark_ne i j bitmap h ne =
    let (byte, e) = get_elem?-some bitmap (i / 8) h in
    let marked = set_bit (i % 8) byte in
    ap (λ (m : List ℕ). is_marked m j) (mark_byte i byte bitmap e)
    ∙ (elim (ℕ_discrete (i / 8) (j / 8)) [
      | no other ↦
          ap (λ (o : Option ℕ). o >>= λ b. some (bit (j % 8) b))
            (get_elem?-set_ne bitmap (i / 8) (j / 8) marked other)
      | yes same ↦
          ap (λ (k : ℕ). get_elem? (set bitmap (i / 8) marked) k >>= λ b. some (bit (j % 8) b))
            (sym same)
          ∙ ap (λ (o : Option ℕ). o >>= λ b. some (bit (j % 8) b))
              (get_elem?-set_self bitmap (i / 8) marked h)
          ∙ ap some (bit-set_bit_ne (j % 8) (i % 8) byte (λ c. ne (omega arith)))
          ∙ sym (
              ap (λ (o : Option ℕ). o >>= λ b. some (bit (j % 8) b))
                (ap (get_elem? bitmap) (sym same) ∙ e))
    ])

bit_zero : (k : ℕ) → bit k 0 ≡ false
unfolding bit
bit_zero zero = refl
bit_zero (suc k) = bit_zero k

get_elem?-replicate : (n : ℕ) (x : ℕ) (i : ℕ) → i < n → get_elem? (replicate n x) i ≡ some x
get_elem?-replicate zero x i h = absurd (omega arith)
get_elem?-replicate (suc n) x zero h = refl
get_elem?-replicate (suc n) x (suc i) h = get_elem?-replicate n x i (omega arith)

module _ {F T : Type 0} where
  step_keeps :
      (v : Value F T) (i j : ℕ) (bitmap : List ℕ)
      → i / 8 < length bitmap
      → i ≢ j
      → is_marked (if is_null v then mark i bitmap else bitmap) j ≡ is_marked bitmap j
  step_keeps v i j bitmap h ne = elim (Bool-cases (is_null v)) [
    | inl e ↦ rw e (is_marked-mark_ne i j bitmap h ne)
    | inr e ↦ rw e refl
  ]

  step_length :
      (v : Value F T) (i : ℕ) (bitmap : List ℕ)
      → length (if is_null v then mark i bitmap else bitmap) ≡ length bitmap
  step_length v i bitmap = elim (Bool-cases (is_null v)) [
    | inl e ↦ rw e (length-mark i bitmap)
    | inr e ↦ rw e refl
  ]

  -- Columns before the first one are not touched.
  null_bitmap_keeps :
      (i j : ℕ) (vs : List (Value F T)) (bitmap : List ℕ)
      → j < i
      → i + length vs ≤ length bitmap * 8
      → is_marked (null_bitmap i vs bitmap) j ≡ is_marked bitmap j
  unfolding null_bitmap
  null_bitmap_keeps i j [] bitmap h fits = refl
  null_bitmap_keeps i j (v ∷ vs) bitmap h fits =
      null_bitmap_keeps (suc i) j vs (if is_null v then mark i bitmap else bitmap) (omega arith)
        (omega (arith, step_length v i bitmap))
      ∙ step_keeps v i j bitmap (omega arith) (omega arith)

  pub length-null_bitmap :
      (i : ℕ) (vs : List (Value F T)) (bitmap : List ℕ)
      → length (null_bitmap i vs bitmap) ≡ length bitmap
  unfolding null_bitmap
  length-null_bitmap i [] bitmap = refl
  length-null_bitmap i (v ∷ vs) bitmap =
      length-null_bitmap (suc i) vs (if is_null v then mark i bitmap else bitmap)
      ∙ step_length v i bitmap

  -- The bits from column `i` on say which values are null.
  abbrev pub IsMarked : ℕ → List (Value F T) → List ℕ → Type 0
  IsMarked i [] bitmap = Unit {0}
  IsMarked i (v ∷ vs) bitmap = (is_marked bitmap i ≡ some (is_null v)) × IsMarked (suc i) vs bitmap

  step_marks :
      (v : Value F T) (i : ℕ) (bitmap : List ℕ)
      → i / 8 < length bitmap
      → is_marked bitmap i ≡ some false
      → is_marked (if is_null v then mark i bitmap else bitmap) i ≡ some (is_null v)
  step_marks v i bitmap h clear = elim (Bool-cases (is_null v)) [
    | inl e ↦ rw e (is_marked-mark_self i bitmap h)
    | inr e ↦ rw e clear
  ]

  null_bitmap-IsMarked :
      (i : ℕ) (vs : List (Value F T)) (bitmap : List ℕ)
      → i + length vs ≤ length bitmap * 8
      → ((j : ℕ) → i ≤ j → j < length bitmap * 8 → is_marked bitmap j ≡ some false)
      → IsMarked i vs (null_bitmap i vs bitmap)
  unfolding null_bitmap
  null_bitmap-IsMarked i [] bitmap fits clear = tt
  null_bitmap-IsMarked i (v ∷ vs) bitmap fits clear =
      let next = if is_null v then mark i bitmap else bitmap in
      let size = step_length v i bitmap in
      (
        null_bitmap_keeps (suc i) i vs next (omega arith) (omega (arith, size))
            ∙ step_marks v i bitmap (omega arith) (clear i (omega arith) (omega arith)),
        null_bitmap-IsMarked (suc i) vs next (omega (arith, size)) (λ j le lt.
            step_keeps v i j bitmap (omega arith) (omega arith)
            ∙ clear j (omega arith) (omega (arith, size))),
      )

  pub fresh_bitmap-IsMarked :
      (n : ℕ) (vs : List (Value F T))
      → length vs ≤ n * 8
      → IsMarked 0 vs (null_bitmap 0 vs (replicate n 0))
  unfolding is_marked
  fresh_bitmap-IsMarked n vs h =
      let size = length-replicate {A = ℕ} n 0 in
      null_bitmap-IsMarked 0 vs (replicate n 0) (omega (arith, size)) (λ j le lt.
        ap (λ (o : Option ℕ). o >>= λ b. some (bit (j % 8) b))
          (get_elem?-replicate n 0 (j / 8) (omega (arith, size)))
        ∙ ap some (bit_zero (j % 8)))
