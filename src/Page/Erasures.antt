-- ===== src/Page/Erasures.antt =====
-- The records that a compaction has still to move: their slots are left out of account.
use solidity_course_blockcha.Prelude.{
  ℕ, zero, suc, ◌+◌, ◌<◌, ◌≤◌, ◌≡◌, ◌≢◌, ◌⊎◌, refl, ap, sym, subst, ◌∙◌, inl, inr, false, Option,
  none, some, List, [], ◌∷◌, Bool-cases, ==-true→eq, ==-false→ne, arith, ℕ_discrete, length,
  length-set, length-take, length-drop, drop, get_elem?, get_elem?-set_ne, set, slice,
}
use solidity_course_blockcha.Page.Header.{SlotEntry, is_deleted}
use solidity_course_blockcha.Page.Records.{live_slot, live_from}
use solidity_course_blockcha.Page.Layout.{Live}
use solidity_course_blockcha.Page.Accounts.{total}

abbrev pub gone : SlotEntry
gone = record { offset = 0; size = 0 }

abbrev pub erase : List (ℕ × List ℕ) → List SlotEntry → List SlotEntry
erase [] slots = slots
erase ((i, r) ∷ rs) slots = erase rs (set slots i gone)

-- The indices grow, from `k` on.
abbrev pub Ascending : ℕ → List (ℕ × List ℕ) → Type 0
Ascending k [] = Unit {0}
Ascending k ((i, r) ∷ rs) = (k ≤ i) × Ascending (suc i) rs

abbrev pub In : ℕ → List (ℕ × List ℕ) → Type 0
In j [] = ⊥
In j ((i, r) ∷ rs) = (i ≡ j) ⊎ In j rs

abbrev pub sum_length : List (ℕ × List ℕ) → ℕ
sum_length [] = 0
sum_length ((i, r) ∷ rs) = length r + sum_length rs

gone_dead : (xs : List SlotEntry) (k : ℕ) → live_slot (get_elem? (set xs k gone) k) ≡ none
gone_dead [] k = refl
gone_dead (x ∷ xs) zero = refl
gone_dead (x ∷ xs) (suc k) = gone_dead xs k

set_local :
    (xs ys : List SlotEntry) (i : ℕ)
    → length xs ≡ length ys
    → get_elem? (set xs i gone) i ≡ get_elem? (set ys i gone) i
set_local [] [] i h = refl
set_local [] (y ∷ ys) i h = absurd (omega arith)
set_local (x ∷ xs) [] i h = absurd (omega arith)
set_local (x ∷ xs) (y ∷ ys) zero h = refl
set_local (x ∷ xs) (y ∷ ys) (suc i) h = set_local xs ys i (omega arith)

-- An erasure looks at each slot for itself.
pub erase_local :
    (rs : List (ℕ × List ℕ)) (slots slots' : List SlotEntry) (j : ℕ)
    → length slots ≡ length slots'
    → get_elem? slots j ≡ get_elem? slots' j
    → get_elem? (erase rs slots) j ≡ get_elem? (erase rs slots') j
erase_local [] slots slots' j n h = h
erase_local ((i, r) ∷ rs) slots slots' j n h =
    erase_local rs (set slots i gone) (set slots' i gone) j
      (length-set slots i gone ∙ n ∙ sym (length-set slots' i gone))
      (elim (ℕ_discrete i j) [
        | no ne ↦ get_elem?-set_ne slots i j gone ne ∙ h ∙ sym (get_elem?-set_ne slots' i j gone ne)
        | yes e ↦ rw (← e) (set_local slots slots' i n)
      ])

pub erase_before :
    (rs : List (ℕ × List ℕ)) (slots : List SlotEntry) (k j : ℕ)
    → Ascending k rs
    → j < k
    → get_elem? (erase rs slots) j ≡ get_elem? slots j
erase_before [] slots k j a h = refl
erase_before ((i, r) ∷ rs) slots k j (le, a) h =
    erase_before rs (set slots i gone) (suc i) j a (omega arith)
    ∙ get_elem?-set_ne slots i j gone (λ e. absurd (omega arith))

pub erase_dead :
    (rs : List (ℕ × List ℕ)) (slots : List SlotEntry) (j : ℕ)
    → live_slot (get_elem? slots j) ≡ none
    → live_slot (get_elem? (erase rs slots) j) ≡ none
erase_dead [] slots j h = h
erase_dead ((i, r) ∷ rs) slots j h = erase_dead rs (set slots i gone) j (elim (ℕ_discrete i j) [
  | no ne ↦ ap live_slot (get_elem?-set_ne slots i j gone ne) ∙ h
  | yes e ↦ rw (← e) (gone_dead slots i)
])

pub erase-In :
    (rs : List (ℕ × List ℕ)) (slots : List SlotEntry) (j : ℕ)
    → In j rs
    → live_slot (get_elem? (erase rs slots) j) ≡ none
erase-In [] slots j h = absurd h
erase-In ((i, r) ∷ rs) slots j (inr h) = erase-In rs (set slots i gone) j h
erase-In ((i, r) ∷ rs) slots j (inl e) =
    erase_dead rs (set slots i gone) j (rw (← e) (gone_dead slots i))

-- The records of live slots, their indices from `k` on.
pub live_from-Ascending :
    (k : ℕ) (bytes : List ℕ) (slots : List SlotEntry) → Ascending k (live_from k bytes slots)
unfolding live_from
live_from-Ascending k bytes [] = tt
live_from-Ascending k bytes (s ∷ slots) = elim (Bool-cases (is_deleted s)) [
  | inl b ↦
      rw (b, live_from)
        (weaker (live_from (suc k) bytes slots) (live_from-Ascending (suc k) bytes slots))
  | inr b ↦ rw (b, live_from) (omega arith, live_from-Ascending (suc k) bytes slots)
]
  where
    weaker : (rs : List (ℕ × List ℕ)) → Ascending (suc k) rs → Ascending k rs
    weaker [] a = tt
    weaker ((i, r) ∷ rs) (le, a) = (omega arith, a)

pub live_from-In :
    (k : ℕ) (bytes : List ℕ) (slots : List SlotEntry) (j : ℕ) (s : SlotEntry)
    → Live slots j s
    → In (k + j) (live_from k bytes slots)
unfolding live_from
live_from-In k bytes [] j s h = cc
live_from-In k bytes (x ∷ slots) zero s h =
    let b : is_deleted x ≡ false = ground arith in rw (b, live_from) (inl (omega arith))
live_from-In k bytes (x ∷ slots) (suc j) s h =
    let shift : suc k + j ≡ k + suc j = omega arith in
    let rest =
      subst (λ (n : ℕ). In n (live_from (suc k) bytes slots)) shift
        (live_from-In (suc k) bytes slots j s h) in
    elim (Bool-cases (is_deleted x)) [
      | inl b ↦ rw (b, live_from) rest
      | inr b ↦ rw (b, live_from) (inr rest)
    ]

-- What is known of a record that is still to be moved: the size of its slot, and its content.
abbrev pub Pending : (ℕ → List ℕ) → List ℕ → List (ℕ × List ℕ) → Type 0
Pending content sizes [] = Unit {0}
Pending content sizes ((i, r) ∷ rs) =
    (get_elem? sizes i ≡ some (length r))
    × (0 < length r)
    × (content i ≡ r)
    × Pending content sizes rs

abbrev pub sizes_of : List SlotEntry → List ℕ
sizes_of [] = []
sizes_of (s ∷ slots) = s.size ∷ sizes_of slots

abbrev pub contents : List ℕ → Option SlotEntry → List ℕ
contents bytes none = []
contents bytes (some s) = slice bytes s.offset s.size

-- The bytes of a slot are as many as its size says.
abbrev pub InPage : List ℕ → List SlotEntry → Type 0
InPage bytes [] = Unit {0}
InPage bytes (s ∷ slots) = ((s.size ≢ 0) → s.offset + s.size ≤ length bytes) × InPage bytes slots

length-slice :
    (bytes : List ℕ) (s : SlotEntry)
    → s.offset + s.size ≤ length bytes
    → length (slice bytes s.offset s.size) ≡ s.size
length-slice bytes s h =
    omega (arith, length-take s.size (drop s.offset bytes), length-drop s.offset bytes)

pub live_from-Pending :
    (content : ℕ → List ℕ) (sizes : List ℕ) (k : ℕ) (bytes : List ℕ) (slots : List SlotEntry)
    → InPage bytes slots
    → ((j : ℕ) (s : SlotEntry)
        → get_elem? slots j ≡ some s
        → (get_elem? sizes (k + j) ≡ some s.size) × (content (k + j) ≡ slice bytes s.offset s.size))
    → Pending content sizes (live_from k bytes slots)
      × (sum_length (live_from k bytes slots) ≡ total slots)
unfolding live_from
live_from-Pending content sizes k bytes [] inside at = (tt, refl)
live_from-Pending content sizes k bytes (s ∷ slots) (in_s, inside) at =
    let (rest, sum) = live_from-Pending content sizes (suc k) bytes slots inside (λ j t h.
      (let shift : k + suc j ≡ suc k + j = omega arith in
        subst
          (λ (n : ℕ). (get_elem? sizes n ≡ some t.size) × (content n ≡ slice bytes t.offset t.size))
          shift (at (suc j) t h))) in
    let (size, is) = at 0 s refl in
    let first : k + 0 ≡ k = omega arith in
    elim (Bool-cases (is_deleted s)) [
      | inl b ↦ rw (b, live_from) (rest, (let z = ==-true→eq _ _ b in omega arith))
      | inr b ↦
          let z = ==-false→ne _ _ b in
          let n = length-slice bytes s (in_s z) in
          rw (b, live_from)
            (
              (
                ap (get_elem? sizes) (sym first) ∙ size ∙ ap some (sym n),
                omega arith,
                ap content (sym first) ∙ is,
                rest,
              ),
              omega arith,
            )
    ]
