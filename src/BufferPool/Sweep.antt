-- ===== src/BufferPool/Sweep.antt =====
-- The clock sweep ends with a frame whenever one is not pinned.
use solidity_course_blockcha.Prelude.{
  ℕ, zero, suc, ◌+◌, ◌*◌, ◌%◌, ◌-◌, ap₂, map, ◌<◌, ◌≡◌, ◌≢◌, ◌⊎◌, refl, ap, ◌∙◌, inl, inr, Bool,
  true, false, Option, none, some, List, [], ◌∷◌, ◌==◌, arith, Bool-cases, Option-cases, dec_lt,
  dec_le, if◌then◌else◌, ℕ_discrete, length, get_elem?, set, length-set, get_elem?-set_self,
  get_elem?-set_ne, get_elem?-lt, get_elem?-some, ==-true→eq,
}
use native.Mathlib.Nat.{mod-eq_of_lt, mod_self}
use solidity_course_blockcha.BufferPool.Pool.{FrameHeader, sweep}

-- What the sweep leaves alone in a header: all but the reference bit.
abbrev pub core : FrameHeader → Option ℕ × ℕ × Bool
core h = (h.page_id, h.pin_count, h.is_dirty)

-- The sweep changes reference bits only, and a frame that it gives is not pinned.
pub data Swept (headers : List FrameHeader) : List FrameHeader × ℕ × Option ℕ → Type 0 where
  found :
      (after : List FrameHeader) (hand i : ℕ) (h : FrameHeader)
      → map core after ≡ map core headers
      → get_elem? after i ≡ some h
      → h.pin_count ≡ 0
      → Swept headers (after, hand, some i)
  exhausted :
      (after : List FrameHeader) (hand : ℕ)
      → map core after ≡ map core headers
      → Swept headers (after, hand, none)

core-set :
    (headers : List FrameHeader) (i : ℕ) (h h' : FrameHeader)
    → get_elem? headers i ≡ some h
    → core h' ≡ core h
    → map core (set headers i h') ≡ map core headers
core-set [] i h h' g e = refl
core-set (x ∷ xs) zero h h' g e = let same : h ≡ x = cc in ap₂ ◌∷◌ (e ∙ ap core same) refl
core-set (x ∷ xs) (suc i) h h' g e = ap (◌∷◌ (core x)) (core-set xs i h h' g e)

Swept-from :
    (headers headers' : List FrameHeader) {r : List FrameHeader × ℕ × Option ℕ}
    → map core headers' ≡ map core headers
    → Swept headers' r
    → Swept headers r
Swept-from headers headers' e (found after hand i h c g p) = found after hand i h (c ∙ e) g p
Swept-from headers headers' e (exhausted after hand c) = exhausted after hand (c ∙ e)

pub sweep-Swept :
    (rounds size : ℕ) (headers : List FrameHeader) (hand : ℕ)
    → Swept headers (sweep rounds size headers hand)
unfolding sweep
sweep-Swept zero size headers hand = exhausted headers hand refl
sweep-Swept (suc rounds) size headers hand = elim (Option-cases (get_elem? headers hand)) [
  | inl e ↦ rw (e, sweep) (exhausted headers hand refl)
  | inr (h, e) ↦ elim (Bool-cases (h.pin_count == 0)) [
    | inr b ↦ rw (e, sweep) (rw (b, sweep) (sweep-Swept rounds size headers ((hand + 1) % size)))
    | inl b ↦ elim (Bool-cases h.ref_bit) [
      | inr r ↦
          rw (e, sweep)
            (rw (b, sweep)
              (rw (r, sweep) (found headers _ hand h refl e (==-true→eq h.pin_count 0 b))))
      | inl r ↦
          rw (e, sweep)
            (rw (b, sweep)
              (rw (r, sweep)
                (Swept-from headers _ (core-set headers hand h _ e refl) (
                  sweep-Swept rounds size (set headers hand (record h { ref_bit = false }))
                    ((hand + 1) % size)))))
    ]
  ]
]

-- The hand moves on by one, from the last frame to the first.
turn :
    (hand size : ℕ)
    → hand < size
    → (((hand + 1) % size ≡ hand + 1) × (hand + 1 < size))
      ⊎ (((hand + 1) % size ≡ 0) × (hand + 1 ≡ size))
turn hand size h = elim (dec_lt (hand + 1) size) [
  | yes p ↦ inl (mod-eq_of_lt p, p)
  | no p ↦ let e : hand + 1 ≡ size = omega arith in inr (rw e (mod_self size), e)
]

-- Frame `u` is `d` steps ahead of the hand.
abbrev Ahead : ℕ → ℕ → ℕ → ℕ → Type 0
Ahead size hand d u = (hand + d ≡ u) ⊎ (hand + d ≡ u + size)

Ahead-turn :
    (size hand d u : ℕ)
    → hand < size
    → u < size
    → d < size
    → hand ≢ u
    → Ahead size hand d u
    → ((hand + 1) % size < size) × (0 < d) × Ahead size ((hand + 1) % size) (d - 1) u
Ahead-turn size hand d u h k l ne a = ground (arith, turn hand size h)

Ahead-round :
    (size hand : ℕ)
    → hand < size
    → ((hand + 1) % size < size) × Ahead size ((hand + 1) % size) (size - 1) hand
Ahead-round size hand h = ground (arith, turn hand size h)

abbrev steps_to : FrameHeader → ℕ → ℕ → ℕ
steps_to h size d = if h.ref_bit then d + size else d

-- With a frame `u` that is not pinned, and rounds enough to reach it, twice if its bit is set, the
-- sweep gives a frame.
sweep_reaches :
    (rounds size : ℕ) (headers : List FrameHeader) (hand u d : ℕ) (h : FrameHeader)
    → length headers ≡ size
    → hand < size
    → u < size
    → d < size
    → Ahead size hand d u
    → get_elem? headers u ≡ some h
    → h.pin_count ≡ 0
    → steps_to h size d < rounds
    → (i : ℕ) × ((sweep rounds size headers hand).2 ≡ some i)
unfolding sweep
sweep_reaches zero size headers hand u d h l p q r a g z m = absurd (omega arith)
sweep_reaches (suc rounds) size headers hand u d h l p q r a g z m = elim (ℕ_discrete hand u) [
  | yes same ↦
      let e : get_elem? headers hand ≡ some h = rw same g in
      let b : (h.pin_count == 0) ≡ true = ground arith in
      elim (Bool-cases h.ref_bit) [
        | inr f ↦ (hand, rw (e, sweep) (rw (b, sweep) (rw (f, sweep))))
        | inl f ↦
            let (p', a') = Ahead-round size hand p in
            let (i, done) =
              sweep_reaches rounds size (set headers hand (record h { ref_bit = false }))
                ((hand + 1) % size) hand (size - 1) (record h { ref_bit = false })
                (length-set headers hand _ ∙ l) p' p (omega arith) a'
                (get_elem?-set_self headers hand _ (omega arith)) z (ground arith) in
            (i, rw (e, sweep) (rw (b, sweep) (rw (f, sweep) done)))
      ]
  | no ne ↦
      let (x, e) = get_elem?-some headers hand (omega arith) in
      let (p', pos, a') = Ahead-turn size hand d u p q r ne a in
      elim (Bool-cases (x.pin_count == 0)) [
        | inr b ↦
            let (i, done) =
              sweep_reaches rounds size headers ((hand + 1) % size) u (d - 1) h l p' q (omega arith)
                a' g z (ground arith) in
            (i, rw (e, sweep) (rw (b, sweep) done))
        | inl b ↦ elim (Bool-cases x.ref_bit) [
          | inr f ↦ (hand, rw (e, sweep) (rw (b, sweep) (rw (f, sweep))))
          | inl f ↦
              let (i, done) =
                sweep_reaches rounds size (set headers hand (record x { ref_bit = false }))
                  ((hand + 1) % size) u (d - 1) h (length-set headers hand _ ∙ l) p' q (omega arith)
                  a' (get_elem?-set_ne headers hand u _ ne ∙ g) z (ground arith) in
              (i, rw (e, sweep) (rw (b, sweep) (rw (f, sweep) done)))
        ]
      ]
]

distance : (size hand u : ℕ) → hand < size → u < size → (d : ℕ) × (d < size) × Ahead size hand d u
distance size hand u p q = elim (dec_le hand u) [
  | yes h ↦ (u - hand, omega arith, inl (omega arith))
  | no h ↦ (u + size - hand, omega arith, inr (omega arith))
]

steps_le : (h : FrameHeader) (size d : ℕ) → d < size → steps_to h size d < 2 * size
steps_le h size d q = ground arith

-- Twice the number of frames is rounds enough: while any frame is not pinned, the clock sweep gives
-- a frame.
pub sweep_finds :
    (headers : List FrameHeader) (hand u : ℕ) (h : FrameHeader)
    → hand < length headers
    → get_elem? headers u ≡ some h
    → h.pin_count ≡ 0
    → (i : ℕ) × ((sweep (2 * length headers) (length headers) headers hand).2 ≡ some i)
sweep_finds headers hand u h p g z =
    let q = get_elem?-lt headers u h g in
    let (d, r, a) = distance (length headers) hand u p q in
    sweep_reaches (2 * length headers) (length headers) headers hand u d h refl p q r a g z
      (steps_le h (length headers) d r)
