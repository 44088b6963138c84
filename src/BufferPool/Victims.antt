-- ===== src/BufferPool/Victims.antt =====
-- The frame that a new page goes into: one that holds no page, or one that is not pinned.
use solidity_course_blockcha.Prelude.{
  ℕ, suc, ◌+◌, ◌*◌, ◌<◌, ◌≡◌, ◌⊎◌, refl, sym, subst, inl, inr, Option, none, some, List, [], ◌∷◌,
  map, arith, Option-cases, length, get_elem?,
}
use solidity_course_blockcha.BufferPool.Pool.{
  FrameHeader, BufferPool, first_empty, find_victim_frame,
}
use solidity_course_blockcha.BufferPool.Sweep.{
  core, Swept, found, exhausted, sweep-Swept, sweep_finds,
}

-- The search changes reference bits and the hand only, and a frame that it gives can be taken.
pub data Victim {S P : Type 0} (pool : BufferPool S P) : BufferPool S P × Option ℕ → Type 0 where
  picked :
      (after : List FrameHeader) (hand i : ℕ) (h : FrameHeader)
      → map core after ≡ map core pool.headers
      → get_elem? after i ≡ some h
      → (h.page_id ≡ none) ⊎ (h.pin_count ≡ 0)
      → Victim pool (record pool { headers = after; clock_hand = hand }, some i)
  all_pinned :
      (after : List FrameHeader) (hand : ℕ)
      → map core after ≡ map core pool.headers
      → Victim pool (record pool { headers = after; clock_hand = hand }, none)

first_empty-get_elem? :
    (k : ℕ) (headers : List FrameHeader) (i : ℕ)
    → first_empty k headers ≡ some i
    → (j : ℕ) × (h : FrameHeader) × (i ≡ k + j)
      × (get_elem? headers j ≡ some h)
      × (h.page_id ≡ none)
unfolding first_empty
first_empty-get_elem? k [] i e = cc
first_empty-get_elem? k (h ∷ hs) i e = elim (Option-cases h.page_id) [
  | inl free ↦ (0, h, ground arith, refl, free)
  | inr (id, full) ↦
      let (j, h', at, g, free) = first_empty-get_elem? (suc k) hs i (ground arith) in
      (suc j, h', omega arith, g, free)
]

Victim-Swept :
    {S P : Type 0} (pool : BufferPool S P) (r : List FrameHeader × ℕ × Option ℕ)
    → Swept pool.headers r
    → Victim pool (record pool { headers = r.0; clock_hand = r.1 }, r.2)
Victim-Swept pool _ (found after hand i h c g z) = picked after hand i h c g (inr z)
Victim-Swept pool _ (exhausted after hand c) = all_pinned after hand c

pub find_victim_frame-Victim :
    {S P : Type 0} (pool : BufferPool S P) → Victim pool (find_victim_frame pool)
unfolding find_victim_frame
find_victim_frame-Victim pool = elim (Option-cases (first_empty 0 pool.headers)) [
  | inl e ↦
      rw (e, find_victim_frame)
        (Victim-Swept pool _
          (sweep-Swept (2 * pool.pool_size) pool.pool_size pool.headers pool.clock_hand))
  | inr (i, e) ↦
      let (j, h, at, g, free) = first_empty-get_elem? 0 pool.headers i e in
      rw (e, find_victim_frame)
        (picked pool.headers pool.clock_hand i h refl
          (subst (λ k. get_elem? pool.headers k ≡ some h) (let back : j ≡ i = omega arith in back)
            g)
          (inl free))
]

-- While a frame is empty or not pinned, the pool finds a frame to take: it raises only when every
-- page is in use.
pub find_victim_frame_finds :
    {S P : Type 0} (pool : BufferPool S P) (u : ℕ) (h : FrameHeader)
    → length pool.headers ≡ pool.pool_size
    → pool.clock_hand < pool.pool_size
    → get_elem? pool.headers u ≡ some h
    → h.pin_count ≡ 0
    → (i : ℕ) × ((find_victim_frame pool).1 ≡ some i)
unfolding find_victim_frame
find_victim_frame_finds pool u h size hand g z = elim (Option-cases (first_empty 0 pool.headers)) [
  | inl e ↦
      let (i, done) = sweep_finds pool.headers pool.clock_hand u h (omega arith) g z in
      (i, rw (e, find_victim_frame) (rw (sym size) done))
  | inr (i, e) ↦ (i, rw (e, find_victim_frame))
]
