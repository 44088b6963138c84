-- ===== src/BufferPool/Creations.antt =====
-- A page that is allocated comes into the pool.
use solidity_course_blockcha.Prelude.{
  ℕ, ◌<◌, ◌≤◌, ◌≡◌, refl, subst, inl, inr, true, Option, none, some, arith, Option-cases, get_elem?,
  get_elem?-lt,
}
use solidity_course_blockcha.BufferPool.Pool.{
  FrameHeader, BufferPool, DiskManager, Result, ok, raised, runtime_error,
}
use solidity_course_blockcha.BufferPool.Methods.{frame_of, then_install, place_new, new_page}
use solidity_course_blockcha.BufferPool.Victims.{
  Victim, picked, all_pinned, find_victim_frame-Victim,
}
use solidity_course_blockcha.BufferPool.Coherence.{without}
use solidity_course_blockcha.BufferPool.Keeps.{IsDisk, IsCoherent}
use solidity_course_blockcha.BufferPool.Evictions.{
  Evicted, evicted, evict-Evicted, install-IsCoherent, install_frame, searched-IsCoherent,
}

module _ {S P : Type 0} (d : DiskManager S P) (Sound : S → Type 0) (Good : P → Type 0)
    (laws : IsDisk d Sound Good) where
  open d use {page_id_of, num_pages, read_page, write_page, allocate_page}
  open laws use {read_id, readable, write_keeps, allocate_next}

  -- The pool after a page was allocated: the new page is in a frame that is pinned, or no frame was free.
  pub data Created (id : ℕ) : BufferPool S P × Result P → Type 0 where
    in_new_frame :
        (pool : BufferPool S P) (page : P) (i : ℕ) (h : FrameHeader)
        → IsCoherent d Sound Good pool
        → page_id_of page ≡ id
        → frame_of pool id ≡ some i
        → get_elem? pool.headers i ≡ some h
        → 0 < h.pin_count
        → Created id (pool, ok page)
    no_new_frame :
        (pool : BufferPool S P)
        → IsCoherent d Sound Good pool
        → Created id (pool, raised runtime_error)

  then_install-Created :
      (pool : BufferPool S P)
      → IsCoherent d Sound Good pool
      → (i : ℕ) (h : FrameHeader) → get_elem? pool.headers i ≡ some h
      → (page : P) → frame_of pool (page_id_of page) ≡ none
      → page_id_of page < num_pages pool.disk
      → Good page
      → (r : BufferPool S P × Result (Unit {0})) → Evicted d Sound Good laws pool i h.page_id r
      → Created (page_id_of page) (then_install d i page r)
  then_install-Created pool c i h g page absent small fine _ (evicted disk' frames' n s same keep) =
      let (f, h', g', pinned') =
        install_frame d Sound Good laws
          (record pool {
            disk = disk';
            frames = frames';
            page_table = without h.page_id pool.page_table;
            evictions = n;
          })
          i (page_id_of page) true page (get_elem?-lt pool.headers i h g) in
      in_new_frame _ page i h'
        (install-IsCoherent d Sound Good laws pool c i h g disk' frames' n (page_id_of page) true
          page s same keep absent refl small fine)
        refl f g' pinned'

  place_new-Created :
      (pool : BufferPool S P)
      → IsCoherent d Sound Good pool
      → (page : P) → frame_of pool (page_id_of page) ≡ none
      → page_id_of page < num_pages pool.disk
      → Good page
      → (r : BufferPool S P × Option ℕ) → Victim pool r
      → Created (page_id_of page) (place_new d page r)
  place_new-Created pool c page absent small fine _ (all_pinned after hand same) =
      no_new_frame _ (searched-IsCoherent d Sound Good laws pool after hand same c)
  place_new-Created pool c page absent small fine _ (picked after hand i h same g free) =
      let pool' = record pool { headers = after; clock_hand = hand } in
      let c' = searched-IsCoherent d Sound Good laws pool after hand same c in
      rw g (
        then_install-Created pool' c' i h g page absent small fine _
          (evict-Evicted d Sound Good laws pool' c' i h g))

  -- A page past the end of the disk is in no frame.
  absent_past :
      (pool : BufferPool S P)
      → IsCoherent d Sound Good pool
      → (id : ℕ) → num_pages pool.disk ≤ id
      → frame_of pool id ≡ none
  absent_past pool c id past = elim (Option-cases (frame_of pool id)) [
    | inl e ↦ e
    | inr (i, e) ↦
        (let small = c.on_disk id i ((c.coherent).to_frame id i e) in absurd (omega arith))
  ]

  -- While the disk has capacity, a new page gets an id that no page of the pool has, and a frame in which it is pinned, unless the
  -- pool raises for want of a frame; in both cases the pool stays coherent.
  pub new_page-Created :
      (pool : BufferPool S P)
      → IsCoherent d Sound Good pool
      → num_pages pool.disk < laws.capacity
      → Created (num_pages pool.disk) (new_page d pool)
  unfolding new_page
  new_page-Created pool c space =
      let a = allocate_next pool.disk c.sound space in
      let pool' = record pool { disk = a.disk' } in
      let more = a.one_more in
      let c' : IsCoherent d Sound Good pool' = record {
        coherent = c.coherent;
        sound = a.sound';
        on_disk = λ id i e. (let small = c.on_disk id i e in omega arith);
        good = c.good;
      } in
      let next = a.next_id in
      subst (λ id. Created id (new_page d pool)) next
        (rw (a.returns, new_page)
          (place_new-Created pool' c' a.page (absent_past pool c _ (omega arith)) (omega arith)
            a.good' _ (find_victim_frame-Victim pool')))
