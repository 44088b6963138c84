-- ===== src/BufferPool/Evictions.antt =====
-- A page that comes into the pool takes the frame of another, and the pool stays coherent.
use solidity_course_blockcha.Prelude.{
  ℕ, zero, suc, ◌+◌, ◌<◌, ◌≡◌, refl, ap, sym, subst, ◌∙◌, inl, inr, Bool, true, false, Option, none,
  some, List, [], ◌∷◌, map, arith, ℕ_discrete, Option-cases, length, get_elem?, set,
  get_elem?-set_self, get_elem?-lt,
}
use solidity_course_blockcha.Prelude.Dict
use solidity_course_blockcha.Prelude.Dict.{get-put_self}
use solidity_course_blockcha.BufferPool.Pool.{
  FrameHeader, BufferPool, DiskManager, Result, ok, raised, runtime_error,
}
use solidity_course_blockcha.BufferPool.Methods.{
  frame_of, page_at, header_at, pinned, install, write_back, then_drop, evict, load, then_load,
  fetch_into, fetch_hit, fetch_page,
}
use solidity_course_blockcha.BufferPool.Sweep.{core}
use solidity_course_blockcha.BufferPool.Victims.{
  Victim, picked, all_pinned, find_victim_frame-Victim,
}
use solidity_course_blockcha.BufferPool.Coherence.{
  Coherent, without, clear, fill, set-cases, some_eq,
}
use solidity_course_blockcha.BufferPool.Keeps.{
  residents, residents-set, residents-get_elem?, residents_keep, residents-core, set_twice,
  absent_without, IsDisk, Agrees, IsCoherent,
}

module _ {S P : Type 0} (d : DiskManager S P) (Sound : S → Type 0) (Good : P → Type 0)
    (laws : IsDisk d Sound Good) where
  open d use {page_id_of, num_pages, read_page, write_page, allocate_page}
  open laws use {read_id, readable, write_keeps, allocate_next}

  -- What an eviction leaves: the disk, of the same number of pages, the frames, with another page in
  -- frame `i` at most, and the table without the page.
  pub data Evicted (pool : BufferPool S P) (i : ℕ) (old : Option ℕ)
      : BufferPool S P × Result (Unit {0}) → Type 0 where
    evicted :
        (disk' : S) (frames' : List (Option P)) (n : ℕ)
        → Sound disk'
        → num_pages disk' ≡ num_pages pool.disk
        → ((x : Option P) → set frames' i x ≡ set pool.frames i x)
        → Evicted pool i old (
          record pool {
            disk = disk';
            frames = frames';
            page_table = without old pool.page_table;
            evictions = n;
          },
          ok tt,
        )

  data WroteBack (pool : BufferPool S P) (i : ℕ) : BufferPool S P × Result (Unit {0}) → Type 0 where
    wrote_back :
        (disk' : S) (frames' : List (Option P))
        → Sound disk'
        → num_pages disk' ≡ num_pages pool.disk
        → ((x : Option P) → set frames' i x ≡ set pool.frames i x)
        → WroteBack pool i (record pool { disk = disk'; frames = frames' }, ok tt)

  -- The page of a resident frame can be written back.
  write_back_keeps :
      (pool : BufferPool S P)
      → IsCoherent d Sound Good pool
      → (i id : ℕ) → get_elem? (residents pool.headers) i ≡ some (some id)
      → (dirty : Bool) → WroteBack pool i (write_back d dirty (page_at pool i) i pool)
  write_back_keeps pool c i id at false = wrote_back pool.disk pool.frames c.sound refl (λ x. refl)
  write_back_keeps pool c i id at true =
      let (page, f, e) = (c.coherent).holds id i at in
      let small : page_id_of page < num_pages pool.disk = rw e (c.on_disk id i at) in
      let w = write_keeps page pool.disk c.sound (c.good i page f) small in
      rw f (
        rw w.returns (
          wrote_back w.disk' (set pool.frames i (some w.page')) w.sound' w.same_number
            (λ x. set_twice pool.frames i (some w.page') x)))

  dropped-Evicted :
      (pool : BufferPool S P) (i id j : ℕ)
      → frame_of pool id ≡ some j
      → (r : BufferPool S P × Result (Unit {0})) → WroteBack pool i r
      → Evicted pool i (some id) (then_drop d id r)
  dropped-Evicted pool i id j at _ (wrote_back disk' frames' s n keep) =
      rw (at, then_drop) (evicted disk' frames' _ s n keep)

  pub evict-Evicted :
      (pool : BufferPool S P)
      → IsCoherent d Sound Good pool
      → (i : ℕ) (h : FrameHeader) → get_elem? pool.headers i ≡ some h
      → Evicted pool i h.page_id (evict d i h pool)
  unfolding evict
  evict-Evicted pool c i h g = elim (Option-cases h.page_id) [
    | inl e ↦ rw (e, evict) (evicted pool.disk pool.frames pool.evictions c.sound refl (λ x. refl))
    | inr (id, e) ↦
        let at : get_elem? (residents pool.headers) i ≡ some (some id) =
          residents-get_elem? pool.headers i h g ∙ ap some e in
        rw (e, evict)
          (dropped-Evicted pool i id i ((c.coherent).to_table id i at) _
            (write_back_keeps pool c i id at h.is_dirty))
  ]

  set_good :
      (frames : List (Option P))
      → ((i : ℕ) (page : P) → get_elem? frames i ≡ some (some page) → Good page)
      → (i : ℕ) (page : P) → Good page
      → (j : ℕ) (q : P) → get_elem? (set frames i (some page)) j ≡ some (some q)
      → Good q
  set_good frames all i page fine j q h = elim (set-cases frames i j (some page) (some q) h) [
    | inl (_, v) ↦ subst Good (some_eq v) fine
    | inr (_, h') ↦ all j q h'
  ]

  -- A page that the table does not have takes the evicted frame.
  pub install-IsCoherent :
      (pool : BufferPool S P)
      → IsCoherent d Sound Good pool
      → (i : ℕ) (h : FrameHeader) → get_elem? pool.headers i ≡ some h
      → (disk' : S) (frames' : List (Option P)) (n id : ℕ) (dirty : Bool) (page : P) → Sound disk'
      → num_pages disk' ≡ num_pages pool.disk
      → ((x : Option P) → set frames' i x ≡ set pool.frames i x)
      → frame_of pool id ≡ none
      → page_id_of page ≡ id
      → id < num_pages pool.disk
      → Good page
      → IsCoherent d Sound Good (
          install i id dirty page (record pool {
            disk = disk';
            frames = frames';
            page_table = without h.page_id pool.page_table;
            evictions = n;
          }))
  unfolding install
  install-IsCoherent pool c i h g disk' frames' n id dirty page s same keep absent e small fine =
      let at = residents-get_elem? pool.headers i h g in
      let cleared = clear page_id_of _ _ _ c.coherent i h.page_id at in
      let free : get_elem? (set (residents pool.headers) i none) i ≡ some none =
        get_elem?-set_self (residents pool.headers) i none (get_elem?-lt _ i _ at) in
      let filled =
        fill page_id_of _ _ _ cleared i id page free
          (absent_without h.page_id pool.page_table id absent) e in
      let filled' : Coherent page_id_of (set (residents pool.headers) i (some id))
          (set pool.frames i (some page))
          (Dict.put ℕ_discrete (without h.page_id pool.page_table) id i) =
        rw (← set_twice (residents pool.headers) i none (some id))
          (rw (← set_twice pool.frames i none (some page)) filled) in
      rw
        (
          keep (some page),
          residents-set pool.headers i (record {
            page_id = some id;
            pin_count = 1;
            is_dirty = dirty;
            ref_bit = true;
            lsn = 0;
          }),
        )
        (record {
          coherent = filled';
          sound = s;
          on_disk = λ k j r. elim (set-cases (residents pool.headers) i j (some id) (some k) r) [
            | inl (_, v) ↦ (let is : id ≡ k = some_eq v in omega arith)
            | inr (_, r') ↦ (let less = c.on_disk k j r' in omega arith)
          ];
          good = set_good pool.frames c.good i page fine;
        })

  -- The pool after a page was asked for: the page returned is the one in the frame that the table has
  -- for the id, which is pinned; or no frame was free.
  pub data Fetched (id : ℕ) : BufferPool S P × Result (Option P) → Type 0 where
    in_frame :
        (pool : BufferPool S P) (page : P) (i : ℕ) (h : FrameHeader)
        → IsCoherent d Sound Good pool
        → page_id_of page ≡ id
        → frame_of pool id ≡ some i
        → get_elem? pool.headers i ≡ some h
        → 0 < h.pin_count
        → get_elem? pool.frames i ≡ some (some page)
        → Fetched id (pool, ok (some page))
    no_frame :
        (pool : BufferPool S P)
        → IsCoherent d Sound Good pool
        → Fetched id (pool, raised runtime_error)

  pub residents_back :
      (hs : List FrameHeader) (i : ℕ) (r : Option ℕ)
      → get_elem? (residents hs) i ≡ some r
      → (h : FrameHeader) × (get_elem? hs i ≡ some h)
  residents_back [] i r e = cc
  residents_back (x ∷ xs) zero r e = (x, refl)
  residents_back (x ∷ xs) (suc i) r e = residents_back xs i r e

  fetch_hit-Fetched :
      (pool : BufferPool S P)
      → IsCoherent d Sound Good pool
      → (id i : ℕ) → frame_of pool id ≡ some i
      → Fetched id (fetch_hit i pool)
  unfolding fetch_hit
  fetch_hit-Fetched pool c id i e =
      let at = (c.coherent).to_frame id i e in
      let (page, f, same) = (c.coherent).holds id i at in
      let (h, g) = residents_back pool.headers i (some id) at in
      rw f (
        in_frame _ page i (pinned (header_at pool i))
          (subst (λ ids. Agrees d Sound Good ids pool.frames pool.page_table pool.disk)
            (sym (residents_keep pool.headers i (pinned (header_at pool i)) refl)) c)
          same e (get_elem?-set_self pool.headers i _ (get_elem?-lt pool.headers i h g))
          (omega arith) f)

  -- The page is in its frame, pinned.
  pub install_frame :
      (pool : BufferPool S P) (i id : ℕ) (dirty : Bool) (page : P)
      → i < length pool.headers
      → (frame_of (install i id dirty page pool) id ≡ some i)
        × (h : FrameHeader) × (get_elem? (install i id dirty page pool).headers i ≡ some h)
        × (0 < h.pin_count)
  unfolding install
  install_frame pool i id dirty page l = (
    get-put_self ℕ_discrete pool.page_table id i,
    _,
    get_elem?-set_self pool.headers i _ l,
    omega arith,
  )

  then_load-Fetched :
      (pool : BufferPool S P)
      → IsCoherent d Sound Good pool
      → (i : ℕ) (h : FrameHeader) → get_elem? pool.headers i ≡ some h
      → (id : ℕ) → frame_of pool id ≡ none
      → id < num_pages pool.disk
      → (r : BufferPool S P × Result (Unit {0})) → Evicted pool i h.page_id r
      → Fetched id (then_load d id i r)
  unfolding load install
  then_load-Fetched pool c i h g id absent small _ (evicted disk' frames' n s same keep) =
      let (page, e) = readable id disk' s (omega arith) in
      let (is, _, fine) = read_id id disk' page s e in
      let at = residents-get_elem? pool.headers i h g in
      let inside : i < length pool.frames =
        omega (arith, get_elem?-lt (residents pool.headers) i _ at, (c.coherent).same_size) in
      let (f, h', g', pinned') =
        install_frame
          (record pool {
            disk = disk';
            frames = frames';
            page_table = without h.page_id pool.page_table;
            evictions = n;
          })
          i id false page (get_elem?-lt pool.headers i h g) in
      rw (e, load)
        (in_frame _ page i h'
          (install-IsCoherent pool c i h g disk' frames' n id false page s same keep absent is small
            fine)
          is f g' pinned'
          (ap (λ fs. get_elem? fs i) (keep (some page))
            ∙ get_elem?-set_self pool.frames i (some page) inside))

  -- The search for a frame leaves a coherent pool coherent.
  pub searched-IsCoherent :
      (pool : BufferPool S P) (after : List FrameHeader) (hand : ℕ)
      → map core after ≡ map core pool.headers
      → IsCoherent d Sound Good pool
      → IsCoherent d Sound Good (record pool { headers = after; clock_hand = hand })
  searched-IsCoherent pool after hand same c = rw (residents-core after pool.headers same) c

  fetch_into-Fetched :
      (pool : BufferPool S P)
      → IsCoherent d Sound Good pool
      → (id : ℕ) → frame_of pool id ≡ none
      → id < num_pages pool.disk
      → (r : BufferPool S P × Option ℕ) → Victim pool r
      → Fetched id (fetch_into d id r)
  fetch_into-Fetched pool c id absent small _ (all_pinned after hand same) =
      no_frame _ (searched-IsCoherent pool after hand same c)
  fetch_into-Fetched pool c id absent small _ (picked after hand i h same g free) =
      let pool' = record pool { headers = after; clock_hand = hand } in
      let c' = searched-IsCoherent pool after hand same c in
      rw g (then_load-Fetched pool' c' i h g id absent small _ (evict-Evicted pool' c' i h g))

  -- Asked for a page of the disk, a coherent pool stays coherent, and either returns a page with the
  -- id asked for, which is the page in the frame that the table then has for the id, and that frame
  -- is pinned; or it raises for want of a frame. No other error occurs.
  pub fetch_page-Fetched :
      (pool : BufferPool S P) (id : ℕ)
      → IsCoherent d Sound Good pool
      → id < num_pages pool.disk
      → Fetched id (fetch_page d id pool)
  unfolding fetch_page
  fetch_page-Fetched pool id c small = elim (Option-cases (frame_of pool id)) [
    | inl e ↦
        rw (e, fetch_page)
          (fetch_into-Fetched (record pool { misses = pool.misses + 1 }) c id e small _
            (find_victim_frame-Victim _))
    | inr (i, e) ↦ rw (e, fetch_page) (fetch_hit-Fetched pool c id i e)
  ]
