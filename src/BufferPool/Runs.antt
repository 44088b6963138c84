-- ===== src/BufferPool/Runs.antt =====
-- Any sequence of calls of the buffer pool leaves it coherent.
use solidity_course_blockcha.Prelude.{
  ℕ, zero, suc, ◌<◌, ◌≡◌, ◌≢◌, refl, ap, ◌∙◌, subst, inl, inr, Bool, Option, none, some, List, [],
  ◌∷◌, arith, Option-cases, Bool-cases, length, get_elem?, set, replicate, ltb, ◌==◌,
}
use solidity_course_blockcha.Prelude.Dict
use solidity_course_blockcha.BufferPool.Pool.{
  FrameHeader, empty_header, BufferPool, DiskManager, Result, ok, raised, init,
}
use solidity_course_blockcha.BufferPool.Methods.{
  frame_of, page_at, header_or, header_at, page_in, unpin_at, unpin_page, delete_page, fetch_page,
  new_page, flush_frame, flushed, flush_page, then_go, flush_from, flush_all,
}
use solidity_course_blockcha.BufferPool.Coherence.{clear, edit, set-cases, none-some, some_eq}
use solidity_course_blockcha.BufferPool.Keeps.{
  residents, residents-set, residents_keep, Written, IsDisk, IsCoherent,
}
use solidity_course_blockcha.BufferPool.Evictions.{Fetched, in_frame, no_frame, fetch_page-Fetched}
use solidity_course_blockcha.BufferPool.Creations.{
  Created, in_new_frame, no_new_frame, new_page-Created,
}

module _ {S P : Type 0} (d : DiskManager S P) (Sound : S → Type 0) (Good : P → Type 0)
    (laws : IsDisk d Sound Good) where
  open d use {page_id_of, num_pages, read_page, write_page, allocate_page}

  kept :
      (pool : BufferPool S P) (i : ℕ) (h : FrameHeader)
      → h.page_id ≡ (header_at pool i).page_id
      → IsCoherent d Sound Good pool
      → IsCoherent d Sound Good (record pool { headers = set pool.headers i h })
  kept pool i h e c = rw (residents_keep pool.headers i h e) c

  unpin_page-IsCoherent :
      (pool : BufferPool S P) (id : ℕ) (dirty : Bool)
      → IsCoherent d Sound Good pool
      → IsCoherent d Sound Good (unpin_page id dirty pool).0
  unfolding unpin_page unpin_at
  unpin_page-IsCoherent pool id dirty c = elim (Option-cases (frame_of pool id)) [
    | inl e ↦ rw (e, unpin_page) c
    | inr (i, e) ↦ elim (Bool-cases ((header_at pool i).pin_count == 0)) [
      | inr b ↦ rw (e, unpin_page) (rw (b, unpin_at) (kept pool i _ refl c))
      | inl b ↦ rw (e, unpin_page) (rw (b, unpin_at) c)
    ]
  ]

  header_of :
      (pool : BufferPool S P) (id i : ℕ)
      → IsCoherent d Sound Good pool
      → frame_of pool id ≡ some i
      → get_elem? (residents pool.headers) i ≡ some (some id)
  header_of pool id i c e = (c.coherent).to_frame id i e

  delete_page-IsCoherent :
      (pool : BufferPool S P) (id : ℕ)
      → IsCoherent d Sound Good pool
      → IsCoherent d Sound Good (delete_page id pool).0
  unfolding delete_page
  delete_page-IsCoherent pool id c = elim (Option-cases (frame_of pool id)) [
    | inl e ↦ rw (e, delete_page) c
    | inr (i, e) ↦ elim (Bool-cases (ltb 0 (header_at pool i).pin_count)) [
      | inl b ↦ rw (e, delete_page) (rw (b, delete_page) c)
      | inr b ↦
          rw (e, delete_page)
            (rw (b, delete_page)
              (rw (residents-set pool.headers i empty_header) (record {
                coherent = clear page_id_of _ _ _ c.coherent i (some id) (header_of pool id i c e);
                sound = c.sound;
                on_disk = λ k j r. elim (set-cases (residents pool.headers) i j none (some k) r) [
                  | inl (_, v) ↦ absurd (none-some v)
                  | inr (_, r') ↦ c.on_disk k j r'
                ];
                good = λ j page h. elim (set-cases pool.frames i j none (some page) h) [
                  | inl (_, v) ↦ absurd (none-some v)
                  | inr (_, h') ↦ c.good j page h'
                ];
              })))
    ]
  ]

  on_new_disk :
      (pool : BufferPool S P) (disk' : S)
      → Sound disk'
      → num_pages disk' ≡ num_pages pool.disk
      → IsCoherent d Sound Good pool
      → IsCoherent d Sound Good (record pool { disk = disk' })
  on_new_disk pool disk' s same c = record {
    coherent = c.coherent;
    sound = s;
    on_disk = λ k j r. (let less = c.on_disk k j r in omega arith);
    good = c.good;
  }

  edit-IsCoherent :
      (pool : BufferPool S P) (id i : ℕ) (page : P)
      → frame_of pool id ≡ some i
      → page_id_of page ≡ id
      → Good page
      → IsCoherent d Sound Good pool
      → IsCoherent d Sound Good (record pool { frames = set pool.frames i (some page) })
  edit-IsCoherent pool id i page e same fine c = record {
    coherent = edit page_id_of _ _ _ c.coherent i id page (header_of pool id i c e) same;
    sound = c.sound;
    on_disk = c.on_disk;
    good = λ j q h. elim (set-cases pool.frames i j (some page) (some q) h) [
      | inl (_, v) ↦ subst Good (some_eq v) fine
      | inr (_, h') ↦ c.good j q h'
    ];
  }

  -- A page that was written keeps its frame.
  wrote_frame-IsCoherent :
      (pool : BufferPool S P) (i id : ℕ) (page : P)
      → get_elem? (residents pool.headers) i ≡ some (some id)
      → page_id_of page ≡ id
      → (w : Written d Sound Good page pool.disk) → IsCoherent d Sound Good pool
      → IsCoherent d Sound Good
          (record pool { disk = w.disk'; frames = set pool.frames i (some w.page') })
  wrote_frame-IsCoherent pool i id page at is w c =
      edit-IsCoherent (record pool { disk = w.disk' }) id i w.page' ((c.coherent).to_table id i at)
        (w.same_id ∙ is) w.good' (on_new_disk pool w.disk' w.sound' w.same_number c)

  flush_frame-IsCoherent :
      (pool : BufferPool S P) (i id : ℕ)
      → get_elem? (residents pool.headers) i ≡ some (some id)
      → IsCoherent d Sound Good pool
      → IsCoherent d Sound Good (flush_frame d i pool).0
  unfolding flush_frame
  flush_frame-IsCoherent pool i id at c =
      let (page, f, is) = (c.coherent).holds id i at in
      let small = c.on_disk id i at in
      let w = laws.write_keeps page pool.disk c.sound (c.good i page f) (omega arith) in
      let e : page_at pool i ≡ some page = ap page_in f in
      elim (Bool-cases (header_at pool i).is_dirty) [
        | inr b ↦ rw (e, flush_frame) (rw (b, flush_frame) c)
        | inl b ↦
            rw (e, flush_frame)
              (rw (b, flush_frame)
                (rw (w.returns, flush_frame)
                  (kept (record pool { disk = w.disk'; frames = set pool.frames i (some w.page') })
                    i _ refl (wrote_frame-IsCoherent pool i id page at is w c))))
      ]

  flushed_keeps :
      (r : BufferPool S P × Result (Unit {0}))
      → IsCoherent d Sound Good r.0
      → IsCoherent d Sound Good (flushed d r).0
  flushed_keeps (pool, ok _) c = c
  flushed_keeps (pool, raised e) c = c

  flush_page-IsCoherent :
      (pool : BufferPool S P) (id : ℕ)
      → IsCoherent d Sound Good pool
      → IsCoherent d Sound Good (flush_page d id pool).0
  unfolding flush_page
  flush_page-IsCoherent pool id c = elim (Option-cases (frame_of pool id)) [
    | inl e ↦ rw (e, flush_page) c
    | inr (i, e) ↦
        rw (e, flush_page)
          (flushed_keeps _ (flush_frame-IsCoherent pool i id (header_of pool id i c e) c))
  ]

  then_go_keeps :
      (rest : BufferPool S P → BufferPool S P × Result (Unit {0}))
      → ((q : BufferPool S P) → IsCoherent d Sound Good q → IsCoherent d Sound Good (rest q).0)
      → (r : BufferPool S P × Result (Unit {0})) → IsCoherent d Sound Good r.0
      → IsCoherent d Sound Good (then_go d rest r).0
  then_go_keeps rest keeps (pool, ok _) c = keeps pool c
  then_go_keeps rest keeps (pool, raised e) c = c

  resident_at :
      (hs : List FrameHeader) (i id : ℕ)
      → (header_or (get_elem? hs i)).page_id ≡ some id
      → get_elem? (residents hs) i ≡ some (some id)
  resident_at [] i id e = cc
  resident_at (x ∷ xs) zero id e = ap some e
  resident_at (x ∷ xs) (suc i) id e = resident_at xs i id e

  flush_from-IsCoherent :
      (rounds i : ℕ) (pool : BufferPool S P)
      → IsCoherent d Sound Good pool
      → IsCoherent d Sound Good (flush_from d rounds i pool).0
  unfolding flush_from
  flush_from-IsCoherent zero i pool c = c
  flush_from-IsCoherent (suc rounds) i pool c = elim (Option-cases (header_at pool i).page_id) [
    | inl e ↦ rw (e, flush_from) (flush_from-IsCoherent rounds (suc i) pool c)
    | inr (id, e) ↦
        rw (e, flush_from)
          (then_go_keeps (flush_from d rounds (suc i))
            (λ q s. flush_from-IsCoherent rounds (suc i) q s) _
            (flush_frame-IsCoherent pool i id (resident_at pool.headers i id e) c))
  ]

  -- The calls of a pool, and the changes that callers make to its pages, which keep a page good and
  -- its id. A page that is fetched is one of the disk, and a new one is asked for while the disk has
  -- capacity.
  pub data Call (pool : BufferPool S P) : BufferPool S P → Type 0 where
    fetches : (id : ℕ) → id < num_pages pool.disk → Call pool (fetch_page d id pool).0
    creates : num_pages pool.disk < laws.capacity → Call pool (new_page d pool).0
    unpins : (id : ℕ) (dirty : Bool) → Call pool (unpin_page id dirty pool).0
    flushes : (id : ℕ) → Call pool (flush_page d id pool).0
    flushes_all : Call pool (flush_all d pool).0
    deletes : (id : ℕ) → Call pool (delete_page id pool).0
    edits :
        (id i : ℕ) (page : P)
        → frame_of pool id ≡ some i
        → page_id_of page ≡ id
        → Good page
        → Call pool (record pool { frames = set pool.frames i (some page) })

  pub data Run (pool : BufferPool S P) : BufferPool S P → Type 0 where
    start : Run pool pool
    then_call : (p q : BufferPool S P) → Run pool p → Call p q → Run pool q

  Fetched-IsCoherent :
      (id : ℕ) (r : BufferPool S P × Result (Option P))
      → Fetched d Sound Good laws id r
      → IsCoherent d Sound Good r.0
  Fetched-IsCoherent id _ (in_frame pool page i h c _ _ _ _ _) = c
  Fetched-IsCoherent id _ (no_frame pool c) = c

  Created-IsCoherent :
      (id : ℕ) (r : BufferPool S P × Result P)
      → Created d Sound Good laws id r
      → IsCoherent d Sound Good r.0
  Created-IsCoherent id _ (in_new_frame pool page i h c _ _ _ _) = c
  Created-IsCoherent id _ (no_new_frame pool c) = c

  Call-IsCoherent :
      (p q : BufferPool S P) → IsCoherent d Sound Good p → Call p q → IsCoherent d Sound Good q
  unfolding flush_all
  Call-IsCoherent p _ c (fetches id small) =
      Fetched-IsCoherent id _ (fetch_page-Fetched d Sound Good laws p id c small)
  Call-IsCoherent p _ c (creates space) =
      Created-IsCoherent _ _ (new_page-Created d Sound Good laws p c space)
  Call-IsCoherent p _ c (unpins id dirty) = unpin_page-IsCoherent p id dirty c
  Call-IsCoherent p _ c (flushes id) = flush_page-IsCoherent p id c
  Call-IsCoherent p _ c flushes_all = flush_from-IsCoherent (length p.headers) 0 p c
  Call-IsCoherent p _ c (deletes id) = delete_page-IsCoherent p id c
  Call-IsCoherent p _ c (edits id i page e same fine) = edit-IsCoherent p id i page e same fine c

  from_IsCoherent :
      (p q : BufferPool S P) → IsCoherent d Sound Good p → Run p q → IsCoherent d Sound Good q
  from_IsCoherent p _ c start = c
  from_IsCoherent p _ c (then_call m q r s) = Call-IsCoherent m q (from_IsCoherent p m c r) s

  residents_none :
      (n i id : ℕ) → get_elem? (residents (replicate n empty_header)) i ≢ some (some id)
  residents_none zero i id e = cc
  residents_none (suc n) zero id e = cc
  residents_none (suc n) (suc i) id e = residents_none n i id e

  no_frames :
      (n i : ℕ) (page : P) → get_elem? (replicate {A = Option P} n none) i ≢ some (some page)
  no_frames zero i page e = cc
  no_frames (suc n) zero page e = cc
  no_frames (suc n) (suc i) page e = no_frames n i page e

  same_lengths :
      (n : ℕ)
      → length (replicate {A = Option P} n none) ≡ length (residents (replicate n empty_header))
  same_lengths zero = refl
  same_lengths (suc n) = ap suc (same_lengths n)

  init-IsCoherent : (disk : S) (n : ℕ) → Sound disk → IsCoherent d Sound Good (init disk n)
  unfolding init Dict.get
  init-IsCoherent disk n s = record {
    coherent = record {
      same_size = same_lengths n;
      to_frame = λ id i e. absurd (none-some e);
      to_table = λ id i e. absurd (residents_none n i id e);
      holds = λ id i e. absurd (residents_none n i id e);
    };
    sound = s;
    on_disk = λ id i e. absurd (residents_none n i id e);
    good = λ i page h. absurd (no_frames n i page h);
  }

  pub Run-IsCoherent :
      (disk : S) (n : ℕ) (pool : BufferPool S P)
      → Sound disk
      → Run (init disk n) pool
      → IsCoherent d Sound Good pool
  Run-IsCoherent disk n pool s r = from_IsCoherent (init disk n) pool (init-IsCoherent disk n s) r
