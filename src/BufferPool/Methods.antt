-- ===== src/BufferPool/Methods.antt =====
-- pysql/storage/buffer_pool.py: the methods of the buffer pool. What a method returns is beside the
-- pool after it, also where an exception leaves it half done. The lock makes each one step.
use solidity_course_blockcha.Prelude.{
  ℕ, zero, suc, ◌+◌, ◌-◌, Bool, true, false, Option, none, some, ◌==◌, if◌then◌else◌, length,
  get_elem?, set, ℕ_discrete, ltb,
}
use solidity_course_blockcha.Prelude.Dict
use solidity_course_blockcha.BufferPool.Pool.{
  FrameHeader, empty_header, DiskManager, BufferPool, Result, ok, raised, runtime_error,
  value_error, key_error, struct_error, attribute_error, Write, wrote, failed, is_none,
  find_victim_frame,
}

abbrev pub frame_of : {S P : Type 0} → BufferPool S P → ℕ → Option ℕ
frame_of pool id = Dict.get ℕ_discrete pool.page_table id

-- `self._frames[i]`
abbrev pub page_in : {P : Type 0} → Option (Option P) → Option P
page_in none = none
page_in (some page) = page

abbrev pub page_at : {S P : Type 0} → BufferPool S P → ℕ → Option P
page_at pool i = page_in (get_elem? pool.frames i)

abbrev pub header_or : Option FrameHeader → FrameHeader
header_or none = empty_header
header_or (some h) = h

abbrev pub header_at : {S P : Type 0} → BufferPool S P → ℕ → FrameHeader
header_at pool i = header_or (get_elem? pool.headers i)

abbrev pub pinned : FrameHeader → FrameHeader
pinned h = record h { pin_count = h.pin_count + 1; ref_bit = true }

-- `unpin_page` on a page that is in frame `i`
unfoldable pub unpin_at :
    {S P : Type 0} → Bool → ℕ → FrameHeader → BufferPool S P → BufferPool S P × Bool
unpin_at dirty i h pool = if h.pin_count == 0 then (pool, false) else (
  record pool {
    headers =
        set pool.headers i
          (record h { pin_count = h.pin_count - 1; is_dirty = if dirty then true else h.is_dirty });
  },
  true,
)

unfoldable pub unpin_page : {S P : Type 0} → ℕ → Bool → BufferPool S P → BufferPool S P × Bool
unpin_page id dirty pool = elim (frame_of pool id) [
  | none ↦ (pool, false)
  | some i ↦ unpin_at dirty i (header_at pool i) pool
]

unfoldable pub delete_page : {S P : Type 0} → ℕ → BufferPool S P → BufferPool S P × Bool
delete_page id pool = elim (frame_of pool id) [
  | none ↦ (pool, true)
  | some i ↦ if ltb 0 (header_at pool i).pin_count then (pool, false) else (
    record pool {
      page_table = Dict.pop ℕ_discrete pool.page_table id;
      frames = set pool.frames i none;
      headers = set pool.headers i empty_header;
    },
    true,
  )
]

-- `fetch_page` on a page that is in the pool
unfoldable pub fetch_hit : {S P : Type 0} → ℕ → BufferPool S P → BufferPool S P × Result (Option P)
fetch_hit i pool = (
  record pool { headers = set pool.headers i (pinned (header_at pool i)); hits = pool.hits + 1 },
  ok (page_at pool i),
)

unfoldable pub install : {S P : Type 0} → ℕ → ℕ → Bool → P → BufferPool S P → BufferPool S P
install i id dirty page pool = record pool {
  frames = set pool.frames i (some page);
  headers =
      set pool.headers i
        (record { page_id = some id; pin_count = 1; is_dirty = dirty; ref_bit = true; lsn = 0 });
  page_table = Dict.put ℕ_discrete pool.page_table id i;
}

module _ {S P : Type 0} (d : DiskManager S P) where
  open d use {page_id_of, read_page, write_page, allocate_page}

  -- The page in frame `i` is written.
  abbrev pub wrote_frame : ℕ → BufferPool S P → Write S P → BufferPool S P × Result (Unit {0})
  wrote_frame i pool (wrote disk' page') =
      (record pool { disk = disk'; frames = set pool.frames i (some page') }, ok tt)
  wrote_frame i pool (failed page') =
      (record pool { frames = set pool.frames i (some page') }, raised struct_error)

  -- the write of a dirty page
  abbrev pub write_back : Bool → Option P → ℕ → BufferPool S P → BufferPool S P × Result (Unit {0})
  write_back false page i pool = (pool, ok tt)
  write_back true none i pool = (pool, raised attribute_error)
  write_back true (some page) i pool = wrote_frame i pool (write_page page pool.disk)

  abbrev pub then_drop : ℕ → BufferPool S P × Result (Unit {0}) → BufferPool S P × Result (Unit {0})
  then_drop id (pool, raised e) = (pool, raised e)
  then_drop id (pool, ok _) = elim (frame_of pool id) [
    | none ↦ (pool, raised key_error)
    | some j ↦ (
      record pool {
        page_table = Dict.pop ℕ_discrete pool.page_table id;
        evictions = pool.evictions + 1;
      },
      ok tt,
    )
  ]

  -- The page in the victim frame goes: it is written back if dirty, and leaves the page table.
  unfoldable pub evict : ℕ → FrameHeader → BufferPool S P → BufferPool S P × Result (Unit {0})
  evict i victim pool = elim victim.page_id [
    | none ↦ (pool, ok tt)
    | some id ↦ then_drop id (write_back victim.is_dirty (page_at pool i) i pool)
  ]

  unfoldable pub load : ℕ → ℕ → BufferPool S P → BufferPool S P × Result (Option P)
  load id i pool = elim (read_page id pool.disk) [
    | none ↦ (pool, raised value_error)
    | some page ↦ (install i id false page pool, ok (some page))
  ]

  abbrev pub then_load :
      ℕ → ℕ → BufferPool S P × Result (Unit {0}) → BufferPool S P × Result (Option P)
  then_load id i (pool, ok _) = load id i pool
  then_load id i (pool, raised e) = (pool, raised e)

  abbrev pub fetch_into : ℕ → BufferPool S P × Option ℕ → BufferPool S P × Result (Option P)
  fetch_into id (pool, none) = (pool, raised runtime_error)
  fetch_into id (pool, some i) = then_load id i (evict i (header_at pool i) pool)

  unfoldable pub fetch_page : ℕ → BufferPool S P → BufferPool S P × Result (Option P)
  fetch_page id pool = elim (frame_of pool id) [
    | some i ↦ fetch_hit i pool
    | none ↦ fetch_into id (find_victim_frame (record pool { misses = pool.misses + 1 }))
  ]

  abbrev pub then_install : ℕ → P → BufferPool S P × Result (Unit {0}) → BufferPool S P × Result P
  then_install i page (pool, ok _) = (install i (page_id_of page) true page pool, ok page)
  then_install i page (pool, raised e) = (pool, raised e)

  abbrev pub place_new : P → BufferPool S P × Option ℕ → BufferPool S P × Result P
  place_new page (pool, none) = (pool, raised runtime_error)
  place_new page (pool, some i) = then_install i page (evict i (header_at pool i) pool)

  abbrev pub then_place : BufferPool S P → S × Option P → BufferPool S P × Result P
  then_place pool (disk', none) = (record pool { disk = disk' }, raised struct_error)
  then_place pool (disk', some page) =
      place_new page (find_victim_frame (record pool { disk = disk' }))

  unfoldable pub new_page : BufferPool S P → BufferPool S P × Result P
  new_page pool = then_place pool (allocate_page pool.disk)

  abbrev pub then_clean :
      ℕ → BufferPool S P × Result (Unit {0}) → BufferPool S P × Result (Unit {0})
  then_clean i (pool, raised e) = (pool, raised e)
  then_clean i (pool, ok _) = (
    record pool { headers = set pool.headers i (record (header_at pool i) { is_dirty = false }) },
    ok tt,
  )

  -- The write of one frame: `flush_page` from the page on, and the body of `flush_all`'s loop.
  unfoldable pub flush_frame : ℕ → BufferPool S P → BufferPool S P × Result (Unit {0})
  flush_frame i pool = elim (page_at pool i) [
    | none ↦ (pool, ok tt)
    | some page ↦
        if (header_at pool i).is_dirty
        then then_clean i (wrote_frame i pool (write_page page pool.disk))
        else (pool, ok tt)
  ]

  abbrev pub flushed : BufferPool S P × Result (Unit {0}) → BufferPool S P × Result Bool
  flushed (pool, raised e) = (pool, raised e)
  flushed (pool, ok _) = (pool, ok true)

  unfoldable pub flush_page : ℕ → BufferPool S P → BufferPool S P × Result Bool
  flush_page id pool = elim (frame_of pool id) [
    | none ↦ (pool, ok false)
    | some i ↦ flushed (flush_frame i pool)
  ]

  -- What follows, unless an exception was raised.
  abbrev pub then_go :
      (BufferPool S P → BufferPool S P × Result (Unit {0}))
      → BufferPool S P × Result (Unit {0})
      → BufferPool S P × Result (Unit {0})
  then_go rest (pool, raised e) = (pool, raised e)
  then_go rest (pool, ok _) = rest pool

  -- The loop of `flush_all` over `rounds` frames from index `i` on.
  unfoldable pub flush_from : ℕ → ℕ → BufferPool S P → BufferPool S P × Result (Unit {0})
  flush_from zero i pool = (pool, ok tt)
  flush_from (suc rounds) i pool =
      then_go (flush_from rounds (suc i))
        (if is_none (header_at pool i).page_id then (pool, ok tt) else flush_frame i pool)

  unfoldable pub flush_all : BufferPool S P → BufferPool S P × Result (Unit {0})
  flush_all pool = flush_from (length pool.headers) 0 pool
