-- ===== src/BufferPool/Pool.antt =====
-- pysql/storage/buffer_pool.py: the state of the buffer pool, and the choice of a frame to evict.
-- A page id of -1 is `none`. `P` is the type of pages and `S` that of the disk manager's state.
use solidity_course_blockcha.Prelude.{
  ℕ, zero, suc, ◌+◌, ◌*◌, ◌%◌, Bool, true, false, Option, none, some, List, [], ◌∷◌, ◌==◌,
  if◌then◌else◌, get_elem?, set, replicate,
}

pub record FrameHeader : Type 0 where
  pub page_id : Option ℕ
  pub pin_count : ℕ
  pub is_dirty : Bool
  pub ref_bit : Bool
  pub lsn : ℕ

abbrev pub empty_header : FrameHeader
empty_header = record { page_id = none; pin_count = 0; is_dirty = false; ref_bit = false; lsn = 0 }

-- What a write leaves: the disk and the page, which gets its checksum; or a struct.error, where the
-- disk is as it was and the page partly packed.
pub data Write (S P : Type 0) : Type 0 where
  wrote : S → P → Write S P
  failed : P → Write S P

-- The disk manager that the pool works on, pysql/storage/page.py: `read_page` raises a ValueError,
-- `none`, for a page that is not there, and a new page has the next id, or is `none` where its bytes
-- cannot be packed.
pub record DiskManager (S P : Type 0) : Type 0 where
  pub page_id_of : P → ℕ
  pub num_pages : S → ℕ
  pub read_page : ℕ → S → Option P
  pub write_page : P → S → Write S P
  pub allocate_page : S → S × Option P

pub record BufferPool (S P : Type 0) : Type 0 where
  pub disk : S
  pub pool_size : ℕ
  pub frames : List (Option P)
  pub headers : List FrameHeader
  pub page_table : List (ℕ × ℕ)
  pub clock_hand : ℕ
  pub hits : ℕ
  pub misses : ℕ
  pub evictions : ℕ

pub data Error : Type 0 where
  runtime_error value_error key_error struct_error attribute_error : Error

pub data Result (A : Type 0) : Type 0 where
  ok : A → Result A
  raised : Error → Result A

unfoldable pub init : {S P : Type 0} → S → ℕ → BufferPool S P
init disk pool_size = record {
  disk = disk;
  pool_size = pool_size;
  frames = replicate pool_size none;
  headers = replicate pool_size empty_header;
  page_table = [];
  clock_hand = 0;
  hits = 0;
  misses = 0;
  evictions = 0;
}

abbrev pub is_none {ℓ} : {A : Type ℓ} → Option A → Bool
is_none none = true
is_none (some a) = false

-- The first frame, from index `i` on, that holds no page.
unfoldable pub first_empty : ℕ → List FrameHeader → Option ℕ
first_empty i [] = none
first_empty i (h ∷ hs) = if is_none h.page_id then some i else first_empty (suc i) hs

-- The clock sweep: the headers and the hand after it, and the victim if there is one. A hand past
-- the headers, which does not occur, ends the sweep.
unfoldable pub sweep : ℕ → ℕ → List FrameHeader → ℕ → List FrameHeader × ℕ × Option ℕ
sweep zero size headers hand = (headers, hand, none)
sweep (suc rounds) size headers hand = elim (get_elem? headers hand) [
  | none ↦ (headers, hand, none)
  | some h ↦ elim (h.pin_count == 0) [
    | false ↦ sweep rounds size headers ((hand + 1) % size)
    | true ↦ elim h.ref_bit [
      | false ↦ (headers, (hand + 1) % size, some hand)
      | true ↦
          sweep rounds size (set headers hand (record h { ref_bit = false })) ((hand + 1) % size)
    ]
  ]
]

unfoldable pub find_victim_frame : {S P : Type 0} → BufferPool S P → BufferPool S P × Option ℕ
find_victim_frame pool = elim (first_empty 0 pool.headers) [
  | some i ↦ (pool, some i)
  | none ↦
      let (headers', hand', victim) =
        sweep (2 * pool.pool_size) pool.pool_size pool.headers pool.clock_hand in
      (record pool { headers = headers'; clock_hand = hand' }, victim)
]
