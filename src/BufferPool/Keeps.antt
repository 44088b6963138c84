-- ===== src/BufferPool/Keeps.antt =====
-- The methods of the buffer pool keep the page table and the frames in step.
use solidity_course_blockcha.Prelude.{
  ℕ, zero, suc, ◌<◌, ◌≡◌, ◌≢◌, refl, ap, sym, ◌∙◌, Option, none, some, List, [], ◌∷◌, map,
  ℕ_discrete, get_elem?, set,
}
use solidity_course_blockcha.Prelude.Dict
use solidity_course_blockcha.Prelude.Dict.{get-pop_self, get-pop_ne}
use solidity_course_blockcha.BufferPool.Pool.{FrameHeader, BufferPool, DiskManager, wrote}
use solidity_course_blockcha.BufferPool.Methods.{header_or}
use solidity_course_blockcha.BufferPool.Sweep.{core}
use solidity_course_blockcha.BufferPool.Coherence.{Coherent, without}

-- The page ids of the frames.
abbrev pub residents : List FrameHeader → List (Option ℕ)
residents [] = []
residents (h ∷ hs) = h.page_id ∷ residents hs

pub residents-set :
    (hs : List FrameHeader) (i : ℕ) (h : FrameHeader)
    → residents (set hs i h) ≡ set (residents hs) i h.page_id
residents-set [] i h = refl
residents-set (x ∷ xs) zero h = refl
residents-set (x ∷ xs) (suc i) h = ap (◌∷◌ x.page_id) (residents-set xs i h)

pub residents-get_elem? :
    (hs : List FrameHeader) (i : ℕ) (h : FrameHeader)
    → get_elem? hs i ≡ some h
    → get_elem? (residents hs) i ≡ some h.page_id
residents-get_elem? [] i h e = cc
residents-get_elem? (x ∷ xs) zero h e = let same : x ≡ h = cc in ap (λ y. some y.page_id) same
residents-get_elem? (x ∷ xs) (suc i) h e = residents-get_elem? xs i h e

-- A header that keeps its page id.
pub residents_keep :
    (hs : List FrameHeader) (i : ℕ) (h : FrameHeader)
    → h.page_id ≡ (header_or (get_elem? hs i)).page_id
    → residents (set hs i h) ≡ residents hs
residents_keep [] i h e = refl
residents_keep (x ∷ xs) zero h e = ap (λ p. p ∷ residents xs) e
residents_keep (x ∷ xs) (suc i) h e = ap (◌∷◌ x.page_id) (residents_keep xs i h e)

core-residents : (hs : List FrameHeader) → map (λ c. c.0) (map core hs) ≡ residents hs
core-residents [] = refl
core-residents (x ∷ xs) = ap (◌∷◌ x.page_id) (core-residents xs)

pub residents-core :
    (after hs : List FrameHeader) → map core after ≡ map core hs → residents after ≡ residents hs
residents-core after hs c = sym (core-residents after) ∙ ap (map (λ x. x.0)) c ∙ core-residents hs

pub set_twice {ℓ} : {A : Type ℓ} (xs : List A) (i : ℕ) (a b : A) → set (set xs i a) i b ≡ set xs i b
set_twice [] i a b = refl
set_twice (x ∷ xs) zero a b = refl
set_twice (x ∷ xs) (suc i) a b = ap (◌∷◌ x) (set_twice xs i a b)

pub absent_without :
    (old : Option ℕ) (table : List (ℕ × ℕ)) (id : ℕ)
    → Dict.get ℕ_discrete table id ≡ none
    → Dict.get ℕ_discrete (without old table) id ≡ none
absent_without none table id e = e
absent_without (some o) table id e = elim (ℕ_discrete o id) [
  | yes same ↦
      ap (Dict.get ℕ_discrete (Dict.pop ℕ_discrete table o)) (sym same)
      ∙ get-pop_self ℕ_discrete table o
  | no ne ↦ get-pop_ne ℕ_discrete table o id ne ∙ e
]

-- A write that returns: the page that was written is read at its id, and every other id reads as
-- before.
pub record Written {S P : Type 0} (d : DiskManager S P) (Sound : S → Type 0) (Good : P → Type 0)
    (page : P) (s : S) : Type 0 where
  pub disk' : S
  pub page' : P
  pub returns : d.write_page page s ≡ wrote disk' page'
  pub sound' : Sound disk'
  pub same_number : d.num_pages disk' ≡ d.num_pages s
  pub same_id : d.page_id_of page' ≡ d.page_id_of page
  pub good' : Good page'
  pub reads : d.read_page (d.page_id_of page) disk' ≡ some page'
  pub reads_others : (id : ℕ) → d.page_id_of page ≢ id → d.read_page id disk' ≡ d.read_page id s

-- An allocation that returns: a page with the next id, which is read at it.
pub record Allocated {S P : Type 0} (d : DiskManager S P) (Sound : S → Type 0) (Good : P → Type 0)
    (s : S) : Type 0 where
  pub disk' : S
  pub page : P
  pub returns : d.allocate_page s ≡ (disk', some page)
  pub sound' : Sound disk'
  pub one_more : d.num_pages disk' ≡ suc (d.num_pages s)
  pub next_id : d.page_id_of page ≡ d.num_pages s
  pub good' : Good page
  pub reads : d.read_page (d.num_pages s) disk' ≡ some page
  pub reads_others : (id : ℕ) → id < d.num_pages s → d.read_page id disk' ≡ d.read_page id s

-- What the pool relies on in its disk manager, for disks that are `Sound`: a page that was read has
-- the id it was asked for and is `Good`, a page of the disk can be read, a good page can be written
-- over the one with its id, and a page allocated while there is capacity.
pub record IsDisk {S P : Type 0} (d : DiskManager S P) (Sound : S → Type 0) (Good : P → Type 0)
    : Type 0 where
  pub capacity : ℕ
  pub read_id :
      (id : ℕ) (s : S) (page : P)
      → Sound s
      → d.read_page id s ≡ some page
      → (d.page_id_of page ≡ id) × (id < d.num_pages s) × Good page
  pub readable :
      (id : ℕ) (s : S) → Sound s → id < d.num_pages s → (page : P) × (d.read_page id s ≡ some page)
  pub write_keeps :
      (page : P) (s : S)
      → Sound s
      → Good page
      → d.page_id_of page < d.num_pages s
      → Written d Sound Good page s
  pub allocate_next : (s : S) → Sound s → d.num_pages s < capacity → Allocated d Sound Good s

-- The frames of a pool with the page ids `ids` agree with its table, and hold pages of the disk.
pub record Agrees {S P : Type 0} (d : DiskManager S P) (Sound : S → Type 0) (Good : P → Type 0)
    (ids : List (Option ℕ)) (frames : List (Option P)) (table : List (ℕ × ℕ)) (disk : S)
    : Type 0 where
  pub coherent : Coherent d.page_id_of ids frames table
  pub sound : Sound disk
  pub on_disk : (id i : ℕ) → get_elem? ids i ≡ some (some id) → id < d.num_pages disk
  pub good : (i : ℕ) (page : P) → get_elem? frames i ≡ some (some page) → Good page

-- The page table leads to exactly the frames that hold a page, and these pages are good and on the
-- disk.
abbrev pub IsCoherent :
    {S P : Type 0} (d : DiskManager S P) (Sound : S → Type 0) (Good : P → Type 0)
    → BufferPool S P
    → Type 0
IsCoherent d Sound Good pool =
    Agrees d Sound Good (residents pool.headers) pool.frames pool.page_table pool.disk
