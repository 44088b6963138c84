-- ===== src/Page/Runs.antt =====
-- New pages, and what any operations make of them.
use solidity_course_blockcha.Prelude.{
  length-replicate, ◌>>=◌, >>=_some, ◌++◌, ℕ, ◌+◌, ◌-◌, ◌*◌, ◌^◌, ◌<◌, ◌≤◌, ◌≡◌, ◌≢◌, refl, ap, sym,
  subst, ◌∙◌, inl, inr, Bool, Option, none, some, List, [], ◌∷◌, arith, ltb, ltb→lt, ltb-false→le,
  Bool-cases, Option-cases, length, length-append, length-set, replicate, overwrite,
  length-overwrite, pack-Fits,
}
use solidity_course_blockcha.Page.Header.{
  page_size, header_size, slot_size, PageType, type_code, free, heap_data, btree_internal,
  btree_leaf, overflow, metadata, SlotEntry, new_header, header_format, header_values, header_pack,
  Page,
}
use solidity_course_blockcha.Page.Records.{
  Placed, at_page, below_zero, place_at, place, first_deleted, insert_record, read_record,
  delete_record, update_record, compact,
}
use solidity_course_blockcha.Page.Codec.{write_header, new_page}
use solidity_course_blockcha.Page.Accounts.{IsSound}
use solidity_course_blockcha.Page.Inserts.{Stored, stored, no_space, no_room, insert_record-Stored}
use solidity_course_blockcha.Page.Updates.{
  Deleted, not_there, deleted, delete_record-Deleted, Updated, no_record, updated, lost,
  no_room_left, update_record-Updated,
}
use solidity_course_blockcha.Page.Compaction.{compact-Compacted}
use solidity_course_blockcha.Page.Encoding.{header_unpack-pack}

type_code-lt : (t : PageType) → type_code t < 256
type_code-lt free = omega arith
type_code-lt heap_data = omega arith
type_code-lt btree_internal = omega arith
type_code-lt btree_leaf = omega arith
type_code-lt overflow = omega arith
type_code-lt metadata = omega arith

pub new_header_packs :
    (id : ℕ) (t : PageType) → id < 2 ^ 32 → (r : List ℕ) × (header_pack (new_header id t) ≡ some r)
unfolding header_pack
new_header_packs id t small =
    pack-Fits header_format (header_values (new_header id t)) (small, (type_code-lt t, omega arith))

-- A new page has its header and no record.
pub record IsNew (id : ℕ) (t : PageType) (p : Page) : Type 0 where
  pub header_is : p.header ≡ new_header id t
  pub no_slots : p.slots ≡ []
  pub sound : IsSound p

pub new_page-IsNew : (id : ℕ) (t : PageType) (p : Page) → new_page id t ≡ some p → IsNew id t p
unfolding new_page write_header
new_page-IsNew id t p h =
    let (bytes, hw, is) = >>=_some (write_header (new_header id t) (replicate page_size 0)) _ h in
    let (r, packed, at) = >>=_some (header_pack (new_header id t)) _ hw in
    let written : overwrite (replicate page_size 0) 0 r ≡ bytes = cc in
    let zeros = length-replicate {A = ℕ} page_size 0 in
    let n = (header_unpack-pack (new_header id t) r packed).0 in
    let whole : length bytes ≡ page_size =
      ap length (sym written)
      ∙ length-overwrite (replicate page_size 0) 0 r (omega arith)
      ∙ zeros in
    subst (IsNew id t) (cc) (record {
      header_is = refl;
      no_slots = refl;
      sound = record {
        laid = record {
          whole = whole;
          ends = omega arith;
          within = λ i s e. absurd (none-live s e);
          apart = λ i j s u ne e f. absurd (none-live s e);
        };
        counted = refl;
        accounted = refl;
      };
    })
  where
    none-live : (s : SlotEntry) → ◌≡◌ {A = Option SlotEntry} none (some s) → ⊥
    none-live s e = cc

pub new_page_total : (id : ℕ) (t : PageType) → id < 2 ^ 32 → (p : Page) × (new_page id t ≡ some p)
unfolding new_page write_header
new_page_total id t small =
    let (r, e) = new_header_packs id t small in
    (
      record {
        bytes = overwrite (replicate page_size 0) 0 r;
        header = new_header id t;
        slots = [];
      },
      rw (e, new_page) refl,
    )

-- The operations on the records of a page.
pub data Operation : Type 0 where
  inserts : List ℕ → Operation
  updates : ℕ → List ℕ → Operation
  deletes : ℕ → Operation
  compacts : Operation

-- The page that a method leaves, if no offset in it is negative.
abbrev pub left : {A : Type 0} → Placed A → Option Page
left (at_page p a) = some p
left (below_zero n a) = none

abbrev pub perform : Operation → Page → Option Page
perform (inserts r) p = left (insert_record r p)
perform (updates i r) p = left (update_record i r p)
perform (deletes i) p = some (delete_record i p).0
perform compacts p = some (compact p)

abbrev pub perform_all : List Operation → Page → Option Page
perform_all [] p = some p
perform_all (o ∷ os) p = perform o p >>= perform_all os

-- The record fits the free space and not the room below the records.
pub record IsShort (r : List ℕ) (p : Page) : Type 0 where
  pub fits : length r + slot_size ≤ (p.header).free_space
  pub short : (p.header).data_end < length r

-- The call that leaves a negative offset: an insertion, or an update of a shorter record, which is
-- deleted first.
pub data StopsAt (p : Page) : Operation → Type 0 where
  inserts_below : (r : List ℕ) → IsShort r p → StopsAt p (inserts r)
  updates_below :
      (i : ℕ) (r old : List ℕ)
      → read_record i p ≡ some old
      → length old < length r
      → (p' : Page) → read_record i p' ≡ none
      → ((j : ℕ) → i ≢ j → read_record j p' ≡ read_record j p)
      → IsShort r p'
      → StopsAt p (updates i r)

pub data Step (o : Operation) (p : Page) : Option Page → Type 0 where
  steps : (q : Page) → IsSound q → Step o p (some q)
  stops : StopsAt p o → Step o p none

pub data RunOf (p : Page) : List Operation → Option Page → Type 0 where
  goes_on : (os : List Operation) (q : Page) → IsSound q → RunOf p os (some q)
  ends :
      (before : List Operation) (o : Operation) (rest : List Operation) (q : Page)
      → perform_all before p ≡ some q
      → IsSound q
      → StopsAt q o
      → RunOf p (before ++ o ∷ rest) none

Stored-Step :
    (r : List ℕ) (p : Page) {q : Placed (Option ℕ)}
    → IsSound p
    → Stored r p q
    → Step (inserts r) p (left q)
Stored-Step r p sound (stored p' i s _ _ _ _) = steps p' s
Stored-Step r p sound (no_space h) = steps p sound
Stored-Step r p sound (no_room n b _) =
    stops (inserts_below r (record { fits = b.enough; short = b.short }))

Deleted-IsSound : (i : ℕ) (p : Page) {q : Page × Bool} → IsSound p → Deleted i p q → IsSound q.0
Deleted-IsSound i p sound (not_there h) = sound
Deleted-IsSound i p sound (deleted p' s _ s' _ _ _) = s'

Updated-Step :
    (i : ℕ) (r : List ℕ) (p : Page) {q : Placed Bool}
    → IsSound p
    → Updated i r p q
    → Step (updates i r) p (left q)
Updated-Step i r p sound (no_record h) = steps p sound
Updated-Step i r p sound (updated p' s _ _) = steps p' s
Updated-Step i r p sound (lost p' old _ s _ _ _ _) = steps p' s
Updated-Step i r p sound (no_room_left p' n old had s lost_i kept b _ longer) =
    stops (
      updates_below i r old had longer p' lost_i kept (record { fits = b.enough; short = b.short }))

pub perform-Step : (o : Operation) (p : Page) → IsSound p → Step o p (perform o p)
perform-Step (inserts r) p sound = Stored-Step r p sound (insert_record-Stored r p sound)
perform-Step (updates i r) p sound = Updated-Step i r p sound (update_record-Updated i r p sound)
perform-Step (deletes i) p sound =
    steps _ (Deleted-IsSound i p sound (delete_record-Deleted i p sound))
perform-Step compacts p sound = steps _ (compact-Compacted p sound).sound'

module _ (o : Operation) (p : Page) where
  before_it :
      (os : List Operation) (q : Page) {end : Option Page}
      → perform o p ≡ some q
      → RunOf q os end
      → RunOf p (o ∷ os) end
  before_it os q h (goes_on _ q' s) = goes_on (o ∷ os) q' s
  before_it os q h (ends before o' rest q' there s at) =
      ends (o ∷ before) o' rest q' (rw h there) s at

  next :
      (os : List Operation) (q : Option Page)
      → perform o p ≡ q
      → IsSound p
      → Step o p q
      → ((q' : Page) → IsSound q' → RunOf q' os (perform_all os q'))
      → RunOf p (o ∷ os) (q >>= perform_all os)
  next os _ h sound (steps q s) on = before_it os q h (on q s)
  next os _ h sound (stops at) on = ends [] o os p refl sound at

perform_from : (os : List Operation) (p : Page) → IsSound p → RunOf p os (perform_all os p)
perform_from [] p sound = goes_on [] p sound
perform_from (o ∷ os) p sound =
    next o p os (perform o p) refl sound (perform-Step o p sound) (perform_from os)

-- Through any operations on a new page its live records stay disjoint parts of the page above
-- data_end, it counts its slots, and its free space, its records and its slot directory add up to
-- the page without its header, as long as no offset in it gets negative; and the first call that
-- makes one negative is an insertion, or an update of a shorter record, of a record that fits the
-- free space and is longer than the room below the records.
pub perform_all-RunOf :
    (id : ℕ) (t : PageType) (p : Page) (os : List Operation)
    → new_page id t ≡ some p
    → RunOf p os (perform_all os p)
perform_all-RunOf id t p os h = perform_from os p (new_page-IsNew id t p h).sound

-- All of the free space lies between the slots and the records.
abbrev pub NoGap : Page → Type 0
NoGap p = (p.header).data_end ≡ header_size + length p.slots * slot_size + (p.header).free_space

-- Into a page without gaps an insertion never starts below the page, and it leaves no gap.
pub insert_record-NoGap :
    (r : List ℕ) (p : Page)
    → NoGap p
    → (p' : Page) × (i : Option ℕ) × (insert_record r p ≡ at_page p' i) × NoGap p'
unfolding insert_record place
insert_record-NoGap r p gap = elim (Bool-cases (ltb (p.header).free_space (length r + slot_size))) [
  | inl b ↦ (p, none, rw (b, insert_record) refl, gap)
  | inr b ↦ elim (Bool-cases (ltb (p.header).data_end (length r))) [
    | inl l ↦ absurd (let x = ltb→lt _ _ l in let y = ltb-false→le _ _ b in omega arith)
    | inr l ↦
        let y = ltb-false→le _ _ b in
        let s : SlotEntry = record { offset = (p.header).data_end - length r; size = length r } in
        elim (Option-cases (first_deleted 0 p.slots)) [
          | inl e ↦ (
            (place_at s.offset (overwrite p.bytes s.offset r) r p none).0,
            some (length p.slots),
            rw (b, insert_record) (rw (l, insert_record) (rw e refl)),
            omega (arith, length-append p.slots (s ∷ [])),
          )
          | inr (i, e) ↦ (
            (place_at s.offset (overwrite p.bytes s.offset r) r p (some i)).0,
            some i,
            rw (b, insert_record) (rw (l, insert_record) (rw e refl)),
            omega (arith, length-set p.slots i s),
          )
        ]
  ]
]
