-- ===== src/Page/Encoding.antt =====
-- What the bytes of a page hold after its header and its slots are written.
use solidity_course_blockcha.Prelude.{
  >>=_some, ℕ, zero, suc, ◌+◌, ◌*◌, ◌^◌, ◌<◌, ◌≤◌, ◌≡◌, refl, ap, ap₂, sym, ◌∙◌, Option, some, List,
  [], ◌∷◌, ◌++◌, arith, ◌>>=◌, lt→ltb, append-nil, length, take, take_all, take-length, slice,
  overwrite, length-overwrite, slice-overwrite_self, slice-overwrite_before, slice-overwrite_after,
  Format, unsigned, signed, pack, unpack, unpack-pack, pack-append, pack_split, be,
}
use solidity_course_blockcha.Page.Header.{
  header_size, slot_size, PageType, type_code, type_of, free, heap_data, btree_internal, btree_leaf,
  overflow, metadata, SlotEntry, slot_format, slot_pack, slot_fields, slot_unpack, PageHeader,
  header_format, header_values, header_pack, header_fields, header_unpack,
}
use solidity_course_blockcha.Page.Codec.{write_slots, read_slots}

-- Bytes that agree in every slice from `from` on.
abbrev pub SameFrom : ℕ → List ℕ → List ℕ → Type 0
SameFrom from b c = (x n : ℕ) → from ≤ x → slice b x n ≡ slice c x n

abbrev pub SameBelow : ℕ → List ℕ → List ℕ → Type 0
SameBelow to b c = (x n : ℕ) → x + n ≤ to → slice b x n ≡ slice c x n

slot_unpack-pack :
    (s : SlotEntry) (r : List ℕ)
    → slot_pack s ≡ some r
    → (slot_unpack r ≡ some s) × (length r ≡ slot_size)
unfolding slot_pack slot_unpack
slot_unpack-pack s r h =
    let (u, n) = unpack-pack slot_format (s.offset ∷ s.size ∷ []) r h in
    (
      ap (λ (b : List ℕ). unpack slot_format b >>= slot_fields) (take_all r slot_size (omega arith))
          ∙ ap (λ (o : Option (List ℕ)). o >>= slot_fields) u,
      n,
    )

-- Writing the slots touches the slot directory only, and there the slots are read again.
pub record Written (i : ℕ) (slots : List SlotEntry) (bytes bytes' : List ℕ) : Type 0 where
  pub same_length : length bytes' ≡ length bytes
  pub below : SameBelow (header_size + i * slot_size) bytes' bytes
  pub above : SameFrom (header_size + (i + length slots) * slot_size) bytes' bytes
  pub slots_back : read_slots (length slots) i bytes' ≡ some slots

pub write_slots-Written :
    (i : ℕ) (slots : List SlotEntry) (bytes bytes' : List ℕ)
    → header_size + (i + length slots) * slot_size ≤ length bytes
    → write_slots i slots bytes ≡ some bytes'
    → Written i slots bytes bytes'
unfolding write_slots read_slots
write_slots-Written i [] bytes bytes' fits h =
    let e : bytes ≡ bytes' = cc in
    record {
      same_length = ap length (sym e);
      below = λ x n le. ap (λ (b : List ℕ). slice b x n) (sym e);
      above = λ x n le. ap (λ (b : List ℕ). slice b x n) (sym e);
      slots_back = refl;
    }
write_slots-Written i (s ∷ slots) bytes bytes' fits h =
    let (r, packed, rest) = >>=_some (slot_pack s) _ h in
    let at = header_size + i * slot_size in
    let (u, n) = slot_unpack-pack s r packed in
    let size = length-overwrite bytes at r (omega arith) in
    let w = write_slots-Written (suc i) slots (overwrite bytes at r) bytes' (omega arith) rest in
    let here : slice bytes' at slot_size ≡ r =
      w.below at slot_size (omega arith)
      ∙ ap (slice (overwrite bytes at r) at) (sym n)
      ∙ slice-overwrite_self bytes at r (omega arith) in
    record {
      same_length = w.same_length ∙ size;
      below = λ x m le.
          w.below x m (omega arith)
          ∙ slice-overwrite_before bytes at r x m (omega arith) (omega arith);
      above = λ x m le.
          w.above x m (omega arith)
          ∙ slice-overwrite_after bytes at r x m (omega arith) (omega arith);
      slots_back = rw (here, read_slots) (rw (u, read_slots) (rw (w.slots_back, read_slots)));
    }

-- The slots are read from the bytes past the header.
pub read_slots_local :
    (count i : ℕ) (b c : List ℕ)
    → SameFrom header_size b c
    → read_slots count i b ≡ read_slots count i c
unfolding read_slots
read_slots_local zero i b c same = refl
read_slots_local (suc count) i b c same =
    ap₂
      (λ (d : List ℕ) (o : Option (List SlotEntry)).
        slot_unpack d >>= λ s. o >>= λ slots. some (s ∷ slots))
      (same (header_size + i * slot_size) slot_size (omega arith))
      (read_slots_local count (suc i) b c same)

type_of-type_code : (t : PageType) → type_of (type_code t) ≡ some t
type_of-type_code free = refl
type_of-type_code heap_data = refl
type_of-type_code btree_internal = refl
type_of-type_code btree_leaf = refl
type_of-type_code overflow = refl
type_of-type_code metadata = refl

pub header_unpack-pack :
    (h : PageHeader) (r : List ℕ)
    → header_pack h ≡ some r
    → (length r ≡ header_size) × ((b : List ℕ) → take header_size b ≡ r → header_unpack b ≡ some h)
unfolding header_pack header_unpack
header_unpack-pack h r e =
    let (u, n) = unpack-pack header_format (header_values h) r e in
    (
      n,
      λ b is.
          ap (λ (d : List ℕ). unpack header_format d >>= header_fields) is
          ∙ ap (λ (o : Option (List ℕ)). o >>= header_fields) u
          ∙ ap (λ (o : Option PageType). o >>= λ t. some (record h { page_type = t }))
              (type_of-type_code h.page_type),
    )

pack_one : (c : ℕ) → c < 2 ^ 32 → pack (unsigned 4 ∷ []) (c ∷ []) ≡ some (be 4 c)
unfolding pack
pack_one c small = rw (lt→ltb c (2 ^ 32) small) (ap some (append-nil (be 4 c)))

-- The checksum is the last field of the header.
pub header_pack_checksum :
    (h : PageHeader) (r : List ℕ) (c : ℕ)
    → header_pack h ≡ some r
    → c < 2 ^ 32
    → header_pack (record h { checksum = c }) ≡ some (take 28 r ++ be 4 c)
unfolding header_pack
header_pack_checksum h r c e small =
    let fs : List Format =
      unsigned 4
      ∷ unsigned 1
      ∷ unsigned 1
      ∷ unsigned 2
      ∷ unsigned 2
      ∷ unsigned 2
      ∷ unsigned 4
      ∷ unsigned 4
      ∷ signed 8
      ∷ [] in
    let vs : List ℕ =
      h.page_id
      ∷ type_code h.page_type
      ∷ h.flags
      ∷ h.num_slots
      ∷ h.free_space
      ∷ h.data_end
      ∷ h.next_page
      ∷ h.prev_page
      ∷ h.lsn
      ∷ [] in
    let (a, b, ha, hb, joined) = pack_split fs (unsigned 4 ∷ []) vs (h.checksum ∷ []) r refl e in
    let (_, n) = unpack-pack fs vs a ha in
    let front : take 28 r ≡ a =
      ap (take 28) (sym joined) ∙ ap (λ (k : ℕ). take k (a ++ b)) (sym n) ∙ take-length a b in
    pack-append fs (unsigned 4 ∷ []) vs (c ∷ []) a (be 4 c) ha (pack_one c small)
    ∙ ap (λ (l : List ℕ). some (l ++ be 4 c)) (sym front)
