-- ===== src/Page/RoundTrip.antt =====
-- A page that is written and read back is the same page.
use solidity_course_blockcha.Prelude.{
  >>=_some, ℕ, ◌+◌, ◌*◌, ◌^◌, ◌%◌, ◌<◌, ◌≤◌, ◌≡◌, refl, ap, ap₂, sym, subst, ◌∙◌, true, some, List,
  ◌++◌, arith, ==_iff, length, get_elem?, take, take-append_left, drop, take_all, take_add,
  drop-slice, slice, overwrite, length-overwrite, slice-overwrite_self, slice-overwrite_before,
  slice-overwrite_after, be, length-be,
}
use solidity_course_blockcha.Page.Header.{
  page_size, header_size, slot_size, SlotEntry, PageHeader, header_pack, header_unpack, Page,
}
use solidity_course_blockcha.Page.Records.{read_record, live_slot}
use solidity_course_blockcha.Page.Codec.{
  write_header, write_slots, read_slots, from_bytes, checksum_of, to_bytes, verify_checksum,
}
use solidity_course_blockcha.Page.Accounts.{IsSound, total, read_kept}
use solidity_course_blockcha.Page.Encoding.{
  SameFrom, Written, write_slots-Written, read_slots_local, header_unpack-pack,
  header_pack_checksum,
}

-- The slot directory ends where the records begin, or below.
abbrev pub NoOverlap : Page → Type 0
NoOverlap p = header_size + length p.slots * slot_size ≤ (p.header).data_end

module _ (crc32 : List ℕ → ℕ) where
  -- The page that is read from the bytes.
  pub record ReadBack (p p' : Page) : Type 0 where
    pub parsed : from_bytes p'.bytes ≡ some p'
    pub same_header : p'.header ≡ record p.header { checksum = checksum_of crc32 p'.bytes }
    pub same_slots : p'.slots ≡ p.slots
    pub same_length : length p'.bytes ≡ page_size
    pub verified : verify_checksum crc32 p' ≡ true

  module _ (p : Page) (sound : IsSound p) (r b : List ℕ) (packed : header_pack p.header ≡ some r)
      (written : write_slots 0 p.slots (overwrite p.bytes 0 r) ≡ some b) where
    abbrev c : ℕ
    c = checksum_of crc32 b

    abbrev out : List ℕ
    out = overwrite b 28 (be 4 c)

    small : c < 2 ^ 32
    unfolding checksum_of
    small = omega arith

    length_r : length r ≡ header_size
    length_r = (header_unpack-pack p.header r packed).0

    length_first : length (overwrite p.bytes 0 r) ≡ page_size
    length_first =
        length-overwrite p.bytes 0 r (let n = (sound.laid).whole in let m = length_r in omega arith)
        ∙ (sound.laid).whole

    w : Written 0 p.slots (overwrite p.bytes 0 r) b
    w =
        write_slots-Written 0 p.slots _ b
          (let n = length_first in let e = (sound.laid).ends in omega arith) written

    length_b : length b ≡ page_size
    length_b = w.same_length ∙ length_first

    length-out : length out ≡ page_size
    length-out =
        length-overwrite b 28 (be 4 c) (let n = length_b in omega (arith, length-be 4 c)) ∙ length_b

    past_header : SameFrom header_size out b
    past_header x n le =
        slice-overwrite_after b 28 (be 4 c) x n (omega (arith, length-be 4 c))
          (let m = length_b in omega (arith, length-be 4 c))

    front : take 28 (overwrite p.bytes 0 r) ≡ take 28 r
    unfolding overwrite
    front = take-append_left 28 r (drop (length r) p.bytes) (let m = length_r in omega arith)

    header_bytes : take header_size out ≡ take 28 r ++ be 4 c
    header_bytes =
        take_add 28 4 out
        ∙ ap₂ (λ (x y : List ℕ). x ++ y)
            (slice-overwrite_before b 28 (be 4 c) 0 28 (omega arith)
                (let m = length_b in omega arith)
              ∙ w.below 0 28 (omega arith)
              ∙ front)
            (ap (slice out 28) (sym (length-be 4 c))
              ∙ slice-overwrite_self b 28 (be 4 c) (let m = length_b in omega arith))

    abbrev page_out : Page
    page_out = record p { bytes = out; header = record p.header { checksum = c } }

    header_back : header_unpack out ≡ some (record p.header { checksum = c })
    header_back =
        (header_unpack-pack _ _ (header_pack_checksum p.header r c packed small)).1 out header_bytes

    slots_back : read_slots (p.header).num_slots 0 out ≡ some p.slots
    slots_back =
        ap (λ (k : ℕ). read_slots k 0 out) sound.counted
        ∙ read_slots_local (length p.slots) 0 out b past_header
        ∙ w.slots_back

    parsed_out : from_bytes out ≡ some page_out
    unfolding from_bytes
    parsed_out =
        let whole = take_all out page_size (let m = length-out in omega arith) in
        rw (whole, from_bytes) (rw (header_back, from_bytes) (rw (slots_back, from_bytes)))

    checksum_out : checksum_of crc32 out ≡ c
    unfolding checksum_of
    checksum_out =
        ap₂ (λ (x y : List ℕ). crc32 (x ++ y) % 2 ^ 32)
          (slice-overwrite_before b 28 (be 4 c) 0 28 (omega arith)
            (let m = length_b in omega arith))
          (sym (drop-slice out header_size page_size (let m = length-out in omega arith))
            ∙ past_header header_size page_size (omega arith)
            ∙ drop-slice b header_size page_size (let m = length_b in omega arith))

    verified_out : verify_checksum crc32 page_out ≡ true
    unfolding verify_checksum
    verified_out = (==_iff c (checksum_of crc32 out)).1 (sym checksum_out)

    records_out : NoOverlap p → (i : ℕ) → read_record i page_out ≡ read_record i p
    records_out apart i = read_kept p page_out i refl (λ s h.
        (let (from, to) = (sound.laid).within i s h in
          past_header s.offset s.size (omega arith)
          ∙ w.above s.offset s.size (omega arith)
          ∙ slice-overwrite_after p.bytes 0 r s.offset s.size (let m = length_r in omega arith)
              (let m = length_r in let n = (sound.laid).whole in omega arith)))

    read_back : ReadBack p page_out
    read_back = record {
      parsed = parsed_out;
      same_header = ap (λ (k : ℕ). record p.header { checksum = k }) (sym checksum_out);
      same_slots = refl;
      same_length = length-out;
      verified = verified_out;
    }

  back_and_records :
      (p p' : Page)
      → IsSound p
      → to_bytes crc32 p ≡ some p'
      → ReadBack p p' × (NoOverlap p → (i : ℕ) → read_record i p' ≡ read_record i p)
  unfolding to_bytes write_header
  back_and_records p p' sound h =
      let (first, hf, h') = >>=_some (write_header p.header p.bytes) _ h in
      let (r, packed, is) = >>=_some (header_pack p.header) _ hf in
      let (b, written, is') = >>=_some (write_slots 0 p.slots first) _ h' in
      let start : overwrite p.bytes 0 r ≡ first = cc in
      let written' = ap (write_slots 0 p.slots) start ∙ written in
      subst
        (λ (q : Page). ReadBack p q × (NoOverlap p → (i : ℕ) → read_record i q ≡ read_record i p))
        (cc) (read_back p sound r b packed written', records_out p sound r b packed written')

  pub to_bytes-ReadBack : (p p' : Page) → IsSound p → to_bytes crc32 p ≡ some p' → ReadBack p p'
  to_bytes-ReadBack p p' sound h = (back_and_records p p' sound h).0

  -- A sound page whose slots do not reach into its records, when it can be written at all, is read
  -- back from its bytes: with the same header but for the checksum, with the same slots, with a
  -- checksum that is verified, and with the same record at every index.
  pub from_bytes-to_bytes :
      (p p' : Page)
      → IsSound p
      → NoOverlap p
      → to_bytes crc32 p ≡ some p'
      → ReadBack p p' × ((i : ℕ) → read_record i p' ≡ read_record i p)
  from_bytes-to_bytes p p' sound apart h =
      let (back, records) = back_and_records p p' sound h in (back, records apart)

  pub ReadBack-IsSound : (p p' : Page) → IsSound p → ReadBack p p' → IsSound p'
  ReadBack-IsSound p p' sound back =
      let e = back.same_header in
      let s = back.same_slots in
      let ends = ap (λ (h : PageHeader). h.data_end) e in
      let free = ap (λ (h : PageHeader). h.free_space) e in
      let count = ap (λ (h : PageHeader). h.num_slots) e in
      record {
        laid = record {
          whole = back.same_length;
          ends = omega (arith, (sound.laid).ends);
          within = λ i t h.
              (let w =
                  (sound.laid).within i t
                    (ap (λ (l : List SlotEntry). live_slot (get_elem? l i)) (sym s) ∙ h) in
                omega arith);
          apart = λ i j t u ne g h.
              (sound.laid).apart i j t u ne
                (ap (λ (l : List SlotEntry). live_slot (get_elem? l i)) (sym s) ∙ g)
                (ap (λ (l : List SlotEntry). live_slot (get_elem? l j)) (sym s) ∙ h);
        };
        counted = count ∙ sound.counted ∙ ap length (sym s);
        accounted =
            (let o = sound.accounted in
              let t = ap total s in let n = ap (λ (l : List SlotEntry). length l) s in omega arith);
      }
