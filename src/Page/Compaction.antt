-- ===== src/Page/Compaction.antt =====
-- A compaction moves the records together and changes none.
use solidity_course_blockcha.Prelude.{
  ℕ, zero, suc, ◌+◌, ◌-◌, ◌*◌, ◌≡◌, refl, ap, sym, subst, ◌∙◌, inl, inr, Option, none, some, List,
  [], ◌∷◌, Option-cases, arith, length, get_elem?, slice,
}
use solidity_course_blockcha.Page.Header.{page_size, header_size, slot_size, SlotEntry, Page}
use solidity_course_blockcha.Page.Records.{
  mark_dirty, live_slot, slot_at, record_of, read_record, get_all_records, compact,
}
use solidity_course_blockcha.Page.Layout.{Live}
use solidity_course_blockcha.Page.Accounts.{total, IsSound, read-Live, read_free}
use solidity_course_blockcha.Page.Erasures.{
  erase, Ascending, In, sum_length, erase-In, erase_dead, live_from-Ascending, live_from-In,
  Pending, sizes_of, contents, InPage, live_from-Pending,
}
use solidity_course_blockcha.Page.Moves.{Packing, Packed, packed, pack_records-Packed}

total-sizes_of :
    (slots slots' : List SlotEntry)
    → sizes_of slots' ≡ sizes_of slots
    → (total slots' ≡ total slots) × (length slots' ≡ length slots)
total-sizes_of [] [] e = (refl, refl)
total-sizes_of [] (s ∷ slots') e = cc
total-sizes_of (s ∷ slots) [] e = cc
total-sizes_of (s ∷ slots) (t ∷ slots') e =
    let (a, b) = total-sizes_of slots slots' (ap tail e) in
    let n : t.size ≡ s.size = ap head e in (omega arith, omega arith)
  where
    tail : List ℕ → List ℕ
    tail [] = []
    tail (x ∷ xs) = xs

    head : List ℕ → ℕ
    head [] = 0
    head (x ∷ xs) = x

-- Slots of the same sizes are in use alike.
free_alike :
    (slots slots' : List SlotEntry) (j : ℕ)
    → sizes_of slots' ≡ sizes_of slots
    → live_slot (get_elem? slots j) ≡ none
    → live_slot (get_elem? slots' j) ≡ none
free_alike [] [] j e h = refl
free_alike [] (s ∷ slots') j e h = cc
free_alike (s ∷ slots) [] j e h = cc
free_alike (s ∷ slots) (t ∷ slots') zero e h = let n : t.size ≡ s.size = cc in ground arith
free_alike (s ∷ slots) (t ∷ slots') (suc j) e h = free_alike slots slots' j (cc) h

ascending : (p : Page) → Ascending 0 (get_all_records p)
unfolding get_all_records
ascending p = live_from-Ascending 0 p.bytes p.slots

module _ (p : Page) (sound : IsSound p) where
  open sound use {laid, counted, accounted}

  abbrev content : ℕ → List ℕ
  content j = contents p.bytes (get_elem? p.slots j)

  inside :
      (slots : List SlotEntry) (k : ℕ)
      → ((j : ℕ) → get_elem? slots j ≡ get_elem? p.slots (k + j))
      → InPage p.bytes slots
  inside [] k same = tt
  inside (s ∷ slots) k same = (
    (λ z.
        (let w = laid.within (k + 0) s (ap live_slot (sym (same 0)) ∙ ground arith) in
          let n = laid.whole in omega arith)),
    inside slots (suc k) (λ j.
        (let shift : k + suc j ≡ suc k + j = omega arith in
          same (suc j) ∙ ap (get_elem? p.slots) shift)),
  )

  size_at :
      (slots : List SlotEntry) (j : ℕ) (s : SlotEntry)
      → get_elem? slots j ≡ some s
      → get_elem? (sizes_of slots) j ≡ some s.size
  size_at [] j s h = cc
  size_at (x ∷ slots) zero s h = let e : x ≡ s = cc in ap (λ (t : SlotEntry). some t.size) e
  size_at (x ∷ slots) (suc j) s h = size_at slots j s h

  all_erased : (i : ℕ) (s : SlotEntry) → ¬ (Live (erase (get_all_records p) p.slots) i s)
  unfolding get_all_records
  all_erased i s h = elim (Option-cases (slot_at i p)) [
    | inl e ↦ not_both (erase_dead (get_all_records p) p.slots i e) h
    | inr (t, e) ↦
        let z : 0 + i ≡ i = omega arith in
        not_both
          (erase-In (get_all_records p) p.slots i
            (subst (λ (k : ℕ). In k (get_all_records p)) z (live_from-In 0 p.bytes p.slots i t e)))
          h
  ]
    where
      not_both : {o : Option SlotEntry} → o ≡ none → ¬ (o ≡ some s)
      not_both e h = cc

  starting_at :
      (j : ℕ) (s : SlotEntry)
      → get_elem? p.slots j ≡ some s
      → (get_elem? (sizes_of p.slots) (0 + j) ≡ some s.size)
        × (content (0 + j) ≡ slice p.bytes s.offset s.size)
  starting_at j s h =
      let z : j ≡ 0 + j = omega arith in
      (
        ap (get_elem? (sizes_of p.slots)) (sym z) ∙ size_at p.slots j s h,
        ap (λ (k : ℕ). content k) (sym z) ∙ ap (contents p.bytes) h,
      )

  start-Pending :
      Pending content (sizes_of p.slots) (get_all_records p)
      × (sum_length (get_all_records p) ≡ total p.slots)
  unfolding get_all_records
  start-Pending =
      live_from-Pending content (sizes_of p.slots) 0 p.bytes p.slots
        (inside p.slots 0 (λ j. (let z : j ≡ 0 + j = omega arith in ap (get_elem? p.slots) z)))
        starting_at

  at_start : Packing content (sizes_of p.slots) (get_all_records p) page_size p.bytes p.slots
  at_start =
      let (pending, sum) = start-Pending in
      record {
        sizes_are = refl;
        pending = pending;
        laid = record {
          whole = laid.whole;
          ends = omega arith;
          within = λ i s h. absurd (all_erased i s h);
          apart = λ i j s t ne g h. absurd (all_erased i s g);
        };
        reads = λ i s h. absurd (all_erased i s h);
        room = omega arith;
      }

  -- The page after a compaction.
  pub record Compacted (p' : Page) : Type 0 where
    pub sound' : IsSound p'
    pub same_reads : (j : ℕ) → read_record j p' ≡ read_record j p
    pub same_space : (p'.header).free_space ≡ (p.header).free_space
    pub no_gap :
        (p'.header).data_end ≡ header_size + length p'.slots * slot_size + (p'.header).free_space

  same_read :
      (p' : Page)
      → sizes_of p'.slots ≡ sizes_of p.slots
      → ((j : ℕ) (s : SlotEntry) → Live p'.slots j s → record_of p' s ≡ content j)
      → (j : ℕ) → read_record j p' ≡ read_record j p
  same_read p' sizes reads j = elim (Option-cases (slot_at j p)) [
    | inl e ↦ read_free p' j (free_alike p.slots p'.slots j sizes e) ∙ sym (read_free p j e)
    | inr (t, e) ↦ elim (Option-cases (slot_at j p')) [
      | inl e' ↦ absurd (not_both (free_alike p'.slots p.slots j (sym sizes) e') e)
      | inr (s, e') ↦
          let g : get_elem? p.slots j ≡ some t =
            ground (arith, Option-cases (get_elem? p.slots j)) in
          read-Live p' j s e'
          ∙ ap some (reads j s e' ∙ ap (contents p.bytes) g)
          ∙ sym (read-Live p j t e)
    ]
  ]
    where
      not_both : {o : Option SlotEntry} {t : SlotEntry} → o ≡ none → ¬ (o ≡ some t)
      not_both e h = cc

  compacted :
      (sum at : ℕ) (q : List ℕ × List SlotEntry × ℕ)
      → Packed content (sizes_of p.slots) sum at q
      → at ≡ page_size
      → sum ≡ total p.slots
      → Compacted (record p {
        bytes = q.0;
        slots = q.1;
        header = mark_dirty (record p.header {
          data_end = q.2;
          free_space = q.2 - (header_size + length q.1 * slot_size);
        });
      })
  compacted sum at _ (packed bytes slots at' sizes laid' reads is) full all =
      let (t, n) = total-sizes_of p.slots slots sizes in
      record {
        sound' = record { laid = laid'; counted = counted ∙ sym n; accounted = omega arith };
        same_reads = same_read _ sizes reads;
        same_space = omega arith;
        no_gap = omega arith;
      }

  -- A compaction of a sound page keeps what is read at every index, the free space and the
  -- invariant, and leaves no gap: all of the free space lies between the slots and the records.
  pub compact-Compacted : Compacted (compact p)
  unfolding compact
  compact-Compacted =
      compacted _ _ _
        (pack_records-Packed content (sizes_of p.slots) 0 (get_all_records p) page_size p.bytes
          p.slots (ascending p) at_start)
        refl start-Pending.1
