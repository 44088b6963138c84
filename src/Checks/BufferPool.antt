-- ===== src/Checks/BufferPool.antt =====
-- pysql/storage/buffer_pool.py over a disk that is a list of pages, each with its id and a number.
use solidity_course_blockcha.Prelude.{
  ℕ, zero, suc, ◌≡◌, ◌++◌, refl, ap, sym, ◌∙◌, inl, inr, some, List, [], ◌∷◌, true, arith, dec_lt,
  ℕ_discrete, length, get_elem?, set, length-set, length-append, get_elem?-lt,
  get_elem?-append_left, get_elem?-set_self, get_elem?-set_ne, get_elem?-append_length,
  get_elem?-some,
}
use solidity_course_blockcha.Prelude.Dict
use solidity_course_blockcha.BufferPool.Pool.{
  FrameHeader, BufferPool, DiskManager, ok, raised, value_error, key_error, wrote, init,
  first_empty, sweep, find_victim_frame,
}
use solidity_course_blockcha.BufferPool.Methods.{
  unpin_at, unpin_page, delete_page, fetch_hit, install, evict, load, fetch_page, new_page,
  flush_frame, flush_page, flush_from, flush_all,
}
use solidity_course_blockcha.BufferPool.Coherence.{set-cases, some_eq}
use solidity_course_blockcha.BufferPool.Victims.{find_victim_frame_finds}
use solidity_course_blockcha.BufferPool.Keeps.{IsDisk, IsCoherent}
use solidity_course_blockcha.BufferPool.Evictions.{Fetched, fetch_page-Fetched}
use solidity_course_blockcha.BufferPool.Creations.{Created, new_page-Created}
use solidity_course_blockcha.BufferPool.Runs.{
  Run, start, then_call, fetches, unpins, edits, Run-IsCoherent,
}

program : Unit {0}
unfolding init first_empty sweep find_victim_frame unpin_at unpin_page delete_page fetch_hit install
    evict load fetch_page new_page flush_frame flush_page flush_from flush_all Dict.get Dict.put
    Dict.pop ℕ_discrete
program = tt

abbrev PagesOf : Type 0
PagesOf = List (ℕ × ℕ)

abbrev list_disk : DiskManager PagesOf (ℕ × ℕ)
list_disk = record {
  page_id_of = λ page. page.0;
  num_pages = length;
  read_page = λ id pages. get_elem? pages id;
  write_page = λ page pages. wrote (set pages page.0 page) page;
  allocate_page = λ pages. (pages ++ (length pages, 0) ∷ [], some (length pages, 0));
}

-- Each page is at its id.
abbrev InPlace : PagesOf → Type 0
InPlace pages = (i : ℕ) (page : ℕ × ℕ) → get_elem? pages i ≡ some page → page.0 ≡ i

InPlace-set : (pages : PagesOf) (page : ℕ × ℕ) → InPlace pages → InPlace (set pages page.0 page)
InPlace-set pages page s i p e = elim (set-cases pages page.0 i page p e) [
  | inl (at, v) ↦ ap (λ q. q.0) (sym v) ∙ at
  | inr (ne, e') ↦ s i p e'
]

InPlace-append : (pages : PagesOf) → InPlace pages → InPlace (pages ++ (length pages, 0) ∷ [])
InPlace-append pages s i p e = elim (dec_lt i (length pages)) [
  | yes h ↦ s i p (sym (get_elem?-append_left pages _ i h) ∙ e)
  | no h ↦
      let small = get_elem?-lt (pages ++ (length pages, 0) ∷ []) i p e in
      let size = length-append pages ((length pages, 0) ∷ []) in
      let last : length pages ≡ i = omega arith in
      ap (λ q. q.0)
        (sym (
          some_eq (
            sym (get_elem?-append_length pages (length pages, 0))
            ∙ ap (get_elem? (pages ++ (length pages, 0) ∷ [])) last
            ∙ e)))
      ∙ last
]

abbrev AnyPage : ℕ × ℕ → Type 0
AnyPage page = Unit {0}

list_disk-IsDisk : IsDisk list_disk InPlace AnyPage
list_disk-IsDisk = record {
  capacity = 1000;
  read_id = λ id s page sound e. (sound id page e, get_elem?-lt s id page e, tt);
  readable = λ id s sound small. get_elem?-some s id small;
  write_keeps = λ page s sound fine small. record {
    disk' = set s page.0 page;
    page' = page;
    returns = refl;
    sound' = InPlace-set s page sound;
    same_number = length-set s page.0 page;
    same_id = refl;
    good' = tt;
    reads = get_elem?-set_self s page.0 page small;
    reads_others = λ id ne. get_elem?-set_ne s page.0 id page ne;
  };
  allocate_next = λ s sound space. record {
    disk' = s ++ (length s, 0) ∷ [];
    page = (length s, 0);
    returns = refl;
    sound' = InPlace-append s sound;
    one_more = length-append s ((length s, 0) ∷ []) ∙ omega arith;
    next_id = refl;
    good' = tt;
    reads = get_elem?-append_length s (length s, 0);
    reads_others = λ id small. get_elem?-append_left s ((length s, 0) ∷ []) id small;
  };
}

abbrev three_pages : PagesOf
three_pages = (0, 10) ∷ (1, 11) ∷ (2, 12) ∷ []

three_pages-InPlace : InPlace three_pages
three_pages-InPlace zero page e = ap (λ q. q.0) (sym (some_eq e))
three_pages-InPlace (suc zero) page e = ap (λ q. q.0) (sym (some_eq e))
three_pages-InPlace (suc (suc zero)) page e = ap (λ q. q.0) (sym (some_eq e))
three_pages-InPlace (suc (suc (suc i))) page e = cc

abbrev fresh : BufferPool PagesOf (ℕ × ℕ)
fresh = init three_pages 1

-- Page 0 was fetched, changed, and is no longer used.
abbrev unused : BufferPool PagesOf (ℕ × ℕ)
unused =
    (unpin_page 0 true (record (fetch_page list_disk 0 fresh).0 { frames = some (0, 20) ∷ [] })).0

unused-Run : Run list_disk InPlace AnyPage list_disk-IsDisk fresh unused
unfolding program
unused-Run =
    then_call _ _
      (then_call _ _ (then_call _ _ start (fetches 0 (omega arith)))
        (edits 0 0 (0, 20) refl refl tt))
      (unpins 0 true)

fetches_other : (fetch_page list_disk 1 unused).1 ≡ ok (some (1, 11))
unfolding program
fetches_other = refl

-- A fetch of a page that the disk does not have leaves the evicted page's id in the frame's header,
-- and the next fetch fails on it.
abbrev half_evicted : BufferPool PagesOf (ℕ × ℕ)
half_evicted = (fetch_page list_disk 9 unused).0

written_back : (fetch_page list_disk 1 unused).0.disk ≡ (0, 20) ∷ (1, 11) ∷ (2, 12) ∷ []
unfolding program
written_back = refl

half_evicted_raises : (fetch_page list_disk 9 unused).1 ≡ raised value_error
unfolding program
half_evicted_raises = refl

half_evicted_stays : (fetch_page list_disk 1 half_evicted).1 ≡ raised key_error
unfolding program
half_evicted_stays = refl

unused-IsCoherent : IsCoherent list_disk InPlace AnyPage unused
unused-IsCoherent =
    Run-IsCoherent list_disk InPlace AnyPage list_disk-IsDisk three_pages 1 unused
      three_pages-InPlace unused-Run

fetch_page-Fetched_example :
    Fetched list_disk InPlace AnyPage list_disk-IsDisk 1 (fetch_page list_disk 1 unused)
unfolding program
fetch_page-Fetched_example =
    fetch_page-Fetched list_disk InPlace AnyPage list_disk-IsDisk unused 1 unused-IsCoherent
      (omega arith)

new_page-Created_example :
    Created list_disk InPlace AnyPage list_disk-IsDisk 3 (new_page list_disk unused)
unfolding program list_disk-IsDisk
new_page-Created_example =
    new_page-Created list_disk InPlace AnyPage list_disk-IsDisk unused unused-IsCoherent
      (omega arith)

abbrev unused_header : FrameHeader
unused_header = record { page_id = some 0; pin_count = 0; is_dirty = true; ref_bit = true; lsn = 0 }

find_victim_frame_finds_example : (i : ℕ) × ((find_victim_frame unused).1 ≡ some i)
unfolding program
find_victim_frame_finds_example =
    find_victim_frame_finds unused 0 unused_header refl (omega arith) refl refl
