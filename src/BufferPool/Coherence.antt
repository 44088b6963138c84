-- ===== src/BufferPool/Coherence.antt =====
-- What ties the page table to the frames, and the steps by which the methods change both.
use solidity_course_blockcha.Prelude.{
  ℕ, ◌<◌, ◌≡◌, ◌≢◌, ◌⊎◌, ap, sym, subst, ◌∙◌, inl, inr, Option, none, some, List, ℕ_discrete,
  length, get_elem?, set, length-set, get_elem?-set_self, get_elem?-set_ne, get_elem?-lt,
}
use solidity_course_blockcha.Prelude.Dict
use solidity_course_blockcha.Prelude.Dict.{get-put_self, get-put_ne, get-pop_self, get-pop_ne}

-- The page table and the frames say the same: an id is in the table at a frame exactly when the
-- frame's header has the id, and such a frame holds a page with that id.
pub record Coherent {P : Type 0} (page_id_of : P → ℕ) (residents : List (Option ℕ))
    (frames : List (Option P)) (table : List (ℕ × ℕ)) : Type 0 where
  pub same_size : length frames ≡ length residents
  pub to_frame :
      (id i : ℕ) → Dict.get ℕ_discrete table id ≡ some i → get_elem? residents i ≡ some (some id)
  pub to_table :
      (id i : ℕ) → get_elem? residents i ≡ some (some id) → Dict.get ℕ_discrete table id ≡ some i
  pub holds :
      (id i : ℕ)
      → get_elem? residents i ≡ some (some id)
      → (page : P) × (get_elem? frames i ≡ some (some page)) × (page_id_of page ≡ id)

-- The table without the page of an evicted frame.
abbrev pub without : Option ℕ → List (ℕ × ℕ) → List (ℕ × ℕ)
without none table = table
without (some id) table = Dict.pop ℕ_discrete table id

pub some_eq {ℓ} : {A : Type ℓ} {a b : A} → some a ≡ some b → a ≡ b
some_eq e = cc

pub none-some {ℓ} : {A : Type ℓ} {a : A} → none ≢ some a
none-some e = cc

-- An element after a write is the one written or an element before.
pub set-cases {ℓ} :
    {A : Type ℓ} (xs : List A) (i j : ℕ) (v y : A)
    → get_elem? (set xs i v) j ≡ some y
    → ((i ≡ j) × (v ≡ y)) ⊎ ((i ≢ j) × (get_elem? xs j ≡ some y))
set-cases xs i j v y h = elim (ℕ_discrete i j) [
  | yes e ↦ inl (
    e,
    some_eq (
        sym (
          get_elem?-set_self xs i v (
            subst (λ n. i < n) (length-set xs i v)
              (get_elem?-lt (set xs i v) i y (ap (get_elem? (set xs i v)) e ∙ h))))
        ∙ ap (get_elem? (set xs i v)) e
        ∙ h),
  )
  | no ne ↦ inr (ne, sym (get_elem?-set_ne xs i j v ne) ∙ h)
]

module _ {P : Type 0} (page_id_of : P → ℕ) (residents : List (Option ℕ)) (frames : List (Option P))
    (table : List (ℕ × ℕ)) (c : Coherent page_id_of residents frames table) where
  open c use {same_size, to_frame, to_table, holds}

  -- A page that is in no frame `i` is in another frame.
  elsewhere :
      (i id j : ℕ)
      → get_elem? residents i ≢ some (some id)
      → Dict.get ℕ_discrete table id ≡ some j
      → i ≢ j
  elsewhere i id j other h e =
      other (subst (λ k. get_elem? residents k ≡ some (some id)) (sym e) (to_frame id j h))

  -- The table without the old page of frame `i` leads to the other frames only.
  get-without :
      (i : ℕ) (old : Option ℕ)
      → get_elem? residents i ≡ some old
      → (id j : ℕ) → Dict.get ℕ_discrete (without old table) id ≡ some j
      → (Dict.get ℕ_discrete table id ≡ some j) × (i ≢ j)
  get-without i none at id j h = (h, elsewhere i id j (λ e. cc) h)
  get-without i (some o) at id j h = elim (ℕ_discrete o id) [
    | yes e ↦ absurd (
        none-some (
          sym (get-pop_self ℕ_discrete table o)
          ∙ ap (Dict.get ℕ_discrete (Dict.pop ℕ_discrete table o)) e
          ∙ h))
    | no ne ↦ (
      sym (get-pop_ne ℕ_discrete table o id ne) ∙ h,
      elsewhere i id j (λ e. ne cc) (sym (get-pop_ne ℕ_discrete table o id ne) ∙ h),
    )
  ]

  without-get :
      (i : ℕ) (old : Option ℕ)
      → get_elem? residents i ≡ some old
      → (id j : ℕ) → Dict.get ℕ_discrete table id ≡ some j
      → i ≢ j
      → Dict.get ℕ_discrete (without old table) id ≡ some j
  without-get i none at id j h ne = h
  without-get i (some o) at id j h ne =
      get-pop_ne ℕ_discrete table o id
        (λ e. ne (some_eq (sym (to_table o i at) ∙ ap (Dict.get ℕ_discrete table) e ∙ h)))
      ∙ h

  -- The page of frame `i` is dropped from the table and the frame emptied.
  pub clear :
      (i : ℕ) (old : Option ℕ)
      → get_elem? residents i ≡ some old
      → Coherent page_id_of (set residents i none) (set frames i none) (without old table)
  clear i old at = record {
    same_size = length-set frames i none ∙ same_size ∙ sym (length-set residents i none);
    to_frame = λ id j h.
        let (h', ne) = get-without i old at id j h in
        get_elem?-set_ne residents i j none ne ∙ to_frame id j h';
    to_table = λ id j h. elim (set-cases residents i j none (some id) h) [
      | inl (e, v) ↦ absurd cc
      | inr (ne, h') ↦ without-get i old at id j (to_table id j h') ne
    ];
    holds = λ id j h. elim (set-cases residents i j none (some id) h) [
      | inl (e, v) ↦ absurd cc
      | inr (ne, h') ↦
          (let (page, f, e) = holds id j h' in (page, get_elem?-set_ne frames i j none ne ∙ f, e))
    ];
  }

  -- A page that is not in the table goes into an empty frame.
  pub fill :
      (i id : ℕ) (page : P)
      → get_elem? residents i ≡ some none
      → Dict.get ℕ_discrete table id ≡ none
      → page_id_of page ≡ id
      → Coherent page_id_of
          (set residents i (some id))
          (set frames i (some page))
          (Dict.put ℕ_discrete table id i)
  fill i id page at absent same = record {
    same_size =
        length-set frames i (some page) ∙ same_size ∙ sym (length-set residents i (some id));
    to_frame = λ k j h. elim (ℕ_discrete id k) [
      | yes e ↦
          (let put_i = get-put_self ℕ_discrete table id i in
            let i_j =
              some_eq
                (sym put_i ∙ ap (Dict.get ℕ_discrete (Dict.put ℕ_discrete table id i)) e ∙ h) in
            (ap (get_elem? (set residents i (some id))) (sym i_j)
              ∙ get_elem?-set_self residents i (some id) (get_elem?-lt residents i none at)
              ∙ ap (λ x. some (some x)) e))
      | no ne ↦
          (let h' = sym (get-put_ne ℕ_discrete table id k i ne) ∙ h in
            get_elem?-set_ne residents i j (some id) (elsewhere i k j (λ e. cc) h')
            ∙ to_frame k j h')
    ];
    to_table = λ k j h. elim (set-cases residents i j (some id) (some k) h) [
      | inl (e, v) ↦
          ap (Dict.get ℕ_discrete (Dict.put ℕ_discrete table id i)) (sym (some_eq v))
          ∙ get-put_self ℕ_discrete table id i
          ∙ ap some e
      | inr (ne, h') ↦
          get-put_ne ℕ_discrete table id k i
            (λ e. none-some (sym absent ∙ ap (Dict.get ℕ_discrete table) e ∙ to_table k j h'))
          ∙ to_table k j h'
    ];
    holds = λ k j h. elim (set-cases residents i j (some id) (some k) h) [
      | inl (e, v) ↦ (
        page,
        ap (get_elem? (set frames i (some page))) (sym e)
            ∙ get_elem?-set_self frames i (some page)
                (subst (λ n. i < n) (sym same_size) (get_elem?-lt residents i none at)),
        same ∙ some_eq v,
      )
      | inr (ne, h') ↦
          (let (p, f, e) = holds k j h' in (p, get_elem?-set_ne frames i j (some page) ne ∙ f, e))
    ];
  }

  -- A page of a frame is replaced by one with its id.
  pub edit :
      (i id : ℕ) (page : P)
      → get_elem? residents i ≡ some (some id)
      → page_id_of page ≡ id
      → Coherent page_id_of residents (set frames i (some page)) table
  edit i id page at same = record {
    same_size = length-set frames i (some page) ∙ same_size;
    to_frame = to_frame;
    to_table = to_table;
    holds = λ k j h. elim (ℕ_discrete i j) [
      | yes e ↦
          (let is : id ≡ k = some_eq (some_eq (sym at ∙ ap (get_elem? residents) e ∙ h)) in
            (
              page,
              ap (get_elem? (set frames i (some page))) (sym e)
                  ∙ get_elem?-set_self frames i (some page)
                      (subst (λ n. i < n) (sym same_size) (get_elem?-lt residents i _ at)),
              same ∙ is,
            ))
      | no ne ↦
          (let (p, f, e) = holds k j h in (p, get_elem?-set_ne frames i j (some page) ne ∙ f, e))
    ];
  }
