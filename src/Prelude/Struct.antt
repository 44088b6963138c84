-- ===== src/Prelude/Struct.antt =====
-- The struct module at the big-endian formats that the program uses: numbers as bytes, and back.
use Prim.Native.Nat.{ℕ, zero, suc, ◌+◌, ◌*◌, ◌/◌, ◌%◌, ◌^◌, ◌<◌, ◌≤◌}
use mathlib.Core.Path.{◌≡◌, refl, ap, sym, ◌∙◌}
use mathlib.Core.Logic.{inl, inr}
use mathlib.Core.Bool.{false}
use mathlib.Core.List.{List, [], ◌∷◌, ◌++◌, append_assoc}
use mathlib.Core.Option as Option
use mathlib.Core.Option.{Option, none, some}
use native.Mathlib.Nat.{pow-suc}
use native.Mathlib.Omega.{arith}
use solidity_course_blockcha.Prelude.Tests.{
  ltb, ltb→lt, ltb-false→le, if◌then◌else◌, lt→ltb, Bool-cases, Option-cases, ◌>>=◌,
}
use solidity_course_blockcha.Prelude.Lists.{length, take, drop}
use solidity_course_blockcha.Prelude.Bytes.{length-drop, length-join, take-length, drop-length}

-- The low `w` bytes of a number, the highest first.
unfoldable pub be : ℕ → ℕ → List ℕ
be zero x = []
be (suc w) x = be w (x / 256) ++ (x % 256) ∷ []

abbrev pub of_be : ℕ → List ℕ → ℕ
of_be acc [] = acc
of_be acc (b ∷ bs) = of_be (acc * 256 + b) bs

of_be-append : (acc : ℕ) (xs : List ℕ) (b : ℕ) → of_be acc (xs ++ b ∷ []) ≡ of_be acc xs * 256 + b
of_be-append acc [] b = refl
of_be-append acc (x ∷ xs) b = of_be-append (acc * 256 + x) xs b

pub length-be : (w x : ℕ) → length (be w x) ≡ w
unfolding be
length-be zero x = refl
length-be (suc w) x =
    omega (arith, length-join (be w (x / 256)) ((x % 256) ∷ []), length-be w (x / 256))

pub of_be-be : (w x : ℕ) → x < 256 ^ w → of_be 0 (be w x) ≡ x
unfolding be
of_be-be zero x h = omega arith
of_be-be (suc w) x h =
    of_be-append 0 (be w (x / 256)) (x % 256)
    ∙ omega (arith, of_be-be w (x / 256) (omega (arith, pow-suc 256 w)))

-- The formats of the struct module, with the number of bytes. A signed number is not negative here:
-- the program packs none that is.
pub data Format : Type 0 where
  unsigned : ℕ → Format
  signed : ℕ → Format

abbrev pub width : Format → ℕ
width (unsigned w) = w
width (signed w) = w

-- The numbers below this one can be packed.
abbrev pub limit : Format → ℕ
limit (unsigned w) = 256 ^ w
limit (signed w) = 256 ^ w / 2

-- `none` is struct.error.
unfoldable pub pack : List Format → List ℕ → Option (List ℕ)
pack [] [] = some []
pack [] (v ∷ vs) = none
pack (f ∷ fs) [] = none
pack (f ∷ fs) (v ∷ vs) =
    if ltb v (limit f) then Option.map (λ bs. be (width f) v ++ bs) (pack fs vs) else none

abbrev pub checked : Format → ℕ → Option ℕ
checked f v = if ltb v (limit f) then some v else none

unfoldable pub unpack : List Format → List ℕ → Option (List ℕ)
unpack [] [] = some []
unpack [] (b ∷ bs) = none
unpack (f ∷ fs) bs =
    if ltb (length bs) (width f) then none else elim (checked f (of_be 0 (take (width f) bs))) [
      | none ↦ none
      | some v ↦ Option.map (λ vs. v ∷ vs) (unpack fs (drop (width f) bs))
    ]

abbrev pub sizes : List Format → ℕ
sizes [] = 0
sizes (f ∷ fs) = width f + sizes fs

limit-le : (f : Format) → limit f ≤ 256 ^ width f
limit-le (unsigned w) = omega arith
limit-le (signed w) = omega arith

ltb-ge : (a b : ℕ) → b ≤ a → ltb a b ≡ false
ltb-ge a b h = ground arith

unpack-step :
    (f : Format) (fs : List Format) (v : ℕ) (bs : List ℕ) {vs : List ℕ}
    → v < limit f
    → unpack fs bs ≡ some vs
    → unpack (f ∷ fs) (be (width f) v ++ bs) ≡ some (v ∷ vs)
unfolding unpack
unpack-step f fs v bs {vs} small h =
    let size = length-be (width f) v in
    let long : ltb (length (be (width f) v ++ bs)) (width f) ≡ false =
      ltb-ge _ _ (omega (arith, length-join (be (width f) v) bs, size)) in
    let first : take (width f) (be (width f) v ++ bs) ≡ be (width f) v =
      ap (λ (k : ℕ). take k (be (width f) v ++ bs)) (sym size) ∙ take-length (be (width f) v) bs in
    let rest : drop (width f) (be (width f) v ++ bs) ≡ bs =
      ap (λ (k : ℕ). drop k (be (width f) v ++ bs)) (sym size) ∙ drop-length (be (width f) v) bs in
    let value : of_be 0 (be (width f) v) ≡ v = of_be-be (width f) v (omega (arith, limit-le f)) in
    let fits : checked f v ≡ some v = rw (lt→ltb v (limit f) small) in
    rw (long, unpack)
      (rw (first, unpack) (rw (value, unpack) (rw (fits, unpack) (rw (rest, unpack) (rw h)))))

unpack_end : unpack [] [] ≡ some []
unfolding unpack
unpack_end = refl

-- What was packed is unpacked.
pub unpack-pack :
    (fs : List Format) (vs bs : List ℕ)
    → pack fs vs ≡ some bs
    → (unpack fs bs ≡ some vs) × (length bs ≡ sizes fs)
unfolding pack
unpack-pack [] [] bs h =
    let is : [] ≡ bs = cc in (ap (unpack []) (sym is) ∙ unpack_end, ap length (sym is))
unpack-pack [] (v ∷ vs) bs h = cc
unpack-pack (f ∷ fs) [] bs h = cc
unpack-pack (f ∷ fs) (v ∷ vs) bs h = elim (Bool-cases (ltb v (limit f))) [
  | inr b ↦ ground arith
  | inl b ↦ elim (Option-cases (pack fs vs)) [
    | inl e ↦ ground arith
    | inr (r, e) ↦
        let (u, l) = unpack-pack fs vs r e in
        let is : be (width f) v ++ r ≡ bs = ground arith in
        (
          ap (unpack (f ∷ fs)) (sym is) ∙ unpack-step f fs v r (ltb→lt v (limit f) b) u,
          ap length (sym is) ∙ omega (arith, length-join (be (width f) v) r, length-be (width f) v),
        )
  ]
]

-- Nothing else than the bytes of the format is unpacked.
pub unpack_size :
    (fs : List Format) (bs vs : List ℕ) → unpack fs bs ≡ some vs → length bs ≡ sizes fs
unfolding unpack
unpack_size [] [] vs h = refl
unpack_size [] (b ∷ bs) vs h = cc
unpack_size (f ∷ fs) bs vs h = elim (Bool-cases (ltb (length bs) (width f))) [
  | inl c ↦ absurd (ground arith)
  | inr c ↦ elim (Option-cases (checked f (of_be 0 (take (width f) bs)))) [
    | inl e ↦ absurd (ground arith)
    | inr (v, e) ↦ elim (Option-cases (unpack fs (drop (width f) bs))) [
      | inl g ↦ absurd (ground arith)
      | inr (ws, g) ↦
          let n = unpack_size fs (drop (width f) bs) ws g in
          omega (arith, n, length-drop (width f) bs, ltb-false→le _ _ c)
    ]
  ]
]

-- Numbers below their limits can be packed.
abbrev pub Fits : List Format → List ℕ → Type 0
Fits [] [] = Unit {0}
Fits [] (v ∷ vs) = ⊥
Fits (f ∷ fs) [] = ⊥
Fits (f ∷ fs) (v ∷ vs) = (v < limit f) × Fits fs vs

pub pack-Fits :
    (fs : List Format) (vs : List ℕ) → Fits fs vs → (bs : List ℕ) × (pack fs vs ≡ some bs)
unfolding pack
pack-Fits [] [] h = ([], refl)
pack-Fits [] (v ∷ vs) h = absurd h
pack-Fits (f ∷ fs) [] h = absurd h
pack-Fits (f ∷ fs) (v ∷ vs) (small, h) =
    let (bs, e) = pack-Fits fs vs h in
    (be (width f) v ++ bs, rw (lt→ltb v (limit f) small) (rw e refl))

-- Packing goes field by field.
pub pack-append :
    (fs gs : List Format) (vs ws a b : List ℕ)
    → pack fs vs ≡ some a
    → pack gs ws ≡ some b
    → pack (fs ++ gs) (vs ++ ws) ≡ some (a ++ b)
unfolding pack
pack-append [] gs [] ws a b h g = let e : [] ≡ a = cc in g ∙ ap (λ (l : List ℕ). some (l ++ b)) e
pack-append [] gs (v ∷ vs) ws a b h g = cc
pack-append (f ∷ fs) gs [] ws a b h g = cc
pack-append (f ∷ fs) gs (v ∷ vs) ws a b h g = elim (Bool-cases (ltb v (limit f))) [
  | inr c ↦ ground arith
  | inl c ↦ elim (Option-cases (pack fs vs)) [
    | inl e ↦ ground arith
    | inr (r, e) ↦
        let is : be (width f) v ++ r ≡ a = ground arith in
        rw c (
          rw (pack-append fs gs vs ws r b e g)
            (ap some (sym (append_assoc (be (width f) v) r b) ∙ ap (λ (l : List ℕ). l ++ b) is)))
  ]
]

pub pack_split :
    (fs gs : List Format) (vs ws r : List ℕ)
    → length fs ≡ length vs
    → pack (fs ++ gs) (vs ++ ws) ≡ some r
    → (a : List ℕ) × (b : List ℕ) × (pack fs vs ≡ some a) × (pack gs ws ≡ some b) × (a ++ b ≡ r)
unfolding pack
pack_split [] gs [] ws r n h = ([], r, refl, h, refl)
pack_split [] gs (v ∷ vs) ws r n h = absurd (omega arith)
pack_split (f ∷ fs) gs [] ws r n h = absurd (omega arith)
pack_split (f ∷ fs) gs (v ∷ vs) ws r n h = elim (Bool-cases (ltb v (limit f))) [
  | inr c ↦ absurd (ground arith)
  | inl c ↦ elim (Option-cases (pack (fs ++ gs) (vs ++ ws))) [
    | inl e ↦ absurd (ground arith)
    | inr (q, e) ↦
        let (a, b, ha, hb, joined) = pack_split fs gs vs ws q (omega arith) e in
        let is : be (width f) v ++ q ≡ r = ground arith in
        (
          be (width f) v ++ a,
          b,
          rw c (rw ha refl),
          hb,
          append_assoc (be (width f) v) a b ∙ ap (λ (l : List ℕ). be (width f) v ++ l) joined ∙ is,
        )
  ]
]

abbrev first_of : List ℕ → Option ℕ
first_of (v ∷ []) = some v
first_of _ = none

-- A format of one number.
unfoldable pub pack_one : Format → ℕ → Option (List ℕ)
pack_one f v = pack (f ∷ []) (v ∷ [])

unfoldable pub unpack_one : Format → List ℕ → Option ℕ
unpack_one f bs = unpack (f ∷ []) bs >>= first_of

pub pack_one-lt :
    (f : Format) (v : ℕ)
    → v < limit f
    → (bs : List ℕ) × (pack_one f v ≡ some bs) × (unpack_one f bs ≡ some v) × (length bs ≡ width f)
unfolding pack_one unpack_one
pack_one-lt f v small =
    let (bs, e) = pack-Fits (f ∷ []) (v ∷ []) (small, tt) in
    let (u, n) = unpack-pack (f ∷ []) (v ∷ []) bs e in (bs, e, rw u refl, omega (arith, n))
