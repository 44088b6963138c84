-- ===== src/Prelude/Dict.antt =====
-- Python's dict as an association list in the order of insertion, over keys with a decidable
-- equality. `d[k] = v` on a key that is there replaces the value in place.
use mathlib.Core.Path.{◌≡◌, refl}
use mathlib.Core.Logic.{◌≢◌, ite}
use mathlib.Core.List.{List, [], ◌∷◌}
use mathlib.Core.Option.{Option, none, some}
use native.Mathlib.Omega.{arith}

module _ {ℓ} {K V : Type ℓ} (dec : Discrete K) where
  -- d.get(k)
  unfoldable pub get : List (K × V) → K → Option V
  get [] k = none
  get ((j, v) ∷ d) k = ite (dec j k) (some v) (get d k)

  -- d[k] = v
  unfoldable pub put : List (K × V) → K → V → List (K × V)
  put [] k v = (k, v) ∷ []
  put ((j, w) ∷ d) k v = ite (dec j k) ((j, v) ∷ d) ((j, w) ∷ put d k v)

  -- d.pop(k, None)
  unfoldable pub pop : List (K × V) → K → List (K × V)
  pop [] k = []
  pop ((j, w) ∷ d) k = ite (dec j k) (pop d k) ((j, w) ∷ pop d k)

  pub get-put_self : (d : List (K × V)) (k : K) (v : V) → get (put d k v) k ≡ some v
  unfolding get put
  get-put_self [] k v = ground arith
  get-put_self ((j, w) ∷ d) k v = ground (arith, get-put_self d k v)

  pub get-put_ne : (d : List (K × V)) (k j : K) (v : V) → k ≢ j → get (put d k v) j ≡ get d j
  unfolding get put
  get-put_ne [] k j v h = ground arith
  get-put_ne ((i, w) ∷ d) k j v h = ground (arith, get-put_ne d k j v h)

  pub get-pop_self : (d : List (K × V)) (k : K) → get (pop d k) k ≡ none
  unfolding get pop
  get-pop_self [] k = refl
  get-pop_self ((j, w) ∷ d) k = ground (arith, get-pop_self d k)

  pub get-pop_ne : (d : List (K × V)) (k j : K) → k ≢ j → get (pop d k) j ≡ get d j
  unfolding get pop
  get-pop_ne [] k j h = refl
  get-pop_ne ((i, w) ∷ d) k j h = ground (arith, get-pop_ne d k j h)
