-- ===== src/Prelude/Dict.antt =====
-- Python's `dict` in insertion order: a new key goes to the end, an old key keeps its place.
use mathlib.Core.Path.{◌≡◌, refl}
use mathlib.Core.Bool.{Bool, true, false}
use mathlib.Core.Option.{Option, none, some}
use mathlib.Core.List.{List, [], ◌∷◌}
use native.Mathlib.Omega.{arith}
use instant_ai_data_workflow.Prelude.Tests.{KeyEq, ◌==◌, if◌then◌else◌}

abbrev pub Dict {ℓ κ} : Type ℓ → Type κ → Type (ℓ ⊔ κ)
Dict K V = List (K × V)

module _ {ℓ κ} {K : Type ℓ} ⦃e : KeyEq K⦄ {V : Type κ} where
  -- d.get(k)
  unfoldable pub get : Dict K V → K → Option V
  get [] k = none
  get ((j, v) ∷ d) k = if j == k then some v else get d k

  -- k in d
  unfoldable pub has : Dict K V → K → Bool
  has [] k = false
  has ((j, v) ∷ d) k = if j == k then true else has d k

  -- d[k] = v
  unfoldable pub put : Dict K V → K → V → Dict K V
  put [] k v = (k, v) ∷ []
  put ((j, w) ∷ d) k v = if j == k then (j, v) ∷ d else (j, w) ∷ put d k v

  -- d.pop(k, None), of every entry of the key
  unfoldable pub remove : Dict K V → K → Dict K V
  remove [] k = []
  remove ((j, v) ∷ d) k = let rest = remove d k in if j == k then rest else (j, v) ∷ rest

  pub get-put :
      (d : Dict K V) (k : K) (v : V) (j : K)
      → get (put d k v) j ≡ (if k == j then some v else get d j)
  unfolding get put
  get-put [] k v j = refl
  get-put ((i, w) ∷ d) k v j =
      ground (arith, e.same_key_iff i k, e.same_key_iff i j, e.same_key_iff k j, get-put d k v j)

  pub get-remove :
      (d : Dict K V) (k j : K) → get (remove d k) j ≡ (if k == j then none else get d j)
  unfolding get remove
  get-remove [] k j = ground arith
  get-remove ((i, w) ∷ d) k j =
      ground (arith, e.same_key_iff i k, e.same_key_iff i j, e.same_key_iff k j, get-remove d k j)

  pub has-eq-get :
      (d : Dict K V) (k : K) → has d k ≡ elim (get d k) [ none ↦ false | some _ ↦ true ]
  unfolding get has
  has-eq-get [] k = refl
  has-eq-get ((i, w) ∷ d) k = ground (arith, has-eq-get d k)

  pub has-put :
      (d : Dict K V) (k : K) (v : V) (j : K)
      → has (put d k v) j ≡ (if k == j then true else has d j)
  unfolding has put
  has-put [] k v j = refl
  has-put ((i, w) ∷ d) k v j =
      ground (arith, e.same_key_iff i k, e.same_key_iff i j, e.same_key_iff k j, has-put d k v j)

  pub has-remove :
      (d : Dict K V) (k j : K) → has (remove d k) j ≡ (if k == j then false else has d j)
  unfolding has remove
  has-remove [] k j = ground arith
  has-remove ((i, w) ∷ d) k j =
      ground (arith, e.same_key_iff i k, e.same_key_iff i j, e.same_key_iff k j, has-remove d k j)

  pub has-of_get : (d : Dict K V) (k : K) (v : V) → get d k ≡ some v → has d k ≡ true
  has-of_get d k v p = rw (has-eq-get d k, p)

  pub get-of_not_has : (d : Dict K V) (k : K) → has d k ≡ false → get d k ≡ none
  get-of_not_has d k p = ground (arith, has-eq-get d k)

  pub has-of_get-none : (d : Dict K V) (k : K) → get d k ≡ none → has d k ≡ false
  has-of_get-none d k p = rw (has-eq-get d k, p)
