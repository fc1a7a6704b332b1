-- ===== src/Prelude/Dicts.antt =====
-- Python's `dict`, in the order of insertion: a key that is there keeps its place when it is set.
use interlink_condorce_plugi.Prelude.Tests.{if◌then◌else◌, is_some}
use interlink_condorce_plugi.Prelude.Equality.{Eq, ◌==◌}
use mathlib.Core.Path.{◌≡◌, refl, ap}
use mathlib.Core.Bool.{Bool, true}
use mathlib.Core.Option.{Option, none, some}
use mathlib.Core.List.{List, [], ◌∷◌}
use native.Mathlib.Omega.{arith}

abbrev pub Dict {ℓ κ} : Type ℓ → Type κ → Type (ℓ ⊔ κ)
Dict K V = List (K × V)

module _ {ℓ κ} {K : Type ℓ} {V : Type κ} where
  -- `d.keys()` and `d.values()`
  unfoldable pub keys : Dict K V → List K
  keys [] = []
  keys ((k, v) ∷ d) = k ∷ keys d

  unfoldable pub values : Dict K V → List V
  values [] = []
  values ((k, v) ∷ d) = v ∷ values d

  -- `{k: v for k, v in d.items() if p(k, v)}`
  unfoldable pub keep_items : (K → V → Bool) → Dict K V → Dict K V
  keep_items p [] = []
  keep_items p ((k, v) ∷ d) = let rest = keep_items p d in if p k v then (k, v) ∷ rest else rest

pub beq_refl {ℓ} : {K : Type ℓ} ⦃e : Eq K⦄ (k : K) → (k == k) ≡ true
beq_refl ⦃e⦄ k = (e.beq_iff k k).1 refl

module _ {ℓ κ} {K : Type ℓ} {V : Type κ} ⦃e : Eq K⦄ where
  -- `d.get(k)`
  unfoldable pub get : Dict K V → K → Option V
  get [] k = none
  get ((j, v) ∷ d) k = if j == k then some v else get d k

  -- `k in d.keys()`
  unfoldable pub has : Dict K V → K → Bool
  unfolding get
  has d k = is_some (get d k)

  -- `d[k] = v`
  unfoldable pub put : Dict K V → K → V → Dict K V
  put [] k v = (k, v) ∷ []
  put ((j, w) ∷ d) k v = if j == k then (j, v) ∷ d else (j, w) ∷ put d k v

  -- `d.pop(k, None)`
  unfoldable pub remove : Dict K V → K → Dict K V
  remove [] k = []
  remove ((j, v) ∷ d) k = let rest = remove d k in if j == k then rest else (j, v) ∷ rest

  -- `{**c, **d}`
  unfoldable pub merge : Dict K V → Dict K V → Dict K V
  unfolding put
  merge c [] = c
  merge c ((k, v) ∷ d) = merge (put c k v) d

  pub get-put :
      (d : Dict K V) (k j : K) (v : V) → get (put d k v) j ≡ (if k == j then some v else get d j)
  unfolding get put
  get-put [] k j v = refl
  get-put ((i, w) ∷ d) k j v =
      ground (arith, e.beq_iff k j, e.beq_iff i k, e.beq_iff i j, get-put d k j v)

  pub get-remove :
      (d : Dict K V) (k j : K) → get (remove d k) j ≡ (if k == j then none else get d j)
  unfolding get remove
  get-remove [] k j = ground arith
  get-remove ((i, w) ∷ d) k j =
      ground (arith, e.beq_iff k j, e.beq_iff i k, e.beq_iff i j, get-remove d k j)

  pub put-put : (d : Dict K V) (k : K) (v w : V) → put (put d k v) k w ≡ put d k w
  unfolding put
  put-put [] k v w = ground (arith, e.beq_iff k k)
  put-put ((i, u) ∷ d) k v w = ground (arith, e.beq_iff i k, put-put d k v w)

  -- what a filtered dict has at a key, if the test looks at the key alone
  pub get-keep_items :
      (p : K → Bool) (d : Dict K V) (j : K)
      → get (keep_items (λ k v. p k) d) j ≡ (if p j then get d j else none)
  unfolding get keep_items
  get-keep_items p [] j = ground arith
  get-keep_items p ((i, w) ∷ d) j = ground (arith, e.beq_iff i j, ap p, get-keep_items p d j)

pub ruleset dict_laws = (get-put, get-remove, beq_refl)
