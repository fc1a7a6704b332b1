-- ===== src/Utils/Resources.antt =====
-- `Resources` of natsprovider/utils.py: the quotas of a pool, and their form as a dict of
-- Kubernetes resource names.
use interlink_condorce_plugi.Prelude.{
  ℕ, ◌≡◌, refl, Text, codes, Option, none, some, [], ◌∷◌, Result, ok, err, ◌>>=◌, value_error,
  nat_eq, list_eq, list_beq,
}
use interlink_condorce_plugi.Prelude.Dicts.{Dict, get}

pub record Resources : Type 0 where
  pub cpu : Option Text
  pub memory : Option Text
  pub gpus : Option ℕ
  pub pods : Option ℕ

-- a value of the dict: `str`, `int` or None
pub data Value : Type 0 where
  str : Text → Value
  int : ℕ → Value
  null : Value

unfoldable pub of_text : Option Text → Value
of_text none = null
of_text (some t) = str t

unfoldable pub of_int : Option ℕ → Value
of_int none = null
of_int (some n) = int n

unfoldable pub to_kubernetes : Resources → Dict Text Value
unfolding of_text of_int
to_kubernetes r =
    (codes "cpu", of_text r.cpu)
    ∷ (codes "memory", of_text r.memory)
    ∷ (codes "pods", of_int r.pods)
    ∷ (codes "nvidia.com/gpu", of_int r.gpus)
    ∷ []

-- pydantic's check of a field `Optional[str]`: a number is refused.
unfoldable pub check_text : Option Value → Result (Option Text)
check_text none = ok none
check_text (some (str t)) = ok (some t)
check_text (some (int n)) = err value_error
check_text (some null) = ok none

-- pydantic reads a field `Optional[int]` from a `str` too: `lax_int` is that conversion.
module _ (lax_int : Text → Option ℕ) where
  unfoldable pub check_int : Option Value → Result (Option ℕ)
  check_int none = ok none
  check_int (some (str t)) = elim (lax_int t) [ none ↦ err value_error | some n ↦ ok (some n) ]
  check_int (some (int n)) = ok (some n)
  check_int (some null) = ok none

  unfoldable pub from_kubernetes : Dict Text Value → Result Resources
  unfolding check_text check_int get
  from_kubernetes d = do
    c ← check_text (get d (codes "cpu"))
    m ← check_text (get d (codes "memory"))
    p ← check_int (get d (codes "pods"))
    g ← check_int (get d (codes "nvidia.com/gpu"))
    ok (record { cpu = c; memory = m; gpus = g; pods = p })

  check_of_text : (o : Option Text) → check_text (some (of_text o)) ≡ ok o
  unfolding check_text of_text
  check_of_text none = refl
  check_of_text (some t) = refl

  check_of_int : (o : Option ℕ) → check_int (some (of_int o)) ≡ ok o
  unfolding check_int of_int
  check_of_int none = refl
  check_of_int (some n) = refl

  -- The quotas survive the trip through the dict of Kubernetes names, field by field.
  from_kubernetes-to_kubernetes : (r : Resources) → from_kubernetes (to_kubernetes r) ≡ ok r
  unfolding from_kubernetes to_kubernetes codes list_beq
  from_kubernetes-to_kubernetes r =
      rw (check_of_text r.cpu, check_of_text r.memory, check_of_int r.pods, check_of_int r.gpus)
