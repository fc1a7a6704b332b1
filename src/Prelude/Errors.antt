-- ===== src/Prelude/Errors.antt =====
-- Python's exceptions as values: what a handler of the repository raises or lets through.
use Prim.Native.Nat.{ℕ}
use mathlib.Core.Path.{◌≡◌, refl}
use mathlib.Core.Logic.{◌⊎◌, inl, inr}
use mathlib.Core.List.{List, [], ◌∷◌}
use interlink_condorce_plugi.Prelude.Texts.{Text}

-- `http` is FastAPI's HTTPException with its status code and detail; the others are Python's own,
-- less those of htcondor, HTCondorIOError and the repository's HTCondorException.
pub data Error : Type 0 where
  http : ℕ → Text → Error
  attribute_error key_error type_error value_error unbound_local index_error not_implemented
        htcondor_io_error htcondor_exception called_process_error :
      Error

pub data Result {ℓ} (A : Type ℓ) : Type ℓ where
  err : Error → Result A
  ok : A → Result A

pub ok-injective {ℓ} : {A : Type ℓ} {a b : A} → ok a ≡ ok b → a ≡ b
ok-injective h = cc

pub Result-cases {ℓ} :
    {A : Type ℓ} (r : Result A) → ((a : A) × (r ≡ ok a)) ⊎ ((e : Error) × (r ≡ err e))
Result-cases (ok a) = inl (a, refl)
Result-cases (err e) = inr (e, refl)

module _ {ℓ κ} {A : Type ℓ} {B : Type κ} where
  infixl 5 ◌>>=◌
  -- an exception skips what follows
  abbrev pub ◌>>=◌ : Result A → (A → Result B) → Result B
  err e >>= go = err e
  ok x >>= go = go x

  -- Both parts of a sequence that ended well have ended well.
  pub >>=-eq-ok :
      (first : Result A) (go : A → Result B) {y : B}
      → (first >>= go) ≡ ok y
      → (x : A) × (first ≡ ok x) × (go x ≡ ok y)
  >>=-eq-ok (err e) go h = cc
  >>=-eq-ok (ok x) go h = (x, refl, h)

infixl 5 ◌>>◌
abbrev pub ◌>>◌ {κ} : {B : Type κ} → Result (Unit {0}) → Result B → Result B
first >> go = first >>= λ u. go

-- `[f(x) for x in xs]` where `f` may raise
unfoldable pub collect {ℓ κ} : {A : Type ℓ} {B : Type κ} → (A → Result B) → List A → Result (List B)
collect f [] = ok []
collect f (x ∷ xs) = do y ← f x; ys ← collect f xs; ok (y ∷ ys)
