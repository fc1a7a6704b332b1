-- ===== src/Action.antt =====
-- A method of the gateway: what it returns or raises, and the state that it leaves. What was written
-- before an exception stays written.
use interlink_condorce_plugi.Prelude.{◌≡◌, refl, subst, Result, Error, ok, err}

abbrev pub Action : Type 0 → Type 0 → Type 0
Action S A = S → Result A × S

module _ {S A : Type 0} where
  unfoldable pub pure : A → Action S A
  pure a s = (ok a, s)

  unfoldable pub lift : Result A → Action S A
  lift r s = (r, s)

  unfoldable pub gets : (S → A) → Action S A
  gets f s = (ok (f s), s)

unfoldable pub modify : {S : Type 0} → (S → S) → Action S (Unit {0})
modify f s = (ok tt, f s)

module _ {S A B : Type 0} where
  abbrev pub continue : Result A → (A → Action S B) → Action S B
  continue (ok a) f s = f a s
  continue (err e) f s = (err e, s)

  infixl 5 ◌>>=◌ ◌>>◌
  unfoldable pub ◌>>=◌ : Action S A → (A → Action S B) → Action S B
  unfolding pure lift gets modify
  ◌>>=◌ m f s = let (r, s') = m s in continue r f s'

  abbrev pub ◌>>◌ : Action S A → Action S B → Action S B
  m >> n = m >>= λ _. n

-- What holds of an exception and of the rest for each result holds of a step that may raise.
pub lift->>=-cases {ℓ} :
    {S A B : Type 0} (P : Result B × S → Type ℓ) (r : Result A) (f : A → Action S B) (s : S)
    → ((e : Error) → P (err e, s))
    → ((a : A) → r ≡ ok a → P (f a s))
    → P (continue r f s)
lift->>=-cases P (ok a) f s raised went = went a refl
lift->>=-cases P (err e) f s raised went = raised e

-- what holds of the value that a step returns, if it returns one
abbrev pub Returns : {A : Type 0} → (A → Type 0) → Result A → Type 0
Returns P r = (a : _) → r ≡ ok a → P a

pub Returns-continue :
    {S A B : Type 0} (P : B → Type 0) (r : Result A) (f : A → Action S B) (s : S)
    → ((a : A) → r ≡ ok a → Returns P (f a s).0)
    → Returns P (continue r f s).0
Returns-continue P (ok a) f s went = went a refl
Returns-continue P (err e) f s went = λ b h. cc

pub Returns-ok : {A : Type 0} (P : A → Type 0) (a : A) → P a → Returns P (ok a)
Returns-ok P a p b h = let same : a ≡ b = cc in subst P same p

continue_assoc :
    {S A B C : Type 0} (r : Result A) (g : A → Action S B) (f : B → Action S C) (s : S)
    → continue (continue r g s).0 f (continue r g s).1 ≡ continue r (λ a. g a >>= f) s
unfolding ◌>>=◌
continue_assoc (ok a) g f s = refl
continue_assoc (err e) g f s = refl

-- A sequence may be bracketed either way.
pub >>=-assoc :
    {S A B C : Type 0} (m : Action S A) (g : A → Action S B) (f : B → Action S C) (s : S)
    → ((m >>= g) >>= f) s ≡ (m >>= λ a. g a >>= f) s
unfolding ◌>>=◌
>>=-assoc m g f s = continue_assoc (m s).0 g f (m s).1
