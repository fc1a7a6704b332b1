-- ===== src/Utils/JobId/Shape.antt =====
-- The form of the job names of natsprovider/utils.py: their length and their characters.
use interlink_condorce_plugi.Prelude.{
  ℕ, zero, suc, ◌≤◌, ◌<◌, ◌≡◌, subst, Text, codes, List, [], ◌∷◌, ◌++◌, map, HasNone,
  HasNone-append, take, length, length-append, length-take, join, ok, >>=-eq-ok, arith,
}
use interlink_condorce_plugi.Prelude.Numbers.{digits, length-digits}
use interlink_condorce_plugi.Utils.JobId.{
  max_uid, int_octal, make_uid_numeric, hex_char, hex, readable,
}

int_octal-lt : (ds : List ℕ) (n : ℕ) → int_octal ds ≡ ok n → n < max_uid
unfolding int_octal
int_octal-lt [] n h = cc
int_octal-lt (d ∷ ds) n h = ground arith

-- The number of a uid is below 2 ^ 63 - 1.
pub make_uid_numeric-lt : (uid : Text) (n : ℕ) → make_uid_numeric uid ≡ ok n → n < max_uid
unfolding make_uid_numeric
make_uid_numeric-lt uid n h = let (ds, _, e) = >>=-eq-ok _ int_octal h in int_octal-lt ds n e

length-map {ℓ κ} :
    {A : Type ℓ} {B : Type κ} (f : A → B) (xs : List A) → length (map f xs) ≡ length xs
length-map f [] = omega arith
length-map f (x ∷ xs) = omega (arith, length-map f xs)

length-hex : (n : ℕ) → n < max_uid → length (hex n) ≤ 16
unfolding hex
length-hex n h =
    omega (arith, length-map {0, 0} hex_char (digits 14 n), length-digits 14 n 15 (omega arith))

HasNone-take : (c k : ℕ) (t : Text) → HasNone c t → HasNone c (take k t)
HasNone-take c zero t h = tt
HasNone-take c (suc k) [] h = tt
HasNone-take c (suc k) (x ∷ t) h = (h.0, HasNone-take c k t h.1)

HasNone-hex_digits : (ds : List ℕ) → HasNone b'.' (map hex_char ds)
unfolding hex_char
HasNone-hex_digits [] = tt
HasNone-hex_digits (d ∷ ds) = (ground arith, HasNone-hex_digits ds)

-- the name before it is put into a subject: a text of 20 characters, a dash and a number
abbrev assembled : (name namespace : Text) → ℕ → Text
assembled name namespace n =
    join (codes "-") (take 20 (join (codes "-") (namespace ∷ name ∷ [])) ∷ hex n ∷ [])

length-assembled :
    (name namespace : Text) (n : ℕ) → n < max_uid → length (assembled name namespace n) ≤ 37
unfolding join codes
length-assembled name namespace n h =
    let short = take 20 (namespace ++ (b'-' ∷ name)) in
    omega (
      arith,
      length-hex n h,
      length-take {0} 20 (namespace ++ (b'-' ∷ name)),
      length-append {0} short (b'-' ∷ hex n),
    )

HasNone-assembled :
    (name namespace : Text) (n : ℕ)
    → HasNone b'.' name
    → HasNone b'.' namespace
    → HasNone b'.' (assembled name namespace n)
unfolding join codes hex
HasNone-assembled name namespace n h k =
    HasNone-append b'.' _ _
      (HasNone-take b'.' 20 _ (HasNone-append b'.' namespace _ k (omega arith, h)))
      (omega arith, HasNone-hex_digits (digits 14 n))

-- A job name that exists has 37 characters at most, and no dot if the pod's name and namespace
-- have none.
pub readable_shape :
    (name namespace uid id : Text)
    → readable name namespace uid ≡ ok id
    → (length id ≤ 37) × (HasNone b'.' name → HasNone b'.' namespace → HasNone b'.' id)
unfolding readable
readable_shape name namespace uid id h =
    let (n, e, made) = >>=-eq-ok (make_uid_numeric uid) _ h in
    let same : assembled name namespace n ≡ id = ground (arith, made) in
    subst (λ i. (length i ≤ 37) × (HasNone b'.' name → HasNone b'.' namespace → HasNone b'.' i))
      same
      (
        length-assembled name namespace n (make_uid_numeric-lt uid n e),
        HasNone-assembled name namespace n,
      )
