-- ===== src/Utils/JobId.antt =====
-- `make_uid_numeric` and `get_readable_jobid` of natsprovider/utils.py: the name of a pod's job.
pub mod Collisions
pub mod Shape
use interlink_condorce_plugi.Prelude.{
  ℕ, zero, suc, ◌+◌, ◌-◌, ◌*◌, ◌%◌, ◌^◌, ◌≤◌, ◌<◌, ◌≡◌, refl, ap, Text, codes, List, [], ◌∷◌, ◌++◌,
  map, Option, none, some, Bool, true, false, not, ◌&&◌, ◌||◌, arith, ltb, leb, nat_beq, keep, take,
  join, Result, ok, err, ◌>>=◌, value_error, key_error, nat_eq, list_eq, if◌then◌else◌,
}
use interlink_condorce_plugi.Prelude.Dicts.{Dict, get}
use interlink_condorce_plugi.Prelude.Numbers.{digits, value}

is_digit : ℕ → Bool
is_digit c = leb b'0' c && leb c b'9'

-- `f'{ord(c)-ord("0") if c in string.digits else ord(c)-ord("A")+10:o}'`. A negative number is
-- printed with a sign, and then `int(_, 8)` raises ValueError.
unfoldable pub octal_of_char : ℕ → Result (List ℕ)
unfolding is_digit
octal_of_char c =
    if is_digit c
    then ok (digits 6 (c - 48))
    else if ltb (c + 10) 65
    then err value_error
    else ok (digits 6 (c + 10 - 65))

unfoldable pub octal_of : Text → Result (List ℕ)
unfolding octal_of_char
octal_of [] = ok []
octal_of (c ∷ t) = do d ← octal_of_char c; ds ← octal_of t; ok (d ++ ds)

abbrev pub max_uid : ℕ
max_uid = 0x7FFF_FFFF_FFFF_FFFF

-- `int('0o', 8)` is a ValueError too
unfoldable pub int_octal : List ℕ → Result ℕ
int_octal [] = err value_error
int_octal (d ∷ ds) = ok (value 6 0 (d ∷ ds) % max_uid)

unfoldable pub not_dash : ℕ → Bool
not_dash c = not (nat_beq c b'-')

-- `uid.replace('-','')` is the `keep`
unfoldable pub make_uid_numeric : Text → Result ℕ
unfolding octal_of int_octal not_dash keep
make_uid_numeric uid = do octal ← octal_of (keep not_dash uid); int_octal octal

-- the pod of a request, as `metadata` of a PodRequest or as a LogRequest
pub data JobRequest : Type 0 where
  pod_request : Dict Text Text → JobRequest
  log_request : (name namespace uid : Text) → JobRequest

-- `metadata[key]`
unfoldable pub item : Dict Text Text → Text → Result Text
unfolding get
item d k = elim (get d k) [ none ↦ err key_error | some v ↦ ok v ]

-- the code points of `f"{n:x}"`
unfoldable pub hex_char : ℕ → ℕ
hex_char d = if ltb d 10 then d + 48 else d + 87

unfoldable pub hex : ℕ → Text
unfolding hex_char
hex n = map hex_char (digits 14 n)

unfoldable pub readable : (name namespace uid : Text) → Result Text
unfolding join hex
readable name namespace uid = do
  n ← make_uid_numeric uid
  let short_name = take 20 (join (codes "-") (namespace ∷ name ∷ []))
  ok (join (codes "-") (short_name ∷ hex n ∷ []))

unfoldable pub get_readable_jobid : JobRequest → Result Text
unfolding readable item
get_readable_jobid (pod_request metadata) = do
  name ← item metadata (codes "name")
  namespace ← item metadata (codes "namespace")
  uid ← item metadata (codes "uid")
  readable name namespace uid
get_readable_jobid (log_request name namespace uid) = readable name namespace uid
