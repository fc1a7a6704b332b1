-- ===== src/Utils/JobId/Collisions.antt =====
-- Uids under `make_uid_numeric` of natsprovider/utils.py, and the job names of their pods.
use interlink_condorce_plugi.Prelude.{
  ℕ, ◌≡◌, ap, Text, codes, List, [], ◌∷◌, ◌++◌, keep-append, keep, Result, ok, ◌>>=◌, arith,
}
use interlink_condorce_plugi.Prelude.Numbers.{digits}
use interlink_condorce_plugi.Utils.JobId.{
  octal_of_char, octal_of, not_dash, int_octal, make_uid_numeric, readable, get_readable_jobid,
  log_request,
}

-- equal digits for the rest give equal digits for the whole
octal_of-append : (p s t : Text) → octal_of s ≡ octal_of t → octal_of (p ++ s) ≡ octal_of (p ++ t)
unfolding octal_of
octal_of-append [] s t h = h
octal_of-append (c ∷ p) s t h =
    ap (λ (r : Result (List ℕ)). octal_of_char c >>= λ d. r >>= λ ds. ok (d ++ ds))
      (octal_of-append p s t h)

-- `1`, `0`, `a` print as 1, 0, 52 and `8`, `5`, `2` as 10, 5, 2.
octal_of_collision : (s : Text) → octal_of (codes "10a" ++ s) ≡ octal_of (codes "852" ++ s)
unfolding octal_of codes digits
octal_of_collision s = ground arith

-- Uids that differ in `10a` against `852` have the same number, whatever stands around.
pub make_uid_numeric_collision :
    (before after : Text)
    → make_uid_numeric (before ++ (codes "10a" ++ after))
      ≡ make_uid_numeric (before ++ (codes "852" ++ after))
unfolding make_uid_numeric codes
make_uid_numeric_collision before after = simp keep-append (
    ap (λ (r : Result (List ℕ)). r >>= int_octal)
      (octal_of-append (keep not_dash before) _ _ (octal_of_collision (keep not_dash after))))

-- Two pods of one name and namespace whose uids differ in that way have the same job name.
get_readable_jobid_collision :
    (name namespace before after : Text)
    → get_readable_jobid (log_request name namespace (before ++ (codes "10a" ++ after)))
      ≡ get_readable_jobid (log_request name namespace (before ++ (codes "852" ++ after)))
unfolding get_readable_jobid readable
get_readable_jobid_collision name namespace before after =
    rw (make_uid_numeric_collision before after)
