-- ===== src/Prelude/Format.antt =====
-- Python's `%` with a dict, `textwrap.dedent`, `str.split()` and `str.splitlines()`, on texts.
use Prim.Native.Nat.{ℕ}
use mathlib.Core.Bool.{Bool, true, false, ◌||◌, ◌&&◌}
use mathlib.Core.Option.{Option, none, some}
use mathlib.Core.List.{List, [], ◌∷◌, ◌++◌, map}
use interlink_condorce_plugi.Prelude.Tests.{if◌then◌else◌, nat_beq, leb}
use interlink_condorce_plugi.Prelude.Lists.{length, drop, all, keep}
use interlink_condorce_plugi.Prelude.Equality.{nat_eq, list_eq, list_beq}
use interlink_condorce_plugi.Prelude.Texts.{Text, codes, split_at, join}
use interlink_condorce_plugi.Prelude.Errors.{Result, ok, err, ◌>>=◌, value_error, key_error}
use interlink_condorce_plugi.Prelude.Dicts.{Dict, get}
use interlink_condorce_plugi.Prelude.Int.{is_space}

-- where a template is read: outside a conversion, after `%`, inside the parentheses (with what has
-- been read of the key), and before the letter of the conversion
pub data Place : Type 0 where
  outside percent : Place
  key : Text → Place
  letter : Text → Place

unfoldable pub looked_up : Dict Text Text → Text → Result Text
unfolding get list_beq
looked_up d k = elim (get d k) [ none ↦ err key_error | some v ↦ ok v ]

-- The conversions that the repository's templates use: `%(key)s`, `%(key)d` with a number, which is
-- given in decimal, and `%%`. Any other one is an error.
unfoldable pub read : Dict Text Text → Place → Text → Result Text
unfolding looked_up
read d outside [] = ok []
read d outside (c ∷ t) =
    let conversion = read d percent t in
    let same = (do r ← read d outside t; ok (c ∷ r)) in if nat_beq c b'%' then conversion else same
read d percent [] = err value_error
read d percent (c ∷ t) =
    let literal = (do r ← read d outside t; ok (c ∷ r)) in
    let named = read d (key []) t in
    if nat_beq c b'%' then literal else if nat_beq c b'(' then named else err value_error
read d (key k) [] = err value_error
read d (key k) (c ∷ t) =
    let closed = read d (letter k) t in
    let more = read d (key (k ++ c ∷ [])) t in if nat_beq c b')' then closed else more
read d (letter k) [] = err value_error
read d (letter k) (c ∷ t) =
    let value = (do v ← looked_up d k; r ← read d outside t; ok (v ++ r)) in
    if nat_beq c b's' || nat_beq c b'd' then value else err value_error

-- `template % d`
unfoldable pub interpolate : Dict Text Text → Text → Result Text
unfolding read
interpolate d t = read d outside t

is_blank : ℕ → Bool
is_blank c = nat_beq c b' ' || nat_beq c 9

unfoldable pub indent : Text → Text
unfolding is_blank
indent [] = []
indent (c ∷ t) = if is_blank c then c ∷ indent t else []

unfoldable pub common_prefix : Text → Text → Text
common_prefix [] t = []
common_prefix (c ∷ s) [] = []
common_prefix (c ∷ s) (d ∷ t) = if nat_beq c d then c ∷ common_prefix s t else []

-- the margin that the lines share; none as long as there is no line
unfoldable pub margin : Option Text → List Text → Option Text
unfolding indent common_prefix
margin m [] = m
margin none (l ∷ ls) = margin (some (indent l)) ls
margin (some m) (l ∷ ls) = margin (some (common_prefix m (indent l))) ls

-- a line of blanks becomes empty
unfoldable pub blank_out : Text → Text
unfolding all is_blank
blank_out l = if all is_blank l then [] else l

unfoldable pub is_nonempty : Text → Bool
is_nonempty [] = false
is_nonempty (c ∷ t) = true

unfoldable pub without : Option Text → List Text → List Text
without none ls = ls
without (some m) ls = map (drop (length m)) ls

-- `textwrap.dedent`
unfoldable pub dedent : Text → Text
unfolding margin blank_out is_nonempty without split_at join keep
dedent t =
    let lines = map blank_out (split_at b'\n' t) in
    join (codes "\n") (without (margin none (keep is_nonempty lines)) lines)

-- `t.split()`, with the word that is being read
unfoldable pub words_from : Text → Text → List Text
unfolding is_space
words_from [] [] = []
words_from (c ∷ w) [] = (c ∷ w) ∷ []
words_from w (c ∷ t) =
    let ended = w ∷ words_from [] t in
    let gap = words_from [] t in
    let more = words_from (w ++ c ∷ []) t in
    if is_space c then elim w [ [] ↦ gap | d ∷ v ↦ ended ] else more

unfoldable pub words : Text → List Text
unfolding words_from
words t = words_from [] t

-- what ends a line for `str.splitlines()`
unfoldable pub is_line_end : ℕ → Bool
is_line_end c =
    (leb 10 c && leb c 13)
    || (leb 28 c && leb c 30)
    || nat_beq c 133
    || nat_beq c 8232
    || nat_beq c 8233

-- `w` is what has been read of the line; a line feed right after a carriage return ends no other line
unfoldable pub lines_from : (after_cr : Bool) → Text → Text → List Text
unfolding is_line_end is_nonempty
lines_from after_cr w [] = if is_nonempty w then w ∷ [] else []
lines_from after_cr w (c ∷ t) =
    let skipped = lines_from false w t in
    let ended = lines_from (nat_beq c 13) [] t in
    let more = lines_from false (w ++ c ∷ []) t in
    if after_cr && nat_beq c 10 then skipped else if is_line_end c then w ∷ ended else more

-- `str.splitlines()`
unfoldable pub splitlines : Text → List Text
unfolding lines_from
splitlines t = lines_from false [] t
