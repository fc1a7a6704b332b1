-- ===== src/Prelude/Int.antt =====
-- Python's `int` where it can be negative, and `int(text)`.
use Prim.Native.Nat.{ℕ, zero, suc, ◌+◌, ◌*◌, ◌-◌}
use mathlib.Core.Bool.{Bool, true, false, ◌&&◌, ◌||◌}
use mathlib.Core.Option.{Option, none, some}
use mathlib.Core.List.{[], ◌∷◌}
use interlink_condorce_plugi.Prelude.Tests.{if◌then◌else◌, nat_beq, leb}
use interlink_condorce_plugi.Prelude.Texts.{Text}

-- `negsuc n` is -(n + 1).
pub data ℤ : Type 0 where
  pos : ℕ → ℤ
  negsuc : ℕ → ℤ

unfoldable pub is_zero : ℤ → Bool
is_zero (pos zero) = true
is_zero (pos (suc n)) = false
is_zero (negsuc n) = false

unfoldable pub negate : ℕ → ℤ
negate zero = pos zero
negate (suc n) = negsuc n

unfoldable pub is_space : ℕ → Bool
is_space c = (leb 9 c && leb c 13) || (leb 28 c && leb c 32)

-- The digits of a number from the left, with what has been read; one underscore may stand between
-- two digits. `after` says that the last character was a digit.
unfoldable pub read_digits : (after : Bool) → ℕ → Text → Option ℕ
read_digits true n [] = some n
read_digits false n [] = none
read_digits after n (c ∷ t) =
    let more = read_digits true (n * 10 + (c - b'0')) t in
    let gap = read_digits false n t in
    if leb b'0' c && leb c b'9' then more else if nat_beq c b'_' && after then gap else none

-- spaces at the end of the text
unfoldable pub strip_end : Text → Text
unfolding is_space
strip_end [] = []
strip_end (c ∷ t) = elim (strip_end t) [
  | [] ↦ if is_space c then [] else c ∷ []
  | d ∷ ds ↦ c ∷ d ∷ ds
]

unfoldable pub strip_start : Text → Text
unfolding is_space
strip_start [] = []
strip_start (c ∷ t) = let rest = strip_start t in if is_space c then rest else c ∷ t

unfoldable pub map_int : (ℕ → ℤ) → Option ℕ → Option ℤ
map_int f none = none
map_int f (some n) = some (f n)

unfoldable pub signed : Text → Option ℤ
unfolding read_digits negate map_int
signed [] = none
signed (c ∷ t) =
    if nat_beq c b'-'
    then map_int negate (read_digits false 0 t)
    else if nat_beq c b'+'
    then map_int pos (read_digits false 0 t)
    else map_int pos (read_digits false 0 (c ∷ t))

-- `int(text)` on ASCII; none is a ValueError
unfoldable pub parse_int : Text → Option ℤ
unfolding strip_end strip_start signed
parse_int t = signed (strip_start (strip_end t))
