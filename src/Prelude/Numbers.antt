-- ===== src/Prelude/Numbers.antt =====
-- Positional numerals: Python's `f"{n:o}"` and `f"{n:x}"` as digits, most significant first.
use interlink_condorce_plugi.Prelude.Tests.{if◌then◌else◌, ltb, Bool-cases, lt→ltb}
use interlink_condorce_plugi.Prelude.Lists.{length, length-append}
use Prim.Native.Nat.{ℕ, zero, suc, ◌+◌, ◌*◌, ◌/◌, ◌%◌, ◌^◌, ◌≤◌, ◌<◌}
use mathlib.Core.Path.{◌≡◌, refl, subst}
use mathlib.Core.Logic.{inl, inr}
use mathlib.Core.Bool.{false}
use mathlib.Core.List.{List, [], ◌∷◌, ◌++◌, map}
use native.Mathlib.Omega.{arith}
use native.Mathlib.Nat.{pow-suc, div-add-mod', pow-zero, pow-succ'}

-- The digits of `n` in base `b + 2`. The fuel `n + 1` is always enough: see `value-digits`.
unfoldable pub digits_within : ℕ → ℕ → ℕ → List ℕ
digits_within b zero n = []
digits_within b (suc fuel) n =
    let rest = digits_within b fuel (n / (b + 2)) in
    if ltb n (b + 2) then n ∷ [] else rest ++ (n % (b + 2)) ∷ []

unfoldable pub digits : ℕ → ℕ → List ℕ
unfolding digits_within
digits b n = digits_within b (suc n) n

-- `str(n)`
unfoldable pub decimal : ℕ → List ℕ
unfolding digits
decimal n = map (λ d. d + 48) (digits 8 n)

-- `int(s, base)` on digits, from the left
unfoldable pub value : ℕ → ℕ → List ℕ → ℕ
value b acc [] = acc
value b acc (d ∷ ds) = value b (acc * (b + 2) + d) ds

pub value-append :
    (b acc : ℕ) (xs : List ℕ) (d : ℕ) → value b acc (xs ++ d ∷ []) ≡ value b acc xs * (b + 2) + d
unfolding value
value-append b acc [] d = refl
value-append b acc (x ∷ xs) d = value-append b (acc * (b + 2) + x) xs d

div_lt : (b n : ℕ) → b + 2 ≤ n → n / (b + 2) < n
div_lt b n h = grind arith

step_down : (b fuel n : ℕ) → ltb n (b + 2) ≡ false → n < suc fuel → n / (b + 2) < fuel
step_down b fuel n large h = omega (arith, div_lt b n (ground arith))

value-digits_within : (b fuel n : ℕ) → n < fuel → value b 0 (digits_within b fuel n) ≡ n
unfolding value digits_within
value-digits_within b zero n h = absurd (omega arith)
value-digits_within b (suc fuel) n h = elim (Bool-cases (ltb n (b + 2))) [
  | inl small ↦ rw small (omega arith)
  | inr large ↦
      rw
        (large, value-append, value-digits_within b fuel (n / (b + 2)) (step_down b fuel n large h))
        (div-add-mod' n (b + 2))
]

-- Printing in any base and reading back gives the number: the fuel never runs out.
pub value-digits : (b n : ℕ) → value b 0 (digits b n) ≡ n
unfolding digits
value-digits b n = value-digits_within b (suc n) n (omega arith)

div_below : (b n m : ℕ) → n < (b + 2) * m → n / (b + 2) < m
div_below b n m h = grind arith

power_one : (b : ℕ) → (b + 2) ^ 1 ≡ b + 2
power_one b = rw (pow-suc, pow-zero) (omega arith)

below_base : (b n : ℕ) → n < (b + 2) ^ 1 → n < b + 2
below_base b n h = subst (λ m. n < m) (power_one b) h

next_power : (b n k : ℕ) → n < (b + 2) ^ suc (suc k) → n < (b + 2) * (b + 2) ^ suc k
next_power b n k h = subst (λ m. n < m) (pow-succ' (b + 2) (suc k)) h

length-digits_within :
    (b fuel n k : ℕ) → n < (b + 2) ^ suc k → length (digits_within b fuel n) ≤ suc k
unfolding digits_within
length-digits_within b zero n k h = omega arith
length-digits_within b (suc fuel) n zero h = rw (lt→ltb n (b + 2) (below_base b n h)) (omega arith)
length-digits_within b (suc fuel) n (suc k) h = elim (Bool-cases (ltb n (b + 2))) [
  | inl small ↦ rw small (omega arith)
  | inr large ↦ rw large (
      omega (
        arith,
        length-append {0} (digits_within b fuel (n / (b + 2))) (n % (b + 2) ∷ []),
        length-digits_within b fuel (n / (b + 2)) k
            (div_below b n ((b + 2) ^ suc k) (next_power b n k h)),
      ))
]

-- A number below the power `k + 1` of the base has `k + 1` digits at most.
pub length-digits : (b n k : ℕ) → n < (b + 2) ^ suc k → length (digits b n) ≤ suc k
unfolding digits
length-digits b n k h = length-digits_within b (suc n) n k h
