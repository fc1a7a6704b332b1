-- ===== src/Prelude/Texts.antt =====
-- Python's `str`, as the list of its code points: literals, `split`, `join`, `in`, `startswith`.
use Prim.Native.Nat.{ℕ}
use Prim.Native.Char.{code}
use Prim.Native.String.{String}
use mathlib.Core.Path.{◌≡◌, refl, sym, ap, ◌∙◌, subst}
use mathlib.Core.Logic.{◌≢◌, inl, inr}
use mathlib.Core.Bool.{Bool, true, false, ◌&&◌, ◌||◌}
use mathlib.Core.List.{List, [], ◌∷◌, ◌++◌}
use native.Mathlib.Omega.{arith}
use interlink_condorce_plugi.Prelude.Lists.{All}
use interlink_condorce_plugi.Prelude.Tests.{if◌then◌else◌, nat_beq, nat_beq_iff, Bool-cases}

abbrev pub Text : Type 0
Text = List ℕ

-- A literal: `codes "running"`. `String` has its own `[]` and `∷`.
unfoldable pub codes : String → Text
codes String.[] = []
codes (String.◌∷◌ c s) = code c ∷ codes s

-- the pieces of the rest, with one more code point before the first
unfoldable pub extend_first : ℕ → List Text → List Text
extend_first c [] = (c ∷ []) ∷ []
extend_first c (p ∷ ps) = (c ∷ p) ∷ ps

-- `t.split(chr(sep))`
unfoldable pub split_at : ℕ → Text → List Text
unfolding extend_first
split_at sep [] = [] ∷ []
split_at sep (c ∷ t) =
    let rest = split_at sep t in if nat_beq c sep then [] ∷ rest else extend_first c rest

-- `l[-1]` of a list that is not empty; `split` never returns an empty one
unfoldable pub last_or : Text → List Text → Text
last_or d [] = d
last_or d (p ∷ ps) = last_or p ps

-- `t.split(chr(sep))[-1]`
unfoldable pub split_last : ℕ → Text → Text
unfolding split_at last_or
split_last sep t = last_or [] (split_at sep t)

-- `".".join(parts)` for the separator `sep`
unfoldable pub join : Text → List Text → Text
join sep [] = []
join sep (p ∷ []) = p
join sep (p ∷ q ∷ ps) = p ++ (sep ++ join sep (q ∷ ps))

-- no code point of the text is `c`
abbrev pub HasNone : ℕ → Text → Type 0
HasNone c [] = Unit {0}
HasNone c (x ∷ t) = (x ≢ c) × HasNone c t

pub HasNone-append : (c : ℕ) (s t : Text) → HasNone c s → HasNone c t → HasNone c (s ++ t)
HasNone-append c [] t hs ht = ht
HasNone-append c (x ∷ s) t hs ht = (hs.0, HasNone-append c s t hs.1 ht)

pub split_at_none : (sep : ℕ) (t : Text) → HasNone sep t → split_at sep t ≡ t ∷ []
unfolding split_at
split_at_none sep [] h = refl
split_at_none sep (c ∷ t) h = ground (arith, h.0, split_at_none sep t h.1)

-- The first piece is what stands before the first separator.
pub split_at-append :
    (sep : ℕ) (a b : Text) → HasNone sep a → split_at sep (a ++ sep ∷ b) ≡ a ∷ split_at sep b
unfolding split_at
split_at-append sep [] b h = rw ((nat_beq_iff sep sep).1 refl)
split_at-append sep (c ∷ a) b h = elim (Bool-cases (nat_beq c sep)) [
  | inl same ↦ absurd (h.0 ((nat_beq_iff c sep).0 same))
  | inr other ↦ rw (other, split_at-append sep a b h.1)
]

split_at-cons : (sep : ℕ) (t : Text) → (p : Text) × (ps : List Text) × (split_at sep t ≡ p ∷ ps)
unfolding split_at
split_at-cons sep [] = ([], [], refl)
split_at-cons sep (c ∷ t) =
    let (p, ps, e) = split_at-cons sep t in
    elim (Bool-cases (nat_beq c sep)) [
      | inl same ↦ ([], split_at sep t, rw same)
      | inr other ↦ (c ∷ p, ps, rw (other, e))
    ]

-- A text that holds a separator splits into two pieces at least.
split_at_two :
    (sep : ℕ) (a b : Text)
    → (p q : Text) × (qs : List Text) × (split_at sep (a ++ sep ∷ b) ≡ p ∷ q ∷ qs)
unfolding split_at
split_at_two sep [] b =
    let (p, ps, e) = split_at-cons sep b in ([], p, ps, rw ((nat_beq_iff sep sep).1 refl, e))
split_at_two sep (c ∷ a) b =
    let (p, q, qs, e) = split_at_two sep a b in
    elim (Bool-cases (nat_beq c sep)) [
      | inl same ↦ ([], p, q ∷ qs, rw (same, e))
      | inr other ↦ (c ∷ p, q, qs, rw (other, e))
    ]

-- What stands before a separator does not change the last piece.
pub split_last_after : (sep : ℕ) (a b : Text) → split_last sep (a ++ sep ∷ b) ≡ split_last sep b
unfolding split_last
split_last_after sep [] b =
    let (p, ps, e) = split_at-cons sep b in rw ((nat_beq_iff sep sep).1 refl, e)
split_last_after sep (c ∷ a) b =
    let (p, q, qs, e) = split_at_two sep a b in
    elim (Bool-cases (nat_beq c sep)) [
      | inl same ↦ rw (same, e) (rw e at (split_last_after sep a b))
      | inr other ↦ rw (other, e) (rw e at (split_last_after sep a b))
    ]

-- `(a + sep + b).split(sep)[-1]` is `b`, for a `b` that holds no separator.
pub split_last-append : (sep : ℕ) (a b : Text) → HasNone sep b → split_last sep (a ++ sep ∷ b) ≡ b
split_last-append sep a b h =
    split_last_after sep a b ∙ (unfold split_last in rw (split_at_none sep b h))

-- A text with no separator is its own last piece.
pub split_last_none : (sep : ℕ) (t : Text) → HasNone sep t → split_last sep t ≡ t
unfolding split_last
split_last_none sep t h = rw (split_at_none sep t h)

split_at-HasNone : (sep : ℕ) (t : Text) → All (HasNone sep) (split_at sep t)
unfolding split_at
split_at-HasNone sep [] = (tt, tt)
split_at-HasNone sep (c ∷ t) =
    let (p, ps, e) = split_at-cons sep t in
    let rest : All (HasNone sep) (p ∷ ps) = subst (All (HasNone sep)) e (split_at-HasNone sep t) in
    elim (Bool-cases (nat_beq c sep)) [
      | inl same ↦ rw same (tt, split_at-HasNone sep t)
      | inr other ↦ rw (other, e) ((ground arith, rest.0), rest.1)
    ]

last_or-All : (P : Text → Type 0) (d : Text) (ps : List Text) → P d → All P ps → P (last_or d ps)
unfolding last_or
last_or-All P d [] h hs = h
last_or-All P d (p ∷ ps) h hs = last_or-All P p ps hs.0 hs.1

-- The last piece of a split holds no separator.
pub split_last-HasNone : (sep : ℕ) (t : Text) → HasNone sep (split_last sep t)
unfolding split_last
split_last-HasNone sep t = last_or-All (HasNone sep) [] (split_at sep t) tt (split_at-HasNone sep t)

-- `t.startswith(p)`
unfoldable pub starts_with : Text → Text → Bool
starts_with t [] = true
starts_with [] (x ∷ p) = false
starts_with (c ∷ t) (x ∷ p) = nat_beq c x && starts_with t p

-- what a text without `c` does not start with
pub starts_with_missing :
    (c : ℕ) (t p q : Text) → starts_with t (p ++ c ∷ q) ≡ true → HasNone c t → ⊥
unfolding starts_with
starts_with_missing c [] [] q h k = cc
starts_with_missing c [] (x ∷ p) q h k = cc
starts_with_missing c (d ∷ t) [] q h k = ground (arith, k.0)
starts_with_missing c (d ∷ t) (x ∷ p) q h k = starts_with_missing c t p q (ground arith) k.1

-- `p in t`, for texts
unfoldable pub contains_text : Text → Text → Bool
unfolding starts_with
contains_text [] p = starts_with [] p
contains_text (c ∷ t) p = starts_with (c ∷ t) p || contains_text t p

pub starts_with-append : (p t : Text) → starts_with (p ++ t) p ≡ true
unfolding starts_with
starts_with-append [] t = refl
starts_with-append (x ∷ p) t = rw ((nat_beq_iff x x).1 refl) (starts_with-append p t)

-- `os.path.basename(t)`
abbrev pub basename : Text → Text
basename t = split_last b'/' t

join-extend_first :
    (sep c : ℕ) (p : Text) (ps : List Text)
    → join (sep ∷ []) (extend_first c (p ∷ ps)) ≡ c ∷ join (sep ∷ []) (p ∷ ps)
unfolding extend_first join
join-extend_first sep c p [] = refl
join-extend_first sep c p (q ∷ qs) = refl

-- Splitting loses nothing: the pieces joined by the separator are the text.
pub join-split_at : (sep : ℕ) (t : Text) → join (sep ∷ []) (split_at sep t) ≡ t
unfolding split_at join
join-split_at sep [] = refl
join-split_at sep (c ∷ t) =
    let (p, ps, e) = split_at-cons sep t in
    let rest : join (sep ∷ []) (p ∷ ps) ≡ t = ap (join (sep ∷ [])) (sym e) ∙ join-split_at sep t in
    elim (Bool-cases (nat_beq c sep)) [
      | inl same ↦ rw (same, e, rest) (ap (λ d. d ∷ t) (sym ((nat_beq_iff c sep).0 same)))
      | inr other ↦ rw (other, e, join-extend_first sep c p ps, rest)
    ]
