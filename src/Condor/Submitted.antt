-- ===== src/Condor/Submitted.antt =====
-- The number of a job in the output of condor_submit, as `submit` of
-- natsprovider/condor/CondorConfiguration.py reads it.
use interlink_condorce_plugi.Prelude.{
  ℕ, ◌+◌, ◌≡◌, refl, ap, sym, ◌∙◌, Text, codes, List, [], ◌∷◌, ◌++◌, All, true, false, nat_beq,
  starts_with, join, length, collect, ◌>>=◌, length-append, Result, ok, err, arith,
}
use mathlib.Core.List.{append_assoc, append-nil}
use interlink_condorce_plugi.Prelude.Int.{ℤ}
use interlink_condorce_plugi.Slurm.Submitted.{IsDigit}
use interlink_condorce_plugi.Condor.Submit.{
  is_listed, run_of, group_of, ends_line, announced, group_here, found, split_list, int, first_id,
  job_id_in,
}

run_of-digits : (ds rest : Text) → All IsDigit ds → run_of (ds ++ (b'.' ∷ rest)) ≡ (ds, b'.' ∷ rest)
unfolding run_of
run_of-digits [] rest h = unfold is_listed in refl
run_of-digits (d ∷ ds) rest h =
    let listed : is_listed d ≡ true = unfold is_listed in ground (arith, h.0) in
    rw (run_of-digits ds rest h.1, listed) refl

group_here-announced :
    (ds rest : Text) → All IsDigit ds → group_here (announced ++ (ds ++ (b'.' ∷ rest))) ≡ ds
unfolding group_here group_of ends_line starts_with codes
group_here-announced ds rest h = ap group_of (run_of-digits ds rest h)

found_skips : (xs ys : Text) → found (length xs) (xs ++ ys) ≡ found 0 ys
unfolding found
found_skips [] ys = refl
found_skips (x ∷ xs) ys = found_skips xs ys

split_digits : (w ds : Text) → All IsDigit ds → split_list w ds ≡ (w ++ ds) ∷ []
unfolding split_list
split_digits w [] h = rw append-nil refl
split_digits w (c ∷ []) h = refl
split_digits w (c ∷ d ∷ t) h =
    let other : nat_beq c b',' ≡ false = ground (arith, h.0) in
    rw other
      (split_digits (w ++ c ∷ []) (d ∷ t) h.1 ∙ ap (λ v. v ∷ []) (append_assoc w (c ∷ []) (d ∷ t)))

-- no match begins in the first text, if the second one follows it
abbrev pub NoMatch : Text → Text → Type 0
NoMatch [] t = Unit {0}
NoMatch (c ∷ pre) t = (group_here (c ∷ (pre ++ t)) ≡ []) × NoMatch pre t

found_after : (pre t : Text) → NoMatch pre t → found 0 (pre ++ t) ≡ found 0 t
unfolding found
found_after [] t h = refl
found_after (c ∷ pre) t h = rw (h.0, found) (found_after pre t h.1)

found_here :
    (c : ℕ) (t : Text) (d : ℕ) (ds : Text)
    → group_here (c ∷ t) ≡ d ∷ ds
    → found 0 (c ∷ t) ≡ (d ∷ ds) ∷ found (length announced + length (d ∷ ds)) t
unfolding found
found_here c t d ds h = rw (h, found)

abbrev announced_rest : Text
announced_rest = codes "ubmitted to cluster "

announced_split : announced ≡ b's' ∷ announced_rest
unfolding codes
announced_split = refl

-- a match and what follows it
found_one :
    (d : ℕ) (ds rest : Text)
    → All IsDigit (d ∷ ds)
    → found 0 (announced ++ ((d ∷ ds) ++ (b'.' ∷ rest))) ≡ (d ∷ ds) ∷ found 0 rest
found_one d ds rest h =
    let g = d ∷ ds in
    let tail : Text = g ++ (b'.' ∷ rest) in
    let dotted : Text = g ++ (b'.' ∷ []) in
    let start : announced ++ tail ≡ b's' ∷ (announced_rest ++ tail) =
      ap (λ (a : Text). a ++ tail) announced_split in
    let size : length announced + length g ≡ length (announced_rest ++ dotted) = omega (
      arith,
      length-append announced_rest dotted,
      length-append g (b'.' ∷ []),
      ap (λ (a : Text). length a) announced_split,
    ) in
    let whole : announced_rest ++ tail ≡ (announced_rest ++ dotted) ++ rest =
      ap (λ (a : Text). announced_rest ++ a) (sym (append_assoc g (b'.' ∷ []) rest))
      ∙ sym (append_assoc announced_rest dotted rest) in
    ap (found 0) start
    ∙ found_here b's' (announced_rest ++ tail) d ds
        (ap group_here (sym start) ∙ group_here-announced g rest h)
    ∙ ap (λ (l : List Text). g ∷ l)
        (ap (λ k. found k (announced_rest ++ tail)) size
          ∙ ap (found (length (announced_rest ++ dotted))) whole
          ∙ found_skips (announced_rest ++ dotted) rest)

-- what the method makes of the numbers, and of the groups
abbrev of_numbers : List Text → Result ℤ
of_numbers ts = elim (collect int ts) [ err e ↦ err e | ok ids ↦ first_id ids ]

abbrev of_groups : List Text → Result ℤ
of_groups gs = of_numbers (split_list [] (join (codes ", ") gs))

one_id : (g : Text) → All IsDigit g → of_groups (g ∷ []) ≡ int g
unfolding join collect first_id
one_id g h = ap of_numbers (split_digits [] g h) ∙ of_int (int g)
  where
    of_int :
        (r : Result ℤ)
        → (elim (do y ← r; ok (y ∷ [])) [ err e ↦ err e | ok ids ↦ first_id ids ]) ≡ r
    of_int (err e) = refl
    of_int (ok n) = refl

-- What condor_submit prints for a job is read as the number between the announcement and the dot, if
-- no match begins before it and none follows.
pub job_id_in-announced :
    (pre rest : Text) (d : ℕ) (ds : Text)
    → All IsDigit (d ∷ ds)
    → NoMatch pre (announced ++ ((d ∷ ds) ++ (b'.' ∷ rest)))
    → found 0 rest ≡ []
    → job_id_in (pre ++ (announced ++ ((d ∷ ds) ++ (b'.' ∷ rest)))) ≡ int (d ∷ ds)
unfolding job_id_in
job_id_in-announced pre rest d ds h before after =
    let all : found 0 (pre ++ (announced ++ ((d ∷ ds) ++ (b'.' ∷ rest)))) ≡ (d ∷ ds) ∷ [] =
      found_after pre (announced ++ ((d ∷ ds) ++ (b'.' ∷ rest))) before
      ∙ found_one d ds rest h
      ∙ ap (λ (l : List Text). (d ∷ ds) ∷ l) after in
    ap of_groups all ∙ one_id (d ∷ ds) h
