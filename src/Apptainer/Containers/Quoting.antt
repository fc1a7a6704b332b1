-- ===== src/Apptainer/Containers/Quoting.antt =====
-- What the shell reads of the arguments in the run script of
-- natsprovider/apptainer_cmd_builder/containers.py.
use interlink_condorce_plugi.Prelude.{
  ℕ, ◌≡◌, refl, ap, sym, ◌∙◌, inl, inr, Text, codes, List, [], ◌∷◌, ◌++◌, map, some, true, false,
  nat_beq, nat_beq_iff, Bool-cases, all, join, contains, arith, nat_eq,
}
use mathlib.Core.Bool.{false≢true}
use mathlib.Core.List.{append_assoc, append-nil}
use interlink_condorce_plugi.Apptainer.Containers.Shell.{
  is_safe, escape, quote, run_script, between, word, single, is_plain, with_first, read_words,
}

-- between single quotes every character but the quote itself is read as it is
read_single :
    (w t rest : Text)
    → read_words (single w) (escape t ++ (b'\'' ∷ rest)) ≡ read_words (word (w ++ t)) rest
unfolding read_words escape codes
read_single w [] rest = rw append-nil refl
read_single w (c ∷ t) rest = elim (Bool-cases (nat_beq c b'\'')) [
  | inl quoted ↦ rw quoted (
      rw ((nat_beq_iff c b'\'').0 quoted) (
        read_single (w ++ (b'\'' ∷ [])) t rest
        ∙ ap (λ v. read_words (word v) rest) (append_assoc w (b'\'' ∷ []) t)))
  | inr other ↦ rw other (
      rw other (
        read_single (w ++ (c ∷ [])) t rest
        ∙ ap (λ v. read_words (word v) rest) (append_assoc w (c ∷ []) t)))
]

-- no character that is left bare is one that is not
safe_ne : (c d : ℕ) → is_safe c ≡ true → is_safe d ≡ false → nat_beq c d ≡ false
safe_ne c d hc hd = elim (Bool-cases (nat_beq c d)) [
  | inl same ↦ absurd (false≢true (sym hd ∙ (rw ((nat_beq_iff c d).0 same) at hc)))
  | inr other ↦ other
]

-- neither a blank nor a quote is left bare
module _ (c : ℕ) (h : is_safe c ≡ true) where
  not_blank : nat_beq c b' ' ≡ false
  not_blank = safe_ne c b' ' h (unfold is_safe contains codes in refl)

  not_single : nat_beq c b'\'' ≡ false
  not_single = safe_ne c b'\'' h (unfold is_safe contains codes in refl)

  not_double : nat_beq c b'"' ≡ false
  not_double = safe_ne c b'"' h (unfold is_safe contains codes in refl)

-- a character that is left bare is read as it is
read_safe_char :
    (w : Text) (c : ℕ) (rest : Text)
    → is_safe c ≡ true
    → read_words (word w) (c ∷ rest) ≡ read_words (word (w ++ (c ∷ []))) rest
unfolding read_words is_plain
read_safe_char w c rest h = rw (not_blank c h, not_single c h, not_double c h, h) refl

read_safe :
    (w t rest : Text)
    → all is_safe t ≡ true
    → read_words (word w) (t ++ rest) ≡ read_words (word (w ++ t)) rest
unfolding all
read_safe w [] rest h = rw append-nil refl
read_safe w (c ∷ t) rest h =
    read_safe_char w c (t ++ rest) (ground arith)
    ∙ read_safe (w ++ (c ∷ [])) t rest (ground arith)
    ∙ ap (λ v. read_words (word v) rest) (append_assoc w (c ∷ []) t)

read_first :
    (c : ℕ) (rest : Text)
    → is_safe c ≡ true
    → read_words between (c ∷ rest) ≡ read_words (word (c ∷ [])) rest
unfolding read_words is_plain
read_first c rest h = rw (not_blank c h, not_single c h, not_double c h, h) refl

read_opened : (t : Text) → read_words between (b'\'' ∷ t) ≡ read_words (single []) t
unfolding read_words
read_opened t = refl

read_ended : (w : Text) → read_words (word w) [] ≡ some (w ∷ [])
unfolding read_words
read_ended w = refl

read_blank : (w t : Text) → read_words (word w) (b' ' ∷ t) ≡ with_first w (read_words between t)
unfolding read_words
read_blank w t = refl

first_safe : (c : ℕ) (t : Text) → all is_safe (c ∷ t) ≡ true → is_safe c ≡ true
unfolding all
first_safe c t h = ground arith

rest_safe : (c : ℕ) (t : Text) → all is_safe (c ∷ t) ≡ true → all is_safe t ≡ true
unfolding all
rest_safe c t h = ground arith

-- a quoted argument, from its start on
read_quote : (arg rest : Text) → read_words between (quote arg ++ rest) ≡ read_words (word arg) rest
unfolding quote codes escape read_words
read_quote [] rest = unfold read_words in refl
read_quote (c ∷ t) rest = elim (Bool-cases (all is_safe (c ∷ t))) [
  | inl bare ↦ rw bare (
      read_first c (t ++ rest) (first_safe c t bare)
      ∙ read_safe (c ∷ []) t rest (rest_safe c t bare))
  | inr other ↦ rw other (
      ap (λ s. read_words (single []) s) (append_assoc (escape (c ∷ t)) (b'\'' ∷ []) rest)
      ∙ read_single [] (c ∷ t) rest)
]

-- the words of quoted arguments with blanks between them
read_quoted :
    (args : List Text) → read_words between (join (codes " ") (map quote args)) ≡ some args
unfolding join codes with_first
read_quoted [] = unfold read_words in refl
read_quoted (a ∷ []) =
    ap (read_words between) (sym (append-nil (quote a))) ∙ read_quote a [] ∙ read_ended a
read_quoted (a ∷ b ∷ args) =
    read_quote a (b' ' ∷ join (codes " ") (map quote (b ∷ args)))
    ∙ read_blank a (join (codes " ") (map quote (b ∷ args)))
    ∙ ap (with_first a) (read_quoted (b ∷ args))

-- Whatever the arguments, the shell reads the line after the first one of the run script as the
-- entrypoint and these arguments, each as one word and unchanged, if the entrypoint has only characters
-- that need no quotes, and at least one.
pub run_script-read_words :
    (c : ℕ) (e : Text) (args : List Text)
    → all is_safe (c ∷ e) ≡ true
    → (line : Text) × (run_script (c ∷ e) args ≡ codes "#!/bin/sh\n" ++ line)
      × (read_words between line ≡ some ((c ∷ e) ∷ args))
unfolding run_script with_first
run_script-read_words c e args h =
    let quoted = join (codes " ") (map quote args) in
    (
      (c ∷ e) ++ (b' ' ∷ quoted),
      unfold codes in refl,
      read_first c (e ++ (b' ' ∷ quoted)) (first_safe c e h)
          ∙ read_safe (c ∷ []) e (b' ' ∷ quoted) (rest_safe c e h)
          ∙ read_blank (c ∷ e) quoted
          ∙ ap (with_first (c ∷ e)) (read_quoted args),
    )
