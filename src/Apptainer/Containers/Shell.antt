-- ===== src/Apptainer/Containers/Shell.antt =====
-- The arguments in the run script of natsprovider/apptainer_cmd_builder/containers.py: `shlex.quote`, and
-- a reading of the words of a shell command, by which its effect is judged.
use interlink_condorce_plugi.Prelude.{
  ℕ, Text, codes, List, [], ◌∷◌, ◌++◌, map, Option, none, some, Bool, ◌&&◌, ◌||◌, nat_beq, leb, all,
  join, contains, nat_eq, if◌then◌else◌,
}

-- the characters that `shlex.quote` leaves bare
unfoldable pub is_safe : ℕ → Bool
unfolding contains codes
is_safe c =
    (leb b'a' c && leb c b'z')
    || ((leb b'A' c && leb c b'Z')
        || ((leb b'0' c && leb c b'9') || contains (codes "_@%+=:,./-") c))

-- `s.replace("'", "'\"'\"'")`
unfoldable pub escape : Text → Text
unfolding codes
escape [] = []
escape (c ∷ t) = (if nat_beq c b'\'' then codes "'\"'\"'" else c ∷ []) ++ escape t

-- `shlex.quote(arg)`
unfoldable pub quote : Text → Text
quote [] = codes "''"
quote (c ∷ t) = if all is_safe (c ∷ t) then c ∷ t else b'\'' ∷ (escape (c ∷ t) ++ (b'\'' ∷ []))

-- the content of the file `run`
unfoldable pub run_script : (entrypoint : Text) → (args : List Text) → Text
run_script entrypoint args =
    codes "#!/bin/sh\n" ++ (entrypoint ++ (codes " " ++ join (codes " ") (map quote args)))

-- Where a command is read: between two words, in a word, or between quotes in a word, with the part of
-- the word that has been read.
pub data Reading : Type 0 where
  between : Reading
  word single double : Text → Reading

-- a character that stands for itself outside of quotes, and one between double quotes
unfoldable pub is_plain : ℕ → Bool
is_plain c = is_safe c

unfoldable pub is_literal : ℕ → Bool
is_literal c = contains (codes "$`\\") c

unfoldable pub with_first : Text → Option (List Text) → Option (List Text)
with_first w none = none
with_first w (some ws) = some (w ∷ ws)

-- The words of a command by the rules of the shell for blanks and quotes. Every other character that
-- means something to the shell is refused.
unfoldable pub read_words : Reading → Text → Option (List Text)
unfolding is_literal with_first contains codes
read_words between [] = some []
read_words between (c ∷ t) =
    let skip = read_words between t in
    let opened = read_words (single []) t in
    let opened_double = read_words (double []) t in
    let started = read_words (word (c ∷ [])) t in
    if nat_beq c b' '
    then skip
    else if nat_beq c b'\''
    then opened
    else if nat_beq c b'"'
    then opened_double
    else if is_plain c
    then started
    else none
read_words (word w) [] = some (w ∷ [])
read_words (word w) (c ∷ t) =
    let ended = with_first w (read_words between t) in
    let opened = read_words (single w) t in
    let opened_double = read_words (double w) t in
    let more = read_words (word (w ++ (c ∷ []))) t in
    if nat_beq c b' '
    then ended
    else if nat_beq c b'\''
    then opened
    else if nat_beq c b'"'
    then opened_double
    else if is_plain c
    then more
    else none
read_words (single w) [] = none
read_words (single w) (c ∷ t) =
    let closed = read_words (word w) t in
    let more = read_words (single (w ++ (c ∷ []))) t in if nat_beq c b'\'' then closed else more
read_words (double w) [] = none
read_words (double w) (c ∷ t) =
    let closed = read_words (word w) t in
    let more = read_words (double (w ++ (c ∷ []))) t in
    if nat_beq c b'"' then closed else if is_literal c then none else more
