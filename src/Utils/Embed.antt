-- ===== src/Utils/Embed.antt =====
-- `embed_binary_file` and `embed_ascii_file` of natsprovider/utils.py: a file inside a shell script,
-- base64 encoded between `cat <<EOF` and `EOF`. A file's content is the list of its bytes.
pub mod Heredoc
use interlink_condorce_plugi.Prelude.{
  ℕ, zero, suc, ◌+◌, ◌-◌, ◌*◌, ◌/◌, ◌%◌, Text, codes, List, [], ◌∷◌, ◌++◌, map, Bool, true, false,
  ◌||◌, nat_beq, ltb, leb, split_at, join, length, take, drop, any, if◌then◌else◌,
}

-- The digits of base64.
unfoldable pub symbol : ℕ → ℕ
symbol n =
    if ltb n 26
    then n + 65
    else if ltb n 52
    then n + 71
    else if ltb n 62
    then n - 4
    else if nat_beq n 62
    then 43
    else 47

-- `base64.b64encode`
unfoldable pub b64encode : List ℕ → Text
unfolding symbol
b64encode [] = []
b64encode (a ∷ []) = symbol (a / 4) ∷ symbol (a % 4 * 16) ∷ b'=' ∷ b'=' ∷ []
b64encode (a ∷ b ∷ []) =
    symbol (a / 4) ∷ symbol (a % 4 * 16 + b / 16) ∷ symbol (b % 16 * 4) ∷ b'=' ∷ []
b64encode (a ∷ b ∷ c ∷ rest) =
    symbol (a / 4)
    ∷ symbol (a % 4 * 16 + b / 16)
    ∷ symbol (b % 16 * 4 + c / 64)
    ∷ symbol (c % 64)
    ∷ b64encode rest

abbrev pub chunk_len : ℕ
chunk_len = 80

-- `[t[i: i+chunk_len] for i in range(0, len(t), chunk_len)]`, with fuel for the rounds
unfoldable pub chunks : ℕ → Text → List Text
chunks zero t = []
chunks (suc fuel) [] = []
chunks (suc fuel) (c ∷ t) = take chunk_len (c ∷ t) ∷ chunks fuel (drop chunk_len (c ∷ t))

-- the lines between the two tokens; there are no more rounds than characters
unfoldable pub encoded_lines : List ℕ → List Text
unfolding b64encode chunks
encoded_lines content = let t = b64encode content in chunks (length t) t

-- `os.path.dirname`: all before the last slash, less the slashes that it ends in unless it has
-- nothing else
unfoldable pub upto_slash : Text → Text
unfolding any
upto_slash [] = []
upto_slash (c ∷ t) =
    let rest = upto_slash t in
    if nat_beq c b'/' || any (λ d. nat_beq d b'/') t then c ∷ rest else []

unfoldable pub strip_slashes : Text → Text
strip_slashes [] = []
strip_slashes (c ∷ t) = elim (strip_slashes t) [
  | [] ↦ if nat_beq c b'/' then [] else c ∷ []
  | d ∷ ds ↦ c ∷ d ∷ ds
]

unfoldable pub dirname : Text → Text
unfolding upto_slash strip_slashes
dirname path =
    let head = upto_slash path in elim (strip_slashes head) [ [] ↦ head | d ∷ ds ↦ d ∷ ds ]

-- The lines of the script before they are joined. `textwrap.dedent` leaves a text alone no line of
-- which begins with a blank, and no digit of base64 is a blank.
unfoldable pub embed_lines : (path token : Text) → List ℕ → Bool → List Text
unfolding encoded_lines dirname
embed_lines path token content executable =
    ((codes "mkdir -p " ++ dirname path)
      ∷ (codes "cat <<" ++ (token ++ (codes " | base64 --decode > " ++ path)))
      ∷ join (codes "\n") (encoded_lines content)
      ∷ (token ++ codes "\n")
      ∷ [])
    ++ (if executable then (codes "chmod +x " ++ path) ∷ [] else [])

unfoldable pub embed_binary_file : (path token : Text) → List ℕ → Bool → Text
unfolding embed_lines join
embed_binary_file path token content executable =
    codes "\n" ++ join (codes "\n") (embed_lines path token content executable)

-- UTF-8 as a parameter: `file_content.encode('utf-8')`
unfoldable pub embed_ascii_file : (Text → List ℕ) → (path token content : Text) → Bool → Text
unfolding embed_binary_file
embed_ascii_file encode path token content executable =
    embed_binary_file path token (encode content) executable
