-- ===== src/Utils/Embed/Heredoc.antt =====
-- The lines between `cat <<EOF` and `EOF` that natsprovider/utils.py writes for an embedded file.
use interlink_condorce_plugi.Prelude.{
  ℕ, zero, suc, ◌%◌, ◌≤◌, ◌<◌, ◌≡◌, ◌≢◌, refl, ap, Text, codes, List, [], ◌∷◌, ◌++◌, All, length,
  length-take, length-drop, take-append-drop, drop, arith,
}
use interlink_condorce_plugi.Utils.Embed.{b64encode, chunk_len, chunks, encoded_lines}

-- base64 comes in groups of four characters
length-b64encode : (bs : List ℕ) → length (b64encode bs) % 4 ≡ 0
unfolding b64encode
length-b64encode [] = refl
length-b64encode (a ∷ []) = refl
length-b64encode (a ∷ b ∷ []) = refl
length-b64encode (a ∷ b ∷ c ∷ rest) = omega (arith, length-b64encode rest)

-- every chunk has 1 to 80 characters, a multiple of four of them
abbrev pub IsLine : Text → Type 0
IsLine t = (0 < length t) × (length t ≤ chunk_len) × (length t % 4 ≡ 0)

chunks-IsLine : (fuel : ℕ) (t : Text) → length t % 4 ≡ 0 → All IsLine (chunks fuel t)
unfolding chunks
chunks-IsLine zero t h = tt
chunks-IsLine (suc fuel) [] h = tt
chunks-IsLine (suc fuel) (c ∷ t) h =
    let n = length-take {0} chunk_len (c ∷ t) in
    (
      (omega (arith, n), omega (arith, n), omega (arith, n)),
      chunks-IsLine fuel (drop chunk_len (c ∷ t))
          (omega (arith, length-drop {0} chunk_len (c ∷ t))),
    )

IsLine-ne-eof : (t : Text) → IsLine t → t ≢ codes "EOF"
unfolding codes
IsLine-ne-eof t h e = omega (arith, ap (length {0}) e)

abbrev pub concat : List Text → Text
concat [] = []
concat (t ∷ ts) = t ++ concat ts

concat-chunks : (fuel : ℕ) (t : Text) → length t ≤ fuel → concat (chunks fuel t) ≡ t
unfolding chunks
concat-chunks zero [] h = refl
concat-chunks zero (c ∷ t) h = absurd (omega arith)
concat-chunks (suc fuel) [] h = refl
concat-chunks (suc fuel) (c ∷ t) h =
    rw
      (concat-chunks fuel (drop chunk_len (c ∷ t))
        (omega (arith, length-drop {0} chunk_len (c ∷ t))))
      (take-append-drop chunk_len (c ∷ t))

All-mono {ℓ κ μ} :
    {A : Type ℓ} {P : A → Type κ} {Q : A → Type μ} (f : (a : A) → P a → Q a) (xs : List A)
    → All P xs
    → All Q xs
All-mono f [] h = tt
All-mono f (x ∷ xs) h = (f x h.0, All-mono f xs h.1)

-- Whatever the content, the embedded lines joined together are its base64 text, no line is longer
-- than 80 characters, and none is the default token `EOF`, which would end the heredoc.
pub encoded_lines_heredoc :
    (content : List ℕ)
    → (concat (encoded_lines content) ≡ b64encode content)
      × All (λ t. length t ≤ chunk_len) (encoded_lines content)
      × All (λ t. t ≢ codes "EOF") (encoded_lines content)
unfolding encoded_lines
encoded_lines_heredoc content =
    let t = b64encode content in
    let lines = chunks-IsLine (length t) t (length-b64encode content) in
    (
      concat-chunks (length t) t (omega arith),
      All-mono (λ l h. h.1) _ lines,
      All-mono IsLine-ne-eof _ lines,
    )
