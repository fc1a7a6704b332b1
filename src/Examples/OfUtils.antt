-- ===== src/Examples/OfUtils.antt =====
-- The theorems on natsprovider/utils.py, applied to concrete values.
use interlink_condorce_plugi.Prelude.{
  ◌≤◌, ◌≡◌, ◌≢◌, refl, codes, [], none, some, ok, arith, nat_eq, list_eq, All, length, List, ◌∷◌, ℕ,
  map, inr, Result, Text, err, value_error,
}
use interlink_condorce_plugi.Utils.TokenManager.{TokenManager}
use interlink_condorce_plugi.Utils.TokenManager.Caching.{served, IsFresh, served_from_refresh}
use interlink_condorce_plugi.Utils.Embed.{b64encode, encoded_lines, chunk_len}
use interlink_condorce_plugi.Utils.Embed.Heredoc.{concat, encoded_lines_heredoc}

-- a token obtained at time 0, valid for a minute
abbrev manager : TokenManager
manager = record {
  iam_issuer = some (codes "i");
  refresh_token = some (codes "r");
  iam_client_id = some (codes "c");
  iam_client_secret = some (codes "s");
  token_validity_seconds = some 60;
  bearer_token_path = none;
  last_token_refresh = some 0;
  token_ = some (codes "old");
}

-- two calls in the minute after the refresh at 90 seconds; a refresh would fail, or give another token
abbrev calls : List (ℕ × Result Text)
calls = (91_000_000, err value_error) ∷ (150_000_000, ok (codes "other")) ∷ []

fresh : All (IsFresh 90_000_000 60) calls
fresh = ((omega arith, omega arith, omega arith), ((omega arith, omega arith, omega arith), tt))

served_from_refresh_example : served ((90_000_000, ok (codes "new")) ∷ calls) manager ≡ (
  ok (some (codes "new")) ∷ map (λ call. ok (some (codes "new"))) calls,
  record manager { token_ = some (codes "new"); last_token_refresh = some 90_000_000 },
)
served_from_refresh_example =
    served_from_refresh manager (codes "new") 90_000_000 60 calls refl
      (inr (0, refl, omega arith, omega arith, omega arith)) fresh

encoded_lines_heredoc_example :
    (concat (encoded_lines (codes "#!/bin/sh")) ≡ b64encode (codes "#!/bin/sh"))
    × All (λ t. length t ≤ chunk_len) (encoded_lines (codes "#!/bin/sh"))
    × All (λ t. t ≢ codes "EOF") (encoded_lines (codes "#!/bin/sh"))
encoded_lines_heredoc_example = encoded_lines_heredoc (codes "#!/bin/sh")
