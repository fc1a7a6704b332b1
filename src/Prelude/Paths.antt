-- ===== src/Prelude/Paths.antt =====
-- `os.path.join` of two parts.
use mathlib.Core.Bool.{Bool, false}
use mathlib.Core.List.{[], ◌∷◌, ◌++◌}
use interlink_condorce_plugi.Prelude.Tests.{if◌then◌else◌, nat_beq}
use interlink_condorce_plugi.Prelude.Texts.{Text, codes}

-- the last code point of a text is a slash
unfoldable pub ends_in_slash : Text → Bool
ends_in_slash [] = false
ends_in_slash (c ∷ []) = nat_beq c b'/'
ends_in_slash (c ∷ d ∷ t) = ends_in_slash (d ∷ t)

-- An absolute second part stands alone.
unfoldable pub join_path : Text → Text → Text
unfolding ends_in_slash
join_path a [] = if ends_in_slash a then a else elim a [ [] ↦ [] | c ∷ t ↦ (c ∷ t) ++ codes "/" ]
join_path [] (c ∷ b) = c ∷ b
join_path (x ∷ a) (c ∷ b) =
    if nat_beq c b'/'
    then c ∷ b
    else if ends_in_slash (x ∷ a)
    then (x ∷ a) ++ (c ∷ b)
    else (x ∷ a) ++ (b'/' ∷ c ∷ b)
