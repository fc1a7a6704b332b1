-- ===== src/Apptainer/Builder/Squeeze.antt =====
-- The blank lines of the script of natsprovider/apptainer_cmd_builder/ApptainerCmdBuilder.py.
use interlink_condorce_plugi.Prelude.{
  ℕ, codes, Option, ok, join, split_at, ◌≡◌, ◌∙◌, inl, inr, refl, Text, List, [], ◌∷◌, true, ◌||◌,
  keep, Bool-cases, arith,
}
use interlink_condorce_plugi.Prelude.Format.{is_nonempty}
use interlink_condorce_plugi.Apptainer.Volumes.{Volume}
use interlink_condorce_plugi.Apptainer.Volumes.Mounts.{VolumeBind}
use interlink_condorce_plugi.Apptainer.Builder.{Job}
use interlink_condorce_plugi.Apptainer.Builder.Template.{squeeze, Parts, template}
use interlink_condorce_plugi.Apptainer.Builder.Dump.{parts, dump}

-- no two lines in a row are empty
abbrev pub NoBlankRun : List Text → Type 0
NoBlankRun [] = Unit {0}
NoBlankRun (l ∷ []) = Unit {0}
NoBlankRun (l ∷ m ∷ ls) = ((is_nonempty l || is_nonempty m) ≡ true) × NoBlankRun (m ∷ ls)

keep-squeeze :
    (l : Text) (ls : List Text) → keep is_nonempty (squeeze (l ∷ ls)) ≡ keep is_nonempty ls
unfolding squeeze keep
keep-squeeze l [] = refl
keep-squeeze l (m ∷ ls) = elim (Bool-cases (is_nonempty m)) [
  | inl full ↦ elim (Bool-cases (is_nonempty l)) [
    | inl _ ↦ ground (arith, keep-squeeze m ls)
    | inr _ ↦ ground (arith, keep-squeeze m ls)
  ]
  | inr empty ↦ ground (arith, keep-squeeze m ls)
]

swap_head :
    (l m : Text) (ls : List Text)
    → is_nonempty l ≡ is_nonempty m
    → NoBlankRun (m ∷ ls)
    → NoBlankRun (l ∷ ls)
swap_head l m [] e h = tt
swap_head l m (k ∷ ls) e h = (rw e h.0, h.1)

tail-NoBlankRun : (l : Text) (ls : List Text) → NoBlankRun (l ∷ ls) → NoBlankRun ls
tail-NoBlankRun l [] h = tt
tail-NoBlankRun l (m ∷ ls) h = h.1

squeeze-NoBlankRun : (l : Text) (ls : List Text) → NoBlankRun (l ∷ squeeze (l ∷ ls))
unfolding squeeze
squeeze-NoBlankRun l [] = tt
squeeze-NoBlankRun l (m ∷ ls) = elim (Bool-cases (is_nonempty l || is_nonempty m)) [
  | inl kept ↦ rw kept (kept, squeeze-NoBlankRun m ls)
  | inr dropped ↦
      rw dropped (swap_head l m (squeeze (m ∷ ls)) (ground arith) (squeeze-NoBlankRun m ls))
]

keep_blank : (ls : List Text) → keep is_nonempty ls ≡ keep is_nonempty ([] ∷ ls)
unfolding keep is_nonempty
keep_blank ls = refl

-- the first line of the template is empty
template-first :
    (version application_token : Text) (b : Job) (p : Parts)
    → (rest : List Text) × (split_at b'\n' (template version application_token b p) ≡ [] ∷ rest)
unfolding template join codes split_at
template-first version application_token b p = (_, refl)

module _ (set_of : List Volume → List Volume) (bind_set : List VolumeBind → List VolumeBind)
    (encode : Text → List ℕ) (rndid : Text) (token : Option Text) where
  -- If the parts of the script can be built, the script has the lines of the filled template that are
  -- not empty, in the same order, and no two empty lines in a row.
  pub dump-lines :
      (version application_token : Text) (b : Job) (p : Parts)
      → parts set_of bind_set encode rndid token b ≡ ok p
      → (lines : List Text) × (dump set_of bind_set encode rndid token version application_token b
          ≡ ok (join (codes "\n") lines))
        × NoBlankRun lines
        × (keep is_nonempty lines
            ≡ keep is_nonempty (split_at b'\n' (template version application_token b p)))
  unfolding dump
  dump-lines version application_token b p h =
      let (rest, e) = template-first version application_token b p in
      (
        squeeze (split_at b'\n' (template version application_token b p)),
        rw h refl,
        rw e (tail-NoBlankRun [] (squeeze ([] ∷ rest)) (squeeze-NoBlankRun [] rest)),
        rw e (keep-squeeze [] rest ∙ keep_blank rest),
      )
