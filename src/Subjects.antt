-- ===== src/Subjects.antt =====
-- The NATS subjects of natsprovider/BaseNatsProvider.py and natsprovider/NatsGateway.py: texts joined
-- by dots, and the last token of one, `msg.subject.split(".")[-1]`.
pub mod Routing
use interlink_condorce_plugi.Prelude.{
  ℕ, refl, ◌≡◌, ◌≢◌, ◌∙◌, sym, ap, split_last_after, split_last_none, arith, Text, codes, List, [],
  ◌∷◌, ◌++◌, join, split_last, split_last-append, HasNone,
}
use mathlib.Core.List.{append_assoc}

-- `".".join((nats_subject, kind, name))`
unfoldable pub subject : Text → Text → Text → Text
unfolding join codes
subject base kind name = join (codes ".") (base ∷ kind ∷ name ∷ [])

-- `".".join((nats_subject, "create", pool, job_name))`
unfoldable pub create_subject : Text → Text → Text → Text
unfolding join codes
create_subject base pool name = join (codes ".") (base ∷ codes "create" ∷ pool ∷ name ∷ [])

-- `msg.subject.split(".")[-1]`
unfoldable pub last_token : Text → Text
unfolding split_last
last_token s = split_last b'.' s

-- The last token of a subject is the last token of the name that it was built from.
pub last_token-subject_any :
    (base kind name : Text) → last_token (subject base kind name) ≡ last_token name
unfolding subject last_token
last_token-subject_any base kind name =
    ap (split_last b'.') (sym (append_assoc base (b'.' ∷ kind) (b'.' ∷ name)))
    ∙ split_last_after b'.' (base ++ b'.' ∷ kind) name

-- So it is the name itself, if that has no dot.
pub last_token-subject :
    (base kind name : Text) → HasNone b'.' name → last_token (subject base kind name) ≡ name
unfolding last_token
last_token-subject base kind name h =
    last_token-subject_any base kind name ∙ split_last_none b'.' name h

pub last_token-create_subject :
    (base pool name : Text) → HasNone b'.' name → last_token (create_subject base pool name) ≡ name
unfolding create_subject last_token
last_token-create_subject base pool name h =
    ap (split_last b'.') (sym (append_assoc base (codes ".create." ++ pool) (b'.' ∷ name)))
    ∙ split_last-append b'.' (base ++ (codes ".create." ++ pool)) name h

-- the pool and the name of a create subject are the name of a subject of that kind
pub create_subject-eq :
    (base pool name : Text)
    → create_subject base pool name ≡ subject base (codes "create") (pool ++ b'.' ∷ name)
unfolding create_subject subject
create_subject-eq base pool name = refl

tail_of : ℕ → Text → Text
tail_of d [] = []
tail_of d (c ∷ t) = t

append_cancel : (p s t : Text) → p ++ s ≡ p ++ t → s ≡ t
append_cancel [] s t e = e
append_cancel (c ∷ p) s t e = append_cancel p s t (unfold tail_of in ap (tail_of c) e)

-- Subjects of one kind are equal exactly when their names are.
pub subject_injective : (base kind m n : Text) → subject base kind m ≡ subject base kind n → m ≡ n
unfolding subject
subject_injective base kind m n e =
    append_cancel (b'.' ∷ []) m n
      (append_cancel kind _ _ (append_cancel (b'.' ∷ []) _ _ (append_cancel base _ _ e)))

-- Subjects of two kinds that differ in a character are not equal.
pub subject_kinds :
    (base q k l m n : Text) (c d : ℕ)
    → c ≢ d
    → subject base (q ++ (c ∷ k)) m ≢ subject base (q ++ (d ∷ l)) n
unfolding subject
subject_kinds base q k l m n c d h e =
    let same = append_cancel (b'.' ∷ []) _ _ (append_cancel base _ _ e) in
    ground (
      arith,
      h,
      append_cancel q (c ∷ (k ++ b'.' ∷ m)) (d ∷ (l ++ b'.' ∷ n))
          (sym (append_assoc q (c ∷ k) (b'.' ∷ m)) ∙ same ∙ append_assoc q (d ∷ l) (b'.' ∷ n)),
    )
