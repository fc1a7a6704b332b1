-- ===== src/Slurm/Tables.antt =====
-- The order in which `get_pod_status_and_logs` of natsprovider/slurmprovider/SlurmProvider.py tests a
-- status against its tables.
use interlink_condorce_plugi.Prelude.{
  ◌≡◌, refl, Text, List, [], ◌∷◌, ◌++◌, some, true, any, contains, starts_with, contains_text,
  starts_with-append, arith, nat_eq, list_eq, list_beq_iff, ◌==◌, Bool-cases, inl, inr,
}
use interlink_condorce_plugi.Utils.Responses.{failed}
use interlink_condorce_plugi.Slurm.{names_one_of, failed_statuses}
use interlink_condorce_plugi.Slurm.Status.{verdict, report, job_status}

starts_with-append_more :
    (t p rest : Text) → starts_with t p ≡ true → starts_with (t ++ rest) p ≡ true
unfolding starts_with
starts_with-append_more t [] rest h = refl
starts_with-append_more [] (x ∷ p) rest h = cc
starts_with-append_more (c ∷ t) (x ∷ p) rest h = ground (arith, starts_with-append_more t p rest)

contains_text-append : (pre word post : Text) → contains_text (pre ++ (word ++ post)) word ≡ true
unfolding contains_text
contains_text-append [] [] [] = refl
contains_text-append [] [] (c ∷ post) = refl
contains_text-append [] (w ∷ word) post = rw (starts_with-append (w ∷ word) post)
contains_text-append (c ∷ pre) word post = ground (arith, contains_text-append pre word post)

any-contains :
    (words : List Text) (word t : Text)
    → contains words word ≡ true
    → contains_text t word ≡ true
    → names_one_of words t ≡ true
unfolding names_one_of contains any
any-contains [] word t h k = cc
any-contains (w ∷ words) word t h k = elim (Bool-cases (w == word)) [
  | inl same ↦ rw ((list_beq_iff w word).0 same, k)
  | inr other ↦ ground (arith, any-contains words word t (rw other at h) k)
]

-- A status that contains a word of the table of failures anywhere is a failure, with the status as
-- the reason, whatever words of the other tables it contains too.
verdict-failed :
    (pre word post : Text)
    → contains failed_statuses word ≡ true
    → verdict (some (pre ++ (word ++ post)))
      ≡ report (job_status failed [] (some (pre ++ (word ++ post))))
unfolding verdict
verdict-failed pre word post h = rw (
    any-contains failed_statuses word (pre ++ (word ++ post)) h
      (contains_text-append pre word post))
