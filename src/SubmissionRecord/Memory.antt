-- ===== src/SubmissionRecord/Memory.antt =====
-- What the record of natsprovider/SubmissionRecord.py remembers: how long, and how many jobs.
use interlink_condorce_plugi.Prelude.{
  ℕ, zero, suc, ◌+◌, ◌-◌, ◌*◌, ◌≤◌, ◌<◌, ◌≡◌, refl, Text, List, [], ◌∷◌, ◌++◌, map, Option, true,
  All, length, length-append, length-drop, drop, keep, contains, get_or, lt→ltb, nat_eq, list_eq,
  arith,
}
use interlink_condorce_plugi.Prelude.Dicts.{beq_refl}
use mathlib.Core.List.{append_assoc}
use interlink_condorce_plugi.SubmissionRecord.{
  Submission, SubmissionRecord, append, mark_job_as_submitted, within_timeout, is_being_submitted,
}

-- the times of the record are not in the future
abbrev pub IsPast : ℕ → List Submission → Type 0
IsPast now q = All (λ s. s.submission_timestamp ≤ now) q

keep_all :
    (now timeout : ℕ) (q : List Submission)
    → 0 < timeout
    → IsPast now q
    → keep (within_timeout now timeout) q ≡ q
unfolding keep within_timeout
keep_all now timeout [] h p = refl
keep_all now timeout (s ∷ q) h p =
    rw (lt→ltb s.submission_timestamp (now + timeout * 1_000_000) (omega (arith, p.0)))
      (rw (keep_all now timeout q h p.1))

-- If the timeout is positive and no submission is in the future, the timeout never ends: a job
-- counts as being submitted exactly as long as it is in the queue, since the code takes the
-- submission time minus now, which is never positive.
pub is_being_submitted_ever :
    (r : SubmissionRecord) (now : ℕ) (name : Text) (timeout : Option ℕ)
    → 0 < get_or timeout r.timeout_seconds
    → IsPast now r.queue
    → is_being_submitted now name timeout r ≡ contains (map (λ s. s.job_name) r.queue) name
unfolding is_being_submitted
is_being_submitted_ever r now name timeout h p =
    rw (keep_all now (get_or timeout r.timeout_seconds) r.queue h p)

-- The queue never grows beyond its maximal length.
mark_bounded :
    (r : SubmissionRecord) (name : Text) (t : ℕ)
    → length (mark_job_as_submitted name t r).queue ≤ r.max_length
unfolding mark_job_as_submitted append
mark_bounded r name t =
    let s : Submission = record { job_name = name; submission_timestamp = t } in
    let longer = r.queue ++ s ∷ [] in
    omega (arith, length-drop {0} (length longer - r.max_length) longer)

drop-append {ℓ} :
    {A : Type ℓ} (n : ℕ) (xs ys : List A) → n ≤ length xs → drop n (xs ++ ys) ≡ drop n xs ++ ys
drop-append zero xs ys h = refl
drop-append (suc n) [] ys h = absurd (omega arith)
drop-append (suc n) (x ∷ xs) ys h = drop-append n xs ys (omega arith)

-- `s` stands in the queue, with `k` newer entries behind it.
abbrev StandsAt : Submission → ℕ → List Submission → Type 0
StandsAt s k q = (pre post : List Submission) × (q ≡ pre ++ (s ∷ post)) × (length post ≡ k)

append-StandsAt :
    (max k : ℕ) (s x : Submission) (q : List Submission)
    → suc k < max
    → StandsAt s k q
    → StandsAt s (suc k) (append max x q)
unfolding append
append-StandsAt max k s x q h (pre, post, e, n) =
    let longer = pre ++ (s ∷ post ++ x ∷ []) in
    (
      drop (length longer - max) pre,
      post ++ x ∷ [],
      rw (e, append_assoc)
          (drop-append (length longer - max) pre (s ∷ (post ++ x ∷ [])) (
            omega (
              arith,
              n,
              length-append {0} pre (s ∷ (post ++ x ∷ [])),
              length-append {0} post (x ∷ []),
            ))),
      omega (arith, length-append {0} post (x ∷ []), n),
    )

-- the submissions of a sequence of jobs, each with its time
abbrev pub mark_all : List (Text × ℕ) → SubmissionRecord → SubmissionRecord
mark_all [] r = r
mark_all ((name, t) ∷ later) r = mark_all later (mark_job_as_submitted name t r)

mark_all-StandsAt :
    (later : List (Text × ℕ)) (r : SubmissionRecord) (s : Submission) (k : ℕ)
    → k + length later < r.max_length
    → StandsAt s k r.queue
    → StandsAt s (k + length later) (mark_all later r).queue
unfolding mark_job_as_submitted
mark_all-StandsAt [] r s k h (pre, post, e, n) = (pre, post, e, omega (arith, n))
mark_all-StandsAt ((name, t) ∷ later) r s k h st =
    let (pre, post, e, n) =
      mark_all-StandsAt later (mark_job_as_submitted name t r) s (suc k) (omega arith)
        (append-StandsAt r.max_length k s _ r.queue (omega arith) st) in
    (pre, post, e, omega (arith, n))

-- the newest entry of the queue
append-StandsAt_new :
    (max : ℕ) (s : Submission) (q : List Submission) → 0 < max → StandsAt s 0 (append max s q)
unfolding append
append-StandsAt_new max s q h =
    let longer = q ++ s ∷ [] in
    (
      drop (length longer - max) q,
      [],
      drop-append (length longer - max) q (s ∷ []) (omega (arith, length-append {0} q (s ∷ []))),
      refl,
    )

contains_name :
    (pre post : List Submission) (s : Submission)
    → contains (map (λ x. x.job_name) (pre ++ (s ∷ post))) s.job_name ≡ true
unfolding contains
contains_name [] post s = rw (beq_refl s.job_name) refl
contains_name (p ∷ pre) post s = ground (arith, contains_name pre post s)

-- A job is remembered until as many others have been marked as the record can hold.
mark_all-remembers :
    (r : SubmissionRecord) (name : Text) (t : ℕ) (later : List (Text × ℕ))
    → length later < r.max_length
    → contains (map (λ s. s.job_name) (mark_all later (mark_job_as_submitted name t r)).queue) name
      ≡ true
unfolding mark_job_as_submitted
mark_all-remembers r name t later h =
    let s : Submission = record { job_name = name; submission_timestamp = t } in
    let (pre, post, e, n) =
      mark_all-StandsAt later (mark_job_as_submitted name t r) s 0 (omega arith)
        (append-StandsAt_new r.max_length s r.queue (omega arith)) in
    rw e (contains_name pre post s)
