-- ===== src/Gateway/LastLines.antt =====
-- The text that `get_pod_logs` of natsprovider/NatsGateway.py returns for a job that has ended.
use interlink_condorce_plugi.Prelude.{
  ℕ, zero, suc, ◌-◌, ◌≤◌, ◌<◌, ◌≡◌, refl, sym, Text, codes, List, [], ◌∷◌, ◌++◌, none, some, true,
  false, length, drop, take, take-append-drop, length-drop, length-take, min, Option, leb, split_at,
  join, join-split_at, ok, arith, nat_eq, list_eq, Bool-cases, inl, inr, ◌⊎◌, All,
}
use interlink_condorce_plugi.Prelude.Int.{ℤ, pos, negsuc}
use interlink_condorce_plugi.Utils.Responses.{
  Data, status, JobStatus, Phase, succeeded, failed, raise_for_status_2xx,
}
use interlink_condorce_plugi.Utils.JobId.{get_readable_jobid, log_request}
use interlink_condorce_plugi.Interlink.{LogRequest}
use interlink_condorce_plugi.Subjects.{subject}
use interlink_condorce_plugi.Provider.Resync.{Outcome, response}
use interlink_condorce_plugi.Gateway.{Gateway, nats_connection}
use interlink_condorce_plugi.Gateway.Status.{job_status}
use interlink_condorce_plugi.Gateway.PodStatus.{is_terminal}
use interlink_condorce_plugi.Gateway.PodLogs.{
  is_log_of, full_log, from_end, last_lines, log_of, get_pod_logs,
}

-- the lines of a log
abbrev pub lines_of : Text → List Text
lines_of = split_at b'\n'

-- What a request with this Tail is to get of a log: the whole log if it has none or if it is zero; for
-- a positive `n` the last lines, `n` of them or all; for a negative one, -(n + 1), the lines after the
-- first `n + 1`, or none.
abbrev pub IsTail : Option ℤ → (log out : Text) → Type 0
IsTail none log out = out ≡ log
IsTail (some (pos zero)) log out = out ≡ log
IsTail (some (pos (suc n))) log out =
    (before ls : List Text) × (lines_of log ≡ before ++ ls)
    × (out ≡ join (codes "\n") ls)
    × (length ls ≤ suc n)
    × ((length ls ≡ suc n) ⊎ (before ≡ []))
IsTail (some (negsuc n)) log out =
    (before ls : List Text) × (lines_of log ≡ before ++ ls)
    × (out ≡ join (codes "\n") ls)
    × (length before ≤ suc n)
    × ((length before ≡ suc n) ⊎ (ls ≡ []))

-- the lines from the `k`th on, as a suffix of the list
suffix_from :
    (k : ℕ) (lines : List Text)
    → (lines ≡ take k lines ++ drop k lines)
      × (length (drop k lines) ≡ length lines - k)
      × (length (take k lines) ≡ min k (length lines))
suffix_from k lines = (sym (take-append-drop k lines), length-drop k lines, length-take k lines)

no_length : (ls : List Text) → length ls ≡ 0 → ls ≡ []
no_length [] h = refl
no_length (l ∷ ls) h = absurd (omega arith)

last_lines-IsTail : (tail : Option ℤ) (log : Text) → IsTail tail log (last_lines tail log)
unfolding last_lines from_end codes
last_lines-IsTail none log = refl
last_lines-IsTail (some (pos zero)) log = join-split_at b'\n' log
last_lines-IsTail (some (pos (suc n))) log =
    let lines = lines_of log in
    let k = length lines - suc n in
    let (split, size, size') = suffix_from k lines in
    (
      take k lines,
      drop k lines,
      split,
      refl,
      omega (arith, size),
      elim (Bool-cases (leb (suc n) (length lines))) [
        | inl long ↦ inl (ground (arith, size))
        | inr short ↦ inr (no_length (take k lines) (ground (arith, size')))
      ],
    )
last_lines-IsTail (some (negsuc n)) log =
    let lines = lines_of log in
    let (split, size, size') = suffix_from (suc n) lines in
    (
      take (suc n) lines,
      drop (suc n) lines,
      split,
      refl,
      omega (arith, size'),
      elim (Bool-cases (leb (suc n) (length lines))) [
        | inl long ↦ inl (ground (arith, size'))
        | inr short ↦ inr (no_length (drop (suc n) lines) (ground (arith, size)))
      ],
    )

-- no member is a log of the container
abbrev pub HasNoLog : Text → List (Text × Text) → Type 0
HasNoLog name = All (λ m. is_log_of name m.0 ≡ false)

full_log-HasNoLog :
    (name : Text) (members : List (Text × Text)) (so_far : Text)
    → HasNoLog name members
    → full_log name members so_far ≡ so_far
unfolding full_log
full_log-HasNoLog name [] so_far h = refl
full_log-HasNoLog name ((m, t) ∷ members) so_far h =
    rw (h.0) (full_log-HasNoLog name members so_far h.1)

full_log-last :
    (name m text : Text) (before after : List (Text × Text)) (so_far : Text)
    → is_log_of name m ≡ true
    → HasNoLog name after
    → full_log name (before ++ ((m, text) ∷ after)) so_far ≡ text
unfolding full_log
full_log-last name m text [] after so_far h none_after =
    rw (full_log, h) (full_log-HasNoLog name after text none_after)
full_log-last name m text ((k, t) ∷ before) after so_far h none_after =
    full_log-last name m text before after _ h none_after

log_of-terminal :
    (untar : Text → List (Text × Text)) (q : LogRequest) (id tarball : Text) (phase : Phase)
    → is_terminal phase ≡ true
    → log_of untar q id tarball phase
      ≡ last_lines q.tail (full_log q.container_name (untar tarball) [])
unfolding log_of is_terminal
log_of-terminal untar q id tarball succeeded h = refl
log_of-terminal untar q id tarball failed h = refl
log_of-terminal untar q id tarball Phase.pending h = cc
log_of-terminal untar q id tarball Phase.running h = cc
log_of-terminal untar q id tarball Phase.unknown h = cc

-- If the job name of a log request is known and the provider answers with a 2xx code that the job
-- has ended, with a tarball, the request gets, of the text of the last member that is named as a log of
-- its container: the whole, if it has no Tail or one of zero; the last `n` lines or all, for a positive
-- Tail `n`; the lines after the first `n`, for a negative Tail `-n`.
pub get_pod_logs_container :
    (untar : Text → List (Text × Text)) (print : Data → Text) (send : Text → Outcome)
    (q : LogRequest) (g : Gateway) (id : Text) (code : ℕ) (js : JobStatus) (m text : Text)
    (before after : List (Text × Text))
    → get_readable_jobid (log_request q.pod_name q.namespace q.pod_uid) ≡ ok id
    → send (subject g.nats_subject (codes "status") id)
      ≡ response (record { status_code = code; data_ = status js })
    → (200 ≤ code) × (code < 300)
    → is_terminal js.phase ≡ true
    → untar js.logs_tarball ≡ before ++ ((m, text) ∷ after)
    → is_log_of q.container_name m ≡ true
    → HasNoLog q.container_name after
    → (out : Text) × (get_pod_logs untar print send q g ≡ ok out) × IsTail q.tail text out
unfolding get_pod_logs nats_connection job_status
get_pod_logs_container untar print send q g id code js m text before after hi hs hc ht hu hm hn = (
  last_lines q.tail text,
  rw (
    hi,
    hs,
    (raise_for_status_2xx print (record { status_code = code; data_ = status js })).1 hc,
    log_of-terminal untar q id js.logs_tarball js.phase ht,
    hu,
    full_log-last q.container_name m text before after [] hm hn,
  ),
  last_lines-IsTail q.tail text,
)
