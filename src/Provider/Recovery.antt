-- ===== src/Provider/Recovery.antt =====
-- `resync` of natsprovider/BaseNatsProvider.py as a whole, for a leader that restarts.
use interlink_condorce_plugi.Prelude.{
  ℕ, zero, suc, ◌+◌, ◌<◌, ◌≤◌, ◌≡◌, ◌∙◌, refl, ap, Text, List, [], ◌∷◌, some, true, ◌||◌, arith,
  nat_eq, list_eq, ok, inl, inr, ◌⊎◌, contains,
}
use interlink_condorce_plugi.Prelude.Dicts.{has}
use interlink_condorce_plugi.Utils.Responses.{Data, names, NatsResponse, raise_for_status_2xx}
use interlink_condorce_plugi.Provider.{
  Provider, register, subscribe, status_subject, delete_subject,
}
use interlink_condorce_plugi.Provider.Resync.{
  Outcome, response, timeout, no_responders, attempt, register_all, resync, use_response, accept,
  register_names, job_names, max_attempts,
}
use interlink_condorce_plugi.Provider.Subscriptions.{
  has-register, subject_beq, status_ne_delete, delete_ne_status,
}

-- a request that got no response
abbrev pub IsLost : Outcome → Type 0
IsLost o = (o ≡ timeout) ⊎ (o ≡ no_responders)

attempt-lost :
    (left : ℕ) (replies : ℕ → Outcome) (i : ℕ)
    → IsLost (replies i)
    → attempt (suc left) replies i ≡ attempt left replies (suc i)
unfolding attempt
attempt-lost left replies i (inl h) = rw (attempt, h)
attempt-lost left replies i (inr h) = rw (attempt, h)

attempt-response :
    (left : ℕ) (replies : ℕ → Outcome) (i k : ℕ) (r : NatsResponse)
    → k < left
    → ((j : ℕ) → i ≤ j → j < i + k → IsLost (replies j))
    → replies (i + k) ≡ response r
    → attempt left replies i ≡ some r
unfolding attempt
attempt-response zero replies i k r h lost hr = absurd (omega arith)
attempt-response (suc left) replies i zero r h lost hr =
    let now : replies i ≡ response r = ap replies (omega arith) ∙ hr in rw (attempt, now)
attempt-response (suc left) replies i (suc k) r h lost hr =
    attempt-lost left replies i (lost i (omega arith) (omega arith))
    ∙ attempt-response left replies (suc i) k r (omega arith)
        (λ j hi hj. lost j (omega arith) (omega arith)) (ap replies (omega arith) ∙ hr)

has_status-register_all :
    (jobs : List Text) (p : Provider) (j : Text)
    → has (register_all jobs p).subscriptions (status_subject p j)
      ≡ (contains jobs j || has p.subscriptions (status_subject p j))
unfolding register_all register subscribe contains
has_status-register_all [] p j = refl
has_status-register_all (job ∷ jobs) p j =
    has_status-register_all jobs (register job p) j
    ∙ simp (has-register, subject_beq, delete_ne_status) (ground arith)

has_delete-register_all :
    (jobs : List Text) (p : Provider) (j : Text)
    → has (register_all jobs p).subscriptions (delete_subject p j)
      ≡ (contains jobs j || has p.subscriptions (delete_subject p j))
unfolding register_all register subscribe contains
has_delete-register_all [] p j = refl
has_delete-register_all (job ∷ jobs) p j =
    has_delete-register_all jobs (register job p) j
    ∙ simp (has-register, subject_beq, status_ne_delete) (ground arith)

-- A leader whose first requests, four at most, get no response and whose next one is answered with
-- a 2xx code and the names of its jobs has, after `resync`, the status and the delete subject of
-- every such job.
pub resync_recovers :
    (print : Data → Text) (replies : ℕ → Outcome) (p : Provider) (k code : ℕ) (jobs : List Text)
    (job : Text)
    → k < 5
    → ((j : ℕ) → j < k → IsLost (replies j))
    → replies k ≡ response (record { status_code = code; data_ = names jobs })
    → (200 ≤ code) × (code < 300)
    → contains jobs job ≡ true
    → let (p', result) = resync print replies p in
      (result ≡ ok tt)
      × (has p'.subscriptions (status_subject p job) ≡ true)
      × (has p'.subscriptions (delete_subject p job) ≡ true)
unfolding resync use_response accept job_names register_names
resync_recovers print replies p k code jobs job hk lost hr hc hj =
    rw
      (
        attempt-response max_attempts replies 0 k _ hk (λ j _ hj. lost j (omega arith))
            (ap replies (omega arith) ∙ hr),
        (raise_for_status_2xx print (record { status_code = code; data_ = names jobs })).1 hc,
        has_status-register_all jobs p job,
        has_delete-register_all jobs p job,
        hj,
      )
      (refl, refl, refl)
