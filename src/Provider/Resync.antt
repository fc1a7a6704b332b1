-- ===== src/Provider/Resync.antt =====
-- `resync` of natsprovider/BaseNatsProvider.py: after a restart a leader asks the gateway for the jobs
-- of its pool, up to five times, and subscribes for each of them again.
use interlink_condorce_plugi.Prelude.{
  ℕ, zero, suc, Text, codes, List, [], ◌∷◌, Option, none, some, Result, ok, err, type_error,
}
use interlink_condorce_plugi.Utils.Responses.{
  Data, bytes, names, status, NatsResponse, raise_for_status,
}
use interlink_condorce_plugi.Provider.{Provider, register}

-- what becomes of one NATS request
pub data Outcome : Type 0 where
  response : NatsResponse → Outcome
  timeout no_responders : Outcome

abbrev pub max_attempts : ℕ
max_attempts = 5

-- the `while` loop, with the attempts left; `replies i` is what becomes of request number `i`
unfoldable pub attempt : ℕ → (ℕ → Outcome) → ℕ → Option NatsResponse
attempt zero replies i = none
attempt (suc left) replies i = elim (replies i) [
  | response r ↦ some r
  | timeout ↦ attempt left replies (suc i)
  | no_responders ↦ attempt left replies (suc i)
]

unfoldable pub register_all : List Text → Provider → Provider
unfolding register
register_all [] p = p
register_all (job ∷ jobs) p = register_all jobs (register job p)

-- What `for job_name in response.data` goes through: names, the keys of a dict, and for bytes
-- integers, which cannot be joined to a subject.
unfoldable pub job_names : Data → Result (List Text)
job_names (names jobs) = ok jobs
job_names (bytes []) = ok []
job_names (bytes (c ∷ t)) = err type_error
job_names (status s) = ok (codes "phase" ∷ codes "logs_tarball" ∷ codes "reason" ∷ [])

unfoldable pub register_names : Result (List Text) → Provider → Provider × Result (Unit {0})
unfolding register_all
register_names (err e) p = (p, err e)
register_names (ok jobs) p = (register_all jobs p, ok tt)

-- `response.raise_for_status()` and what follows it
unfoldable pub accept : Result (Unit {0}) → Data → Provider → Provider × Result (Unit {0})
unfolding job_names register_names
accept (err e) d p = (p, err e)
accept (ok _) d p = register_names (job_names d) p

unfoldable pub use_response :
    (Data → Text) → Option NatsResponse → Provider → Provider × Result (Unit {0})
unfolding accept raise_for_status
use_response print none p = (p, ok tt)
use_response print (some r) p = accept (raise_for_status print r) r.data_ p

unfoldable pub resync : (Data → Text) → (ℕ → Outcome) → Provider → Provider × Result (Unit {0})
unfolding attempt use_response
resync print replies p = use_response print (attempt max_attempts replies 0) p
