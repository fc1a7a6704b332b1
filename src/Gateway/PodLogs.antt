-- ===== src/Gateway/PodLogs.antt =====
-- `get_pod_logs` of natsprovider/NatsGateway.py: the log of one container of a job that has ended,
-- and its last lines. `untar` gives the regular members of a tarball, name and text.
use interlink_condorce_plugi.Prelude.{
  zero, suc, ◌-◌, Text, codes, List, [], ◌∷◌, ◌++◌, Option, none, some, Bool, ◌||◌, length, drop,
  split_at, join, Result, ok, ◌>>=◌, ◌>>◌, nat_eq, list_eq, ◌==◌, if◌then◌else◌,
}
use interlink_condorce_plugi.Prelude.Int.{ℤ, pos, negsuc}
use interlink_condorce_plugi.Utils.Responses.{
  Data, Phase, pending, running, unknown, raise_for_status,
}
use interlink_condorce_plugi.Utils.JobId.{get_readable_jobid, log_request}
use interlink_condorce_plugi.Interlink.{LogRequest}
use interlink_condorce_plugi.Subjects.{subject}
use interlink_condorce_plugi.Provider.Resync.{Outcome}
use interlink_condorce_plugi.Gateway.{Gateway, nats_connection}
use interlink_condorce_plugi.Gateway.Status.{job_status}

-- `member.name in ["init-" + name + ".out", "run-" + name + ".out"]`
unfoldable pub is_log_of : Text → Text → Bool
is_log_of name member =
    member == (codes "init-" ++ (name ++ codes ".out"))
    || member == (codes "run-" ++ (name ++ codes ".out"))

-- the text of the last member that matches, or the one so far
unfoldable pub full_log : Text → List (Text × Text) → (so_far : Text) → Text
unfolding is_log_of
full_log name [] so_far = so_far
full_log name ((member, text) ∷ members) so_far =
    full_log name members (if is_log_of name member then text else so_far)

-- `l[-n:]`, where `-0` is 0
unfoldable pub from_end {ℓ} : {A : Type ℓ} → ℤ → List A → List A
from_end (pos zero) l = l
from_end (pos (suc n)) l = drop (length l - suc n) l
from_end (negsuc n) l = drop (suc n) l

-- `"\n".join(full_log.split('\n')[-Tail:])`
unfoldable pub last_lines : Option ℤ → Text → Text
unfolding from_end
last_lines none log = log
last_lines (some n) log = join (codes "\n") (from_end n (split_at b'\n' log))

abbrev pub not_implemented : Text
not_implemented =
    codes "\nNot implemented. Unfortunately the log cannot be retrieved for a running job.\n "

module _ (untar : Text → List (Text × Text)) where
  -- the branches on the phase
  unfoldable pub log_of : LogRequest → Text → Text → Phase → Text
  unfolding full_log last_lines
  log_of q id tarball pending = []
  log_of q id tarball running = not_implemented
  log_of q id tarball unknown =
      codes "Error. Cannot return log for job status '" ++ (id ++ codes "'")
  log_of q id tarball _ = last_lines q.tail (full_log q.container_name (untar tarball) [])

  -- The method changes no state; `send` is what becomes of the request.
  unfoldable pub get_pod_logs :
      (Data → Text) → (Text → Outcome) → LogRequest → Gateway → Result Text
  unfolding log_of job_status
  get_pod_logs print send q g = do
    id ← get_readable_jobid (log_request q.pod_name q.namespace q.pod_uid)
    r ← nats_connection (send (subject g.nats_subject (codes "status") id))
    raise_for_status print r
    s ← job_status r.data_
    ok (log_of q id s.logs_tarball s.phase)
