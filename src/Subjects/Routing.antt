-- ===== src/Subjects/Routing.antt =====
-- From the job name that the gateway puts into a subject to the one that a provider reads from it.
use interlink_condorce_plugi.Prelude.{◌≡◌, ◌↔◌, subst, Text, HasNone, split_last-HasNone, ok}
use interlink_condorce_plugi.Utils.JobId.{readable}
use interlink_condorce_plugi.Utils.JobId.Shape.{readable_shape}
use interlink_condorce_plugi.Subjects.{
  subject, create_subject, last_token, last_token-subject, last_token-create_subject,
}

last_token-HasNone : (s : Text) → HasNone b'.' (last_token s)
unfolding last_token
last_token-HasNone s = split_last-HasNone b'.' s

-- A provider reads back from a status or delete subject the job name that was put there exactly if
-- that has no dot, and the same for a create subject.
pub routing_exact :
    (base kind pool name : Text)
    → ((last_token (subject base kind name) ≡ name) ↔ HasNone b'.' name)
      × ((last_token (create_subject base pool name) ≡ name) ↔ HasNone b'.' name)
routing_exact base kind pool name = (
  (
    λ e. subst (HasNone b'.') e (last_token-HasNone (subject base kind name)),
    last_token-subject base kind name,
  ),
  (
    λ e. subst (HasNone b'.') e (last_token-HasNone (create_subject base pool name)),
    last_token-create_subject base pool name,
  ),
)

-- If a pod whose name and namespace have no dot has a job name, that name is read back from every
-- subject that it is put in.
readable_routing :
    (base kind pool name namespace uid id : Text)
    → readable name namespace uid ≡ ok id
    → HasNone b'.' name
    → HasNone b'.' namespace
    → (last_token (subject base kind id) ≡ id) × (last_token (create_subject base pool id) ≡ id)
readable_routing base kind pool name namespace uid id e h k =
    let free = (readable_shape name namespace uid id e).1 h k in
    (last_token-subject base kind id free, last_token-create_subject base pool id free)
