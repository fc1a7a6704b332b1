-- ===== src/Utils/Responses.antt =====
-- `NatsResponse` and `JobStatus` of natsprovider/utils.py: what crosses NATS between the gateway and
-- a provider. The pickle and zlib encodings are not modelled: a message is the value that it carries.
-- The optional `headers` of a response, which no caller sets, and those of the exception are left out.
use interlink_condorce_plugi.Prelude.{
  ℕ, ◌≤◌, ◌<◌, ◌≡◌, ◌↔◌, Text, List, Option, ◌||◌, arith, ltb, leb, Result, ok, err, http,
  if◌then◌else◌,
}

pub data Phase : Type 0 where
  pending running succeeded failed unknown : Phase

pub record JobStatus : Type 0 where
  pub phase : Phase
  pub logs_tarball : Text
  pub reason : Option Text

-- The bodies that the repository sends: bytes (a job name or the detail of an error), the list of
-- names that answers a resync, and `JobStatus.model_dump()`.
pub data Data : Type 0 where
  bytes : Text → Data
  names : List Text → Data
  status : JobStatus → Data

pub record NatsResponse : Type 0 where
  pub status_code : ℕ
  pub data_ : Data

-- `str(self.data)` is the printed form of the body, which nothing inspects: `print` stands for it.
unfoldable pub raise_for_status : (Data → Text) → NatsResponse → Result (Unit {0})
raise_for_status print r =
    if ltb r.status_code 200 || leb 300 r.status_code
    then err (http r.status_code (print r.data_))
    else ok tt

-- A response raises exactly when its code is not 2xx, and the exception carries that code and the
-- printed body.
pub raise_for_status_2xx :
    (print : Data → Text) (r : NatsResponse)
    → (raise_for_status print r ≡ ok tt) ↔ ((200 ≤ r.status_code) × (r.status_code < 300))
unfolding raise_for_status
raise_for_status_2xx print r = (λ h. ground arith, λ h. ground arith)

pub raise_for_status_error :
    (print : Data → Text) (r : NatsResponse) (c : ℕ) (d : Text)
    → raise_for_status print r ≡ err (http c d)
    → (c ≡ r.status_code) × (d ≡ print r.data_)
unfolding raise_for_status
raise_for_status_error print r c d h = ground arith
