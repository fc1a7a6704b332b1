-- ===== src/Gateway/Polling.antt =====
-- The attempts of `get_pod_status` of natsprovider/NatsGateway.py to get a status.
use interlink_condorce_plugi.Prelude.{
  ℕ, zero, suc, ◌+◌, ◌<◌, ◌≤◌, ◌≡◌, nat_beq, nat_beq_iff, subst, ◌≢◌, ◌∙◌, Bool-cases, refl, sym,
  ap, Text, codes, List, Option, none, some, true, false, arith, nat_eq, list_eq, Result, ok, err,
  attribute_error, Result-cases, inl, inr, ◌⊎◌,
}
use interlink_condorce_plugi.Utils.Responses.{Data, bytes, NatsResponse}
use interlink_condorce_plugi.Interlink.{PodRequest}
use interlink_condorce_plugi.Subjects.{subject}
use interlink_condorce_plugi.Provider.Resync.{Outcome, response, timeout, no_responders}
use interlink_condorce_plugi.Action.{◌>>=◌, continue, lift, gets}
use interlink_condorce_plugi.Apptainer.Logs.{Builder}
use interlink_condorce_plugi.Gateway.{Gateway, jobid, retrieve_pool_from_tolerations}
use interlink_condorce_plugi.Gateway.Status.{got, poll, is_retriable, after_outcome, after_response}
use interlink_condorce_plugi.Gateway.PodStatus.{cached, get_pod_status, answer, fetch}

-- attempt number `k` got a response that is retried
abbrev pub IsRetried : (ℕ → Outcome) → ℕ → Type 0
IsRetried send k = (q : NatsResponse) × (send k ≡ response q) × (is_retriable q ≡ ok true)

-- attempt number `k` is the one whose response `r` is used: it is not retried, or it is the last
abbrev pub IsUsed : (ℕ → Outcome) → (last k : ℕ) → NatsResponse → Type 0
IsUsed send last k r =
    (send k ≡ response r)
    × ((is_retriable r ≡ ok false) ⊎ ((is_retriable r ≡ ok true) × (k ≡ last)))

Outcome-cases :
    (o : Outcome) → ((r : NatsResponse) × (o ≡ response r)) ⊎ ((o ≡ timeout) ⊎ (o ≡ no_responders))
Outcome-cases (response r) = inl (r, refl)
Outcome-cases timeout = inr (inl refl)
Outcome-cases no_responders = inr (inr refl)

got-injective : {q r : NatsResponse} → ok (got q) ≡ ok (got r) → q ≡ r
got-injective h = cc

module _ (send : ℕ → Outcome) where
  end_cases :
      (i : ℕ)
      → IsRetried send i
        ⊎ (((q : NatsResponse) × (send i ≡ response q) × (is_retriable q ≡ ok false))
            ⊎ ((left : ℕ) (last : Option NatsResponse) (r : NatsResponse)
                → poll (suc left) send i last ≢ ok (got r)))
  unfolding poll after_outcome after_response
  end_cases i = elim (Outcome-cases (send i)) [
    | inr (inl hs) ↦ inr (inr (λ left last r h. cc))
    | inr (inr hs) ↦ inr (inr (λ left last r h. cc))
    | inl (q, hs) ↦ elim (Result-cases (is_retriable q)) [
      | inr (e, hr) ↦ inr (inr (λ left last r h. cc))
      | inl (b, hr) ↦ elim (Bool-cases b) [
        | inl hb ↦ inl (q, hs, hr ∙ ap ok hb)
        | inr hb ↦ inr (inl (q, hs, hr ∙ ap ok hb))
      ]
    ]
  ]

  poll-after-retried :
      (left i : ℕ) (last : Option NatsResponse)
      → (retried : IsRetried send i)
      → poll (suc left) send i last ≡ poll left send (suc i) (some retried.0)
  unfolding poll after_outcome after_response
  poll-after-retried left i last (q, hs, hr) = rw (hs, hr)

  poll-after-used :
      (left i : ℕ) (last : Option NatsResponse) (q : NatsResponse)
      → send i ≡ response q
      → is_retriable q ≡ ok false
      → poll (suc left) send i last ≡ ok (got q)
  unfolding poll after_outcome after_response
  poll-after-used left i last q hs hr = rw (hs, hr)

  -- the attempts from number `i` on end with attempt number `k`
  abbrev pub Ends : (last i : ℕ) → NatsResponse → Type 0
  Ends last i r =
      (k : ℕ) × (i ≤ k)
      × (k ≤ last)
      × IsUsed send last k r
      × ((j : ℕ) → i ≤ j → j < k → IsRetried send j)

  Ends-now : (last i : ℕ) (r : NatsResponse) → i ≤ last → IsUsed send last i r → Ends last i r
  Ends-now last i r h used = (i, omega arith, h, used, λ j hj hk. absurd (omega arith))

  Ends-later :
      (last i : ℕ) (r : NatsResponse) → IsRetried send i → Ends last (suc i) r → Ends last i r
  Ends-later last i r retried (k, hi, hk, used, before) = (
    k,
    omega arith,
    hk,
    used,
    λ j hj hk'. elim (Bool-cases (nat_beq j i)) [
      | inl e ↦ subst (IsRetried send) (sym ((nat_beq_iff j i).0 e)) retried
      | inr ne ↦ before j (ground (arith, nat_beq_iff j i)) hk'
    ],
  )

  poll-Ends-used :
      (left i n : ℕ) (last : Option NatsResponse) (q r : NatsResponse)
      → i ≤ n
      → send i ≡ response q
      → is_retriable q ≡ ok false
      → poll (suc left) send i last ≡ ok (got r)
      → Ends n i r
  poll-Ends-used left i n last q r hn hs hr h =
      let same : q ≡ r = got-injective (sym (poll-after-used left i last q hs hr) ∙ h) in
      subst (Ends n i) same (Ends-now n i q hn (hs, inl hr))

  poll-Ends :
      (left i n : ℕ) (last : Option NatsResponse) (r : NatsResponse)
      → n ≡ left + i
      → poll (suc left) send i last ≡ ok (got r)
      → Ends n i r
  unfolding poll
  poll-Ends zero i n last r hn h = elim (end_cases i) [
    | inr (inr never) ↦ absurd (never zero last r h)
    | inr (inl (q, hs, hr)) ↦ poll-Ends-used zero i n last q r (omega arith) hs hr h
    | inl (q, hs, hr) ↦
        let same : q ≡ r = got-injective (sym (poll-after-retried zero i last (q, hs, hr)) ∙ h) in
        let now : i ≡ n = omega arith in
        subst (Ends n i) same (Ends-now n i q (omega arith) (hs, inr (hr, now)))
  ]
  poll-Ends (suc left) i n last r hn h = elim (end_cases i) [
    | inr (inr never) ↦ absurd (never (suc left) last r h)
    | inr (inl (q, hs, hr)) ↦ poll-Ends-used (suc left) i n last q r (omega arith) hs hr h
    | inl retried ↦ Ends-later n i r retried (
        poll-Ends left (suc i) n (some retried.0) r (omega arith)
          (sym (poll-after-retried (suc left) i last retried) ∙ h))
  ]

-- If the attempts to get a status, at least one, end with a response, it is that of one attempt:
-- every attempt before it got a response with an unknown phase or the code 404 or 500, and the
-- response itself has neither, or it is that of the last attempt.
pub poll_answer :
    (n : ℕ) (send : ℕ → Outcome) (r : NatsResponse)
    → poll (suc n) send 0 none ≡ ok (got r)
    → (k : ℕ) × (k ≤ n)
      × (send k ≡ response r)
      × ((is_retriable r ≡ ok false) ⊎ ((is_retriable r ≡ ok true) × (k ≡ n)))
      × ((j : ℕ) → j < k → (q : NatsResponse) × (send j ≡ response q) × (is_retriable q ≡ ok true))
poll_answer n send r h =
    let (k, _, hk, (hs, hr), before) = poll-Ends send n 0 n none r (omega arith) h in
    (k, hk, hs, hr, λ j hj. before j (omega arith) hj)

-- If the job name and the pool of a pod are known and nothing is cached for the job, an answer to
-- the first attempt whose body is bytes, as every error answer of a provider has, ends
-- `get_pod_status` with AttributeError, whatever its status code, so 404 and 500 are not retried.
pub get_pod_status_bytes :
    (untar : Text → List (Text × Text)) (builder : PodRequest → Result Builder)
    (print : Data → Text) (n : ℕ) (send : ℕ → Text → Outcome) (pod : PodRequest) (id pool : Text)
    (code : ℕ) (detail : Text) (g : Gateway)
    → jobid pod ≡ ok id
    → retrieve_pool_from_tolerations pod.tolerations ≡ ok pool
    → cached id g ≡ none
    → send 0 (subject g.nats_subject (codes "status") id)
      ≡ response (record { status_code = code; data_ = bytes detail })
    → get_pod_status untar builder print (suc n) send pod g ≡ (err attribute_error, g)
unfolding get_pod_status answer ◌>>=◌ lift gets fetch poll after_outcome after_response is_retriable
get_pod_status_bytes untar builder print n send pod id pool code detail g hi hp hc hs =
    rw (hi, continue, hp, continue, hc, answer, hs, continue)
