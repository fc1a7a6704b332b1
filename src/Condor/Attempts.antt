-- ===== src/Condor/Attempts.antt =====
-- What the repeated attempts of natsprovider/condor/CondorConfiguration.py come to.
use interlink_condorce_plugi.Prelude.{
  ℕ, zero, suc, ◌+◌, ◌-◌, ◌≤◌, ◌<◌, ◌≡◌, ◌≢◌, ◌⊎◌, inl, inr, refl, ap, ◌∙◌, subst, List, [], ◌∷◌,
  some, Bool, true, false, Result, Error, ok, err, ◌>>=◌, Result-cases, htcondor_io_error, http,
  attribute_error, key_error, type_error, value_error, unbound_local, index_error, not_implemented,
  htcondor_exception, called_process_error, arith,
}
use native.Mathlib.Nat.{zero-add}
use interlink_condorce_plugi.Action.{Action, lift, continue}
use interlink_condorce_plugi.Condor.{
  CondorJob, status_of_code, is_io_error, retry, after_attempt, condor_attempts,
}
use interlink_condorce_plugi.Condor.Schedd.{
  get_schedd, Remote, last_job, asked, query_by_name, status_by_name,
}

module _ {S A : Type 0} (catches : Error → Bool) (attempt : ℕ → Action S A) (s : S) where
  -- the attempt fails, in a way that is caught
  abbrev pub Fails : ℕ → Type 0
  Fails i = (e : Error) × (attempt i s ≡ (err e, s)) × (catches e ≡ true)

  retry-Fails :
      (m i : ℕ) → Fails i → retry catches attempt (suc m) i s ≡ retry catches attempt m (i + 1) s
  unfolding retry after_attempt
  retry-Fails m i (e, failed, caught) = rw (failed, caught) refl

  retry_skips :
      (n m i : ℕ)
      → ((j : ℕ) → i ≤ j → j < i + n → Fails j)
      → retry catches attempt (n + m) i s ≡ retry catches attempt m (i + n) s
  retry_skips zero m i h =
      let same : i + 0 ≡ i = omega arith in
      let same' : 0 + m ≡ m = omega arith in rw (same, same') refl
  retry_skips (suc n) m i h =
      let same : suc n + m ≡ suc (n + m) = omega arith in
      let next : i + 1 + n ≡ i + suc n = omega arith in
      ap (λ k. retry catches attempt k i s) same
      ∙ retry-Fails (n + m) i (h i (omega arith) (omega arith))
      ∙ retry_skips n m (i + 1) (λ j lo hi. h j (omega arith) (omega arith))
      ∙ ap (λ k. retry catches attempt m k s) next

  retry_ends :
      (m i : ℕ) (r : Result A)
      → attempt i s ≡ (r, s)
      → (m ≡ 0) ⊎ ((e : Error) → r ≡ err e → catches e ≡ false)
      → retry catches attempt m i s ≡ (r, s)
  unfolding retry after_attempt
  retry_ends zero i r h last = h
  retry_ends (suc m) i r h (inl impossible) = absurd (omega arith)
  retry_ends (suc m) i (ok a) h (inr uncaught) = rw h refl
  retry_ends (suc m) i (err e) h (inr uncaught) = rw (h, uncaught e refl) refl

is_io_error_other : (e : Error) → e ≢ htcondor_io_error → is_io_error e ≡ false
unfolding is_io_error
is_io_error_other (http n t) h = refl
is_io_error_other attribute_error h = refl
is_io_error_other key_error h = refl
is_io_error_other type_error h = refl
is_io_error_other value_error h = refl
is_io_error_other unbound_local h = refl
is_io_error_other index_error h = refl
is_io_error_other not_implemented h = refl
is_io_error_other htcondor_io_error h = absurd (h refl)
is_io_error_other htcondor_exception h = refl
is_io_error_other called_process_error h = refl

module _ {S : Type 0} (remote : Remote S) (d : S) where
  -- an attempt with a known schedd
  asked_known :
      {A : Type 0} (use_jobs : List CondorJob → Result A) (i : ℕ)
      → remote.token i ≡ ok tt
      → asked remote use_jobs i (some d) ≡ (remote.query i d >>= use_jobs, some d)
  unfolding asked get_schedd interlink_condorce_plugi.Action.◌>>=◌ lift
  asked_known use_jobs i h = elim (Result-cases (remote.query i d)) [
    | inl (js, e) ↦ rw (h, e) refl
    | inr (x, e) ↦ rw (h, e) refl
  ]

  last_job_uncaught :
      (js : List CondorJob) (e : Error) → last_job js ≡ err e → is_io_error e ≡ false
  unfolding last_job is_io_error
  last_job_uncaught [] e h =
      let same : htcondor_exception ≡ e = cc in subst (λ x. is_io_error x ≡ false) same refl
  last_job_uncaught (j ∷ []) e h = cc
  last_job_uncaught (j ∷ k ∷ js) e h = last_job_uncaught (k ∷ js) e h

  abbrev raised : Error → Result (List CondorJob)
  raised e = err e

  answer_uncaught :
      (r : Result (List CondorJob))
      → r ≢ err htcondor_io_error
      → (e : Error) → (r >>= last_job) ≡ err e
      → is_io_error e ≡ false
  answer_uncaught (err x) other e h =
      let same : x ≡ e = cc in is_io_error_other e (λ io. other (ap raised (same ∙ io)))
  answer_uncaught (ok js) other e h = last_job_uncaught js e h

  query_by_name-answer :
      (n : ℕ)
      → ((j : ℕ) → j ≤ n → remote.token j ≡ ok tt)
      → ((j : ℕ) → j < n → remote.query j d ≡ err htcondor_io_error)
      → n ≤ condor_attempts
      → (n ≡ condor_attempts) ⊎ (remote.query n d ≢ err htcondor_io_error)
      → query_by_name remote (some d) ≡ (remote.query n d >>= last_job, some d)
  query_by_name-answer n tokens fails le last =
      let skipped = retry_skips is_io_error (asked remote last_job) (some d) n (3 - n) 0 (λ j lo hi.
        (
          htcondor_io_error,
          asked_known last_job j (tokens j (omega arith))
              ∙ ap (λ (r : Result (List CondorJob)). (r >>= last_job, some d))
                  (fails j (omega arith)),
          unfold is_io_error in refl,
        )) in
      let at_n : asked remote last_job (0 + n) (some d) ≡ (remote.query n d >>= last_job, some d) =
        rw zero-add (asked_known last_job n (tokens n (omega arith))) in
      let ends : (3 - n ≡ 0)
          ⊎ ((e : Error) → (remote.query n d >>= last_job) ≡ err e → is_io_error e ≡ false) =
        elim last [
          | inl fourth ↦ inl (omega arith)
          | inr other ↦ inr (answer_uncaught (remote.query n d) other)
        ] in
      let all : 3 ≡ n + (3 - n) = omega arith in
      unfold query_by_name in
      ap (λ k. retry is_io_error (asked remote last_job) k 0 (some d)) all
      ∙ skipped
      ∙ retry_ends is_io_error (asked remote last_job) (some d) (3 - n) (0 + n)
          (remote.query n d >>= last_job) at_n ends

  status_of_answer :
      (r : Result (List CondorJob))
      → continue (r >>= last_job) (λ (j : CondorJob). lift (status_of_code j.job_status)) (some d)
        ≡ (do js ← r; j ← last_job js; status_of_code j.job_status, some d)
  unfolding lift
  status_of_answer (err e) = refl
  status_of_answer (ok js) = of_job (last_job js)
    where
      of_job :
          (r : Result CondorJob)
          → continue r (λ (j : CondorJob). lift (status_of_code j.job_status)) (some d)
            ≡ (do j ← r; status_of_code j.job_status, some d)
      of_job (err e) = refl
      of_job (ok j) = refl

  -- Once the schedd is known and as long as there is a token, if the attempts before `n`, three at
  -- most, end in an I/O error of HTCondor, and the attempt `n` does not, or is the fourth, then the
  -- status by the name of a job is that of the last job that the attempt `n` lists, or what it raised.
  pub status_by_name-answer :
      (n : ℕ)
      → ((j : ℕ) → j ≤ n → remote.token j ≡ ok tt)
      → ((j : ℕ) → j < n → remote.query j d ≡ err htcondor_io_error)
      → n ≤ condor_attempts
      → (n ≡ condor_attempts) ⊎ (remote.query n d ≢ err htcondor_io_error)
      → status_by_name remote (some d)
        ≡ (do js ← remote.query n d; j ← last_job js; status_of_code j.job_status, some d)
  unfolding status_by_name interlink_condorce_plugi.Action.◌>>=◌
  status_by_name-answer n tokens fails le last =
      rw (query_by_name-answer n tokens fails le last) (status_of_answer (remote.query n d))
