-- ===== src/Slurm/LogLoop.antt =====
-- The loop in which `get_pod_status_and_logs` of natsprovider/slurmprovider/SlurmProvider.py waits for
-- the file of the logs of a completed job.
use interlink_condorce_plugi.Prelude.{
  ℕ, zero, suc, ◌+◌, ◌-◌, ◌≤◌, ◌<◌, ◌≡◌, ◌≢◌, refl, inl, inr, ◌⊎◌, Text, [], ◌∷◌, Option, none,
  some, arith,
}
use native.Mathlib.Nat.{zero-add}
use interlink_condorce_plugi.Utils.Responses.{JobStatus, succeeded, failed}
use interlink_condorce_plugi.Slurm.Status.{
  Read, contents, missing, log_loop, job_status, Verdict, report, read_logs, verdict, conclude,
  get_pod_status_and_logs,
}

pub Read-cases :
    (r : Read)
    → (r ≡ contents [])
      ⊎ ((b : ℕ) × (bytes : Text) × (r ≡ contents (b ∷ bytes)))
      ⊎ ((e : Text) × (r ≡ missing e))
Read-cases (contents []) = inl refl
Read-cases (contents (b ∷ bytes)) = inr (inl (b, bytes, refl))
Read-cases (missing e) = inr (inr (e, refl))

module _ (reads : ℕ → Read) where
  log_loop-returns :
      (k m i r : ℕ)
      → ((j : ℕ) → k ≤ j → reads j ≢ contents [])
      → (k - i) + r < m
      → (s : JobStatus) × (log_loop reads m i r ≡ some s)
  unfolding log_loop
  log_loop-returns k zero i r h lt = absurd (omega arith)
  log_loop-returns k (suc m) i zero h lt = elim (Read-cases (reads i)) [
    | inl e ↦
        let early : i < k = grind (arith, h i) in
        rw (e, log_loop) (log_loop-returns k m (i + 1) zero h (omega arith))
    | inr (inl (b, bytes, e)) ↦ (job_status succeeded (b ∷ bytes) none, rw (e, log_loop))
    | inr (inr (reason, e)) ↦ (job_status failed [] (some reason), rw (e, log_loop))
  ]
  log_loop-returns k (suc m) i (suc r) h lt = elim (Read-cases (reads i)) [
    | inl e ↦
        let early : i < k = grind (arith, h i) in
        rw (e, log_loop) (log_loop-returns k m (i + 1) (suc r) h (omega arith))
    | inr (inl (b, bytes, e)) ↦ (job_status succeeded (b ∷ bytes) none, rw (e, log_loop))
    | inr (inr (reason, e)) ↦ rw (e, log_loop) (log_loop-returns k m (i + 1) r h (omega arith))
  ]

  log_loop-empty : (m i r : ℕ) → ((j : ℕ) → reads j ≡ contents []) → log_loop reads m i r ≡ none
  unfolding log_loop
  log_loop-empty zero i r h = refl
  log_loop-empty (suc m) i r h = rw (h i, log_loop) (log_loop-empty m (i + 1) r h)

  at_start : (i : ℕ) {r : Read} → reads (i + 0) ≡ r → reads i ≡ r
  at_start i h = let same : i + 0 ≡ i = omega arith in rw same at h

  shifted : (i j : ℕ) {r : Read} → reads (i + suc j) ≡ r → reads (i + 1 + j) ≡ r
  shifted i j h = let same : i + suc j ≡ i + 1 + j = omega arith in rw same at h

  log_loop-found :
      (n m i r b : ℕ) (bytes : Text)
      → ((j : ℕ) → j < n → (e : Text) × (reads (i + j) ≡ missing e))
      → reads (i + n) ≡ contents (b ∷ bytes)
      → n ≤ r
      → n < m
      → log_loop reads m i r ≡ some (job_status succeeded (b ∷ bytes) none)
  unfolding log_loop
  log_loop-found n zero i r b bytes h e le lt = absurd (omega arith)
  log_loop-found zero (suc m) i r b bytes h e le lt = rw (at_start i e, log_loop)
  log_loop-found (suc n) (suc m) i zero b bytes h e le lt = absurd (omega arith)
  log_loop-found (suc n) (suc m) i (suc r) b bytes h e le lt =
      rw (at_start i (h 0 (omega arith)).1, log_loop)
        (log_loop-found n m (i + 1) r b bytes
          (λ j lt'. let (x, p) = h (suc j) (omega arith) in (x, shifted i j p)) (shifted i n e)
          (omega arith) (omega arith))

  log_loop-gives_up :
      (r m i : ℕ) (e : Text)
      → ((j : ℕ) → j < r → (e : Text) × (reads (i + j) ≡ missing e))
      → reads (i + r) ≡ missing e
      → r < m
      → log_loop reads m i r ≡ some (job_status failed [] (some e))
  unfolding log_loop
  log_loop-gives_up r zero i e h last lt = absurd (omega arith)
  log_loop-gives_up zero (suc m) i e h last lt = rw (at_start i last, log_loop)
  log_loop-gives_up (suc r) (suc m) i e h last lt =
      rw (at_start i (h 0 (omega arith)).1, log_loop)
        (log_loop-gives_up r m (i + 1) e
          (λ j lt'. let (x, p) = h (suc j) (omega arith) in (x, shifted i j p)) (shifted i r last)
          (omega arith))

-- If the file of the logs is not empty from the attempt `k` on, the method returns a status within
-- `k + 6` attempts, whatever sacct has answered.
pub get_pod_status_and_logs-returns :
    (reads : ℕ → Read) (k : ℕ) (status : Option Text)
    → ((j : ℕ) → k ≤ j → reads j ≢ contents [])
    → (s : JobStatus) × (get_pod_status_and_logs reads (k + 6) status ≡ some s)
unfolding get_pod_status_and_logs
get_pod_status_and_logs-returns reads k status h = ends (verdict status)
  where
    ends : (v : Verdict) → (s : JobStatus) × (conclude reads (k + 6) v ≡ some s)
    ends (report s) = (s, refl)
    ends read_logs = log_loop-returns reads k (k + 6) 0 5 h (omega arith)

-- If the file of the logs is empty at every attempt, the method never returns a status for a job
-- whose logs it reads: no number of attempts is enough.
pub get_pod_status_and_logs-hangs :
    (reads : ℕ → Read) (fuel : ℕ) (status : Option Text)
    → verdict status ≡ read_logs
    → ((j : ℕ) → reads j ≡ contents [])
    → get_pod_status_and_logs reads fuel status ≡ none
unfolding get_pod_status_and_logs
get_pod_status_and_logs-hangs reads fuel status e h =
    rw (e, log_loop) (log_loop-empty reads fuel 0 5 h)

-- what the last attempt says of the job
abbrev pub last_word : Read → JobStatus
last_word (contents bytes) = job_status succeeded bytes none
last_word (missing e) = job_status failed [] (some e)

-- the attempt `n`, counted from zero, is the last one: the file has contents, or it is the sixth
-- that does not find it
abbrev pub IsLast : ℕ → Read → Type 0
IsLast n (contents []) = ⊥
IsLast n (contents (b ∷ bytes)) = n ≤ 5
IsLast n (missing e) = n ≡ 5

log_loop-last :
    (reads : ℕ → Read) (n : ℕ) (r : Read)
    → ((j : ℕ) → j < n → (e : Text) × (reads j ≡ missing e))
    → reads n ≡ r
    → IsLast n r
    → log_loop reads 6 0 5 ≡ some (last_word r)
log_loop-last reads n (contents []) h e last = absurd last
log_loop-last reads n (contents (b ∷ bytes)) h e last =
    log_loop-found reads n 6 0 5 b bytes (λ j lt. from_zero j (h j lt)) (rw zero-add e) last
      (omega arith)
  where
    from_zero :
        (j : ℕ) → (e : Text) × (reads j ≡ missing e) → (e : Text) × (reads (0 + j) ≡ missing e)
    from_zero j p = rw zero-add p
log_loop-last reads n (missing e') h e last =
    log_loop-gives_up reads 5 6 0 e' (λ j lt. from_zero j (h j (omega arith))) (rw last at e)
      (omega arith)
  where
    from_zero :
        (j : ℕ) → (e : Text) × (reads j ≡ missing e) → (e : Text) × (reads (0 + j) ≡ missing e)
    from_zero j p = rw zero-add p

-- For a job whose logs are read, if the attempts before `n` find no file, and the attempt `n` is the
-- sixth that finds none or one of the first six and finds the file with contents, then the job has
-- failed for the reason of that attempt, or has succeeded with these contents.
pub get_pod_status_and_logs-attempts :
    (reads : ℕ → Read) (n : ℕ) (status : Option Text)
    → verdict status ≡ read_logs
    → ((j : ℕ) → j < n → (e : Text) × (reads j ≡ missing e))
    → IsLast n (reads n)
    → get_pod_status_and_logs reads 6 status ≡ some (last_word (reads n))
unfolding get_pod_status_and_logs
get_pod_status_and_logs-attempts reads n status v h last =
    rw v (log_loop-last reads n (reads n) h refl last)
