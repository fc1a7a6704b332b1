-- ===== src/Slurm/Cache.antt =====
-- What `_retrieve_job_status` of natsprovider/slurmprovider/SlurmProvider.py finds in its cache and in
-- the table that sacct prints.
use interlink_condorce_plugi.Prelude.{
  ℕ, zero, suc, ◌+◌, ◌≤◌, ◌≡◌, refl, ap, sym, ◌∙◌, inl, inr, Text, List, [], ◌∷◌, ◌++◌, Option,
  none, some, Bool, true, false, arith, ltb, HasNone, HasNone-append, All, split_at,
  split_at-append, split_at_none, contains, Result, ok, err, or_else, Bool-cases, Result-cases,
  nat_eq, list_eq, ◌==◌, if◌then◌else◌,
}
use mathlib.Core.List.{append_assoc}
use interlink_condorce_plugi.Prelude.Dicts.{Dict, get, has, put, merge, get-put}
use interlink_condorce_plugi.Slurm.{Squeue, processing, at}
use interlink_condorce_plugi.Slurm.Sacct.{
  is_processing, wait, is_old, is_miss, pair_of, store_lines, query, answer_of, after_wait,
  retrieve_job_status,
}

-- the text that sacct prints for the rows of its table
unfoldable pub print_table : List (Text × Text) → Text
print_table [] = []
print_table ((job, status) ∷ rows) = job ++ (b'|' ∷ (status ++ (b'\n' ∷ print_table rows)))

-- neither column holds a bar or the end of a line
abbrev pub IsRow : Text × Text → Type 0
IsRow r = HasNone b'|' r.0 × HasNone b'\n' r.0 × HasNone b'|' r.1 × HasNone b'\n' r.1

-- the status of the last row that names the job
unfoldable pub last_row : List (Text × Text) → Text → Option Text
last_row [] j = none
last_row ((job, status) ∷ rows) j =
    or_else (last_row rows j) (if job == j then some status else none)

get-merge :
    (rows d : Dict Text Text) (j : Text)
    → get (merge d rows) j ≡ or_else (last_row rows j) (get d j)
unfolding merge last_row
get-merge [] d j = refl
get-merge ((job, status) ∷ rows) d j =
    let later = get-merge rows (put d job status) j in
    later ∙ (rw (get-put d job j status) (fall_back (last_row rows j) (job == j)))
  where
    fall_back :
        (o : Option Text) (b : Bool)
        → or_else o (if b then some status else get d j)
          ≡ or_else (or_else o (if b then some status else none)) (get d j)
    fall_back (some v) b = refl
    fall_back none true = refl
    fall_back none false = refl

has_bar : (job status : Text) → contains (job ++ (b'|' ∷ status)) b'|' ≡ true
unfolding contains
has_bar [] status = refl
has_bar (c ∷ job) status = ground (arith, has_bar job status)

store_row :
    (job status : Text) (ls : List Text) (d : Dict Text Text)
    → HasNone b'|' job
    → HasNone b'|' status
    → store_lines ((job ++ (b'|' ∷ status)) ∷ ls) d ≡ store_lines ls (put d job status)
unfolding store_lines pair_of
store_row job status ls d hj hs =
    rw (has_bar job status, store_lines)
      (rw (split_at-append b'|' job status hj, split_at_none b'|' status hs, store_lines) refl)

-- the first line of the table
first_line :
    (job status rest : Text)
    → HasNone b'\n' job
    → HasNone b'\n' status
    → split_at b'\n' (job ++ (b'|' ∷ (status ++ (b'\n' ∷ rest))))
      ≡ (job ++ (b'|' ∷ status)) ∷ split_at b'\n' rest
first_line job status rest hj hs =
    ap (split_at b'\n') (sym (append_assoc job (b'|' ∷ status) (b'\n' ∷ rest)))
    ∙ split_at-append b'\n' (job ++ (b'|' ∷ status)) rest
        (HasNone-append b'\n' job (b'|' ∷ status) hj (omega arith, hs))

store_lines-print_table :
    (rows : List (Text × Text)) (d : Dict Text Text)
    → All IsRow rows
    → store_lines (split_at b'\n' (print_table rows)) d ≡ (ok tt, merge d rows)
unfolding print_table merge
store_lines-print_table [] d h = unfold store_lines split_at contains in refl
store_lines-print_table ((job, status) ∷ rows) d h =
    ap (λ ls. store_lines ls d) (first_line job status (print_table rows) h.0.1 h.0.3)
    ∙ store_row job status (split_at b'\n' (print_table rows)) d h.0.0 h.0.2
    ∙ store_lines-print_table rows (put d job status) h.1

module _ (others : ℕ → Squeue → Squeue) (now done : ℕ) (sacct : Result Text) (job : Text) where
  wait_idle :
      (n i : ℕ) (s : Squeue) → is_processing s.cached_squeue_time ≡ false → wait others n i s ≡ s
  unfolding wait
  wait_idle zero i s h = refl
  wait_idle (suc n) i s h = rw h

  -- If no query is under way, the last one ended at most ten seconds ago and the cache has a status
  -- for the job, the method returns that status and changes nothing, whatever sacct would say.
  pub retrieve_job_status-fresh :
      (s : Squeue) (t : ℕ) (status : Text)
      → s.cached_squeue_time ≡ at t
      → now ≤ t + 10_000_000
      → get s.cached_squeue job ≡ some status
      → retrieve_job_status others now done sacct job s ≡ (ok (some status), s)
  unfolding retrieve_job_status after_wait is_miss answer_of has is_processing is_old
  retrieve_job_status-fresh s t status ht recent hit =
      let idle : is_processing s.cached_squeue_time ≡ false = rw ht in
      let fresh : ltb (t + 10_000_000) now ≡ false = ground arith in
      rw (wait_idle 50 0 s idle, after_wait) (simp (ht, hit, fresh))

  -- whatever sacct does
  query-settles : (s : Squeue) → (query done sacct s).1.cached_squeue_time ≡ at done
  unfolding query
  query-settles s = elim (Result-cases sacct) [ inl (stdout, e) ↦ rw e | inr (e', e) ↦ rw e ]

  answer_of-state : (r : Result (Unit {0}) × Squeue) → (answer_of job r).1 ≡ r.1
  unfolding answer_of
  answer_of-state (ok u, s) = refl
  answer_of-state (err e, s) = refl

-- If no query is under way, and the last one ended more than ten seconds ago or never, or the cache
-- has no status for the job, and sacct prints a table, no column of which holds a bar or an end of
-- line, then the method returns the status of the last row that names the job, or what the cache had
-- for it if none does; all rows are stored, and nothing is removed from the cache.
pub retrieve_job_status-table :
    (others : ℕ → Squeue → Squeue) (now done : ℕ) (rows : List (Text × Text)) (job : Text)
    (s : Squeue)
    → is_miss now job s ≡ true
    → All IsRow rows
    → retrieve_job_status others now done (ok (print_table rows)) job s ≡ (
      ok (or_else (last_row rows job) (get s.cached_squeue job)),
      record { cached_squeue = merge s.cached_squeue rows; cached_squeue_time = at done },
    )
unfolding retrieve_job_status after_wait query answer_of
retrieve_job_status-table others now done rows job s miss h =
    let idle : is_processing s.cached_squeue_time ≡ false = unfold is_miss in ground arith in
    rw
      (
        wait_idle others now done (ok []) job 50 0 s idle,
        miss,
        store_lines-print_table rows s.cached_squeue h,
      )
      (ap
        (λ (o : Option Text). (
          ok o,
          record { cached_squeue = merge s.cached_squeue rows; cached_squeue_time = at done },
        ))
        (get-merge rows s.cached_squeue job))

-- A query that the method makes is over when the method returns or raises, whatever sacct does: the
-- cache is marked as being queried then only if it still was when the method had stopped waiting.
retrieve_job_status-settles :
    (others : ℕ → Squeue → Squeue) (now done : ℕ) (sacct : Result Text) (job : Text) (s : Squeue)
    → (retrieve_job_status others now done sacct job s).1.cached_squeue_time ≡ processing
    → (wait others 50 0 s).cached_squeue_time ≡ processing
unfolding retrieve_job_status after_wait
retrieve_job_status-settles others now done sacct job s h =
    let w : Squeue = wait others 50 0 s in
    elim (Bool-cases (is_miss now job w)) [
      | inl miss ↦
          let settled : (after_wait now done sacct job w).1.cached_squeue_time ≡ at done = rw miss (
            ap (λ (q : Squeue). q.cached_squeue_time)
              (answer_of-state others now done sacct job (query done sacct w))
            ∙ query-settles others now done sacct job w) in
          cc
      | inr hit ↦
          let kept : (after_wait now done sacct job w).1.cached_squeue_time ≡ w.cached_squeue_time =
            rw hit (
              ap (λ (q : Squeue). q.cached_squeue_time)
                (answer_of-state others now done sacct job (ok tt, w))) in
          sym kept ∙ h
    ]
