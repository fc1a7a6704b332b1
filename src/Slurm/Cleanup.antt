-- ===== src/Slurm/Cleanup.antt =====
-- What `delete_pod` of natsprovider/slurmprovider/SlurmProvider.py leaves behind.
use interlink_condorce_plugi.Prelude.{
  ◌≡◌, ◌≢◌, ◌⊎◌, inl, inr, refl, ap, ◌∙◌, Text, List, [], ◌∷◌, ◌++◌, map, All, Error, ok,
}
use mathlib.Core.List.{append_assoc, append-nil}
use interlink_condorce_plugi.Prelude.Format.{words}
use interlink_condorce_plugi.Action.{pure, ◌>>=◌}
use interlink_condorce_plugi.BuildConfig.{BuildConfig}
use interlink_condorce_plugi.Slurm.Submission.{run, remove_tree, Trace, make_call, slash}
use interlink_condorce_plugi.Slurm.Delete.{
  Ran, printed, exit_code, failed, Commands, squeue_command, scancel_command, run_command,
  cancel_all, cancel_listed, delete_pod,
}

-- the call ends, with exit code zero or another one
abbrev pub Ends : Ran → Type 0
Ends r = (e : Error) → r ≢ failed e

-- the jobs that squeue has listed
unfoldable pub listed : Ran → List Text
unfolding words
listed (printed stdout) = words stdout
listed _ = []

Ran-cases :
    (r : Ran) → ((t : Text) × (r ≡ printed t)) ⊎ (r ≡ exit_code) ⊎ ((e : Error) × (r ≡ failed e))
Ran-cases (printed t) = inl (t, refl)
Ran-cases exit_code = inr (inl refl)
Ran-cases (failed e) = inr (inr (e, refl))

module _ (commands : Commands) where
  -- the calls for some of the jobs, in order
  abbrev pub cancellations : List Text → Trace
  cancellations done = map (λ id. run (scancel_command id)) done

  abbrev pub Cancelled : Text → Type 0
  Cancelled id = (t : Text) × (commands.scancel (scancel_command id) ≡ printed t)

  -- The jobs `done` of a list are asked for and `rest` is not: all are, and scancel succeeds for each,
  -- or the last of them is the first for which scancel exits with an error.
  abbrev pub StopsAt : (done rest : List Text) → Type 0
  StopsAt done rest =
      (All Cancelled done × (rest ≡ []))
      ⊎ ((before : List Text) × (id : Text) × (done ≡ before ++ id ∷ [])
          × All Cancelled before
          × (commands.scancel (scancel_command id) ≡ exit_code))

  one_more :
      (id : Text) (done rest : List Text)
      → Cancelled id
      → StopsAt done rest
      → StopsAt (id ∷ done) rest
  one_more id done rest cancelled (inl (all, none_left)) = inl ((cancelled, all), none_left)
  one_more id done rest cancelled (inr (before, last, e, all, stopped)) =
      inr (id ∷ before, last, ap (λ l. id ∷ l) e, (cancelled, all), stopped)

  cancel_all-StopsAt :
      (ids : List Text) (calls : Trace)
      → ((id : Text) → Ends (commands.scancel (scancel_command id)))
      → (done rest : List Text) × (ids ≡ done ++ rest)
        × StopsAt done rest
        × (cancel_all commands ids calls ≡ (ok tt, calls ++ cancellations done))
  unfolding cancel_all run_command make_call ◌>>=◌ pure
  cancel_all-StopsAt [] calls h = ([], [], refl, inl (tt, refl), unfold pure in rw append-nil refl)
  cancel_all-StopsAt (id ∷ ids) calls h =
      let called = calls ++ run (scancel_command id) ∷ [] in
      let (done, rest, split, stops, later) = cancel_all-StopsAt ids called h in
      elim (Ran-cases (commands.scancel (scancel_command id))) [
        | inl (t, e) ↦ (
          id ∷ done,
          rest,
          ap (λ l. id ∷ l) split,
          one_more id done rest (t, e) stops,
          rw e (
              later
              ∙ ap (λ (c : Trace). (ok tt, c))
                  (append_assoc calls (run (scancel_command id) ∷ []) (cancellations done))),
        )
        | inr (inl e) ↦ (id ∷ [], ids, refl, inr ([], id, refl, tt, e), rw e refl)
        | inr (inr (x, e)) ↦ absurd (h id x e)
      ]

  cancel_listed-StopsAt :
      (r : Ran) (calls : Trace)
      → ((id : Text) → Ends (commands.scancel (scancel_command id)))
      → (done rest : List Text) × (listed r ≡ done ++ rest)
        × StopsAt done rest
        × (cancel_listed commands r calls ≡ (ok tt, calls ++ cancellations done))
  unfolding cancel_listed listed pure
  cancel_listed-StopsAt (printed stdout) calls h = cancel_all-StopsAt (words stdout) calls h
  cancel_listed-StopsAt exit_code calls h = ([], [], refl, inl (tt, refl), rw append-nil refl)
  cancel_listed-StopsAt (failed e) calls h = ([], [], refl, inl (tt, refl), rw append-nil refl)

run_command-Ends :
    (command : List Text) (r : Ran) (calls : Trace)
    → Ends r
    → run_command command r calls ≡ (ok r, calls ++ run command ∷ [])
unfolding run_command make_call
run_command-Ends command (printed t) calls h = refl
run_command-Ends command exit_code calls h = refl
run_command-Ends command (failed e) calls h = absurd (h e refl)

-- If squeue and scancel can be executed, whatever their exit codes, the method returns; it has asked
-- squeue for the jobs of the name, has called scancel, in their order, for all jobs that it lists (none,
-- if squeue exits with an error) with success each time, or for those up to and including the first one
-- for which scancel exits with an error, and then has removed the sandbox and the scratch area.
pub delete_pod-cleans :
    (commands : Commands) (config : BuildConfig) (job_name : Text) (calls : Trace)
    → Ends (commands.squeue (squeue_command job_name))
    → ((id : Text) → Ends (commands.scancel (scancel_command id)))
    → (done rest : List Text) × (listed (commands.squeue (squeue_command job_name)) ≡ done ++ rest)
      × StopsAt commands done rest
      × (delete_pod commands config job_name calls ≡ (
        ok tt,
        (((calls ++ run (squeue_command job_name) ∷ []) ++ cancellations commands done)
              ++ remove_tree (slash config.slurm.sandbox job_name) ∷ [])
            ++ remove_tree (slash config.volumes.scratch_area job_name) ∷ [],
      ))
unfolding delete_pod make_call ◌>>=◌
delete_pod-cleans commands config job_name calls hq hc =
    let asked : Trace = calls ++ run (squeue_command job_name) ∷ [] in
    let q = commands.squeue (squeue_command job_name) in
    let (done, rest, split, stops, cancelled) = cancel_listed-StopsAt commands q asked hc in
    (
      done,
      rest,
      split,
      stops,
      rw (run_command-Ends (squeue_command job_name) q calls hq, cancelled) refl,
    )
