-- ===== src/Condor/Locating.antt =====
-- The loop of `get_schedd` of natsprovider/condor/CondorConfiguration.py, which is not left after a
-- success.
use interlink_condorce_plugi.Prelude.{
  ℕ, zero, suc, ◌+◌, ◌≡◌, ◌⊎◌, inl, inr, refl, ap, sym, ◌∙◌, Option, none, some, Result, ok, err,
  htcondor_io_error, arith,
}
use interlink_condorce_plugi.Condor.{is_io_error}
use interlink_condorce_plugi.Condor.Schedd.{locate_loop, attribute, after_loop, get_schedd}

module _ {S : Type 0} (locate : ℕ → Result S) where
  -- the attempt finds the schedd, or fails in a way that is caught
  abbrev pub Tries : ℕ → Type 0
  Tries i = ((d : S) × (locate i ≡ ok d)) ⊎ (locate i ≡ err htcondor_io_error)

  -- what the last of the first `n` attempts that has found the schedd has found
  unfoldable pub latest : ℕ → Option S
  latest zero = none
  latest (suc n) = elim (locate n) [ ok d ↦ some d | err e ↦ latest n ]

  abbrev ended : Result S → Result (Unit {0})
  ended (ok d) = ok tt
  ended (err e) = err e

  latest_found : (i : ℕ) (d : S) → locate i ≡ ok d → latest (i + 1) ≡ some d
  unfolding latest
  latest_found i d h = let next : i + 1 ≡ suc i = omega arith in ap latest next ∙ (rw (h, latest))

  latest_failed : (i : ℕ) → locate i ≡ err htcondor_io_error → latest (i + 1) ≡ latest i
  unfolding latest
  latest_failed i h = let next : i + 1 ≡ suc i = omega arith in ap latest next ∙ (rw (h, latest))

  step_found :
      (n i : ℕ) (d : S) (s : Option S)
      → locate i ≡ ok d
      → locate_loop locate (suc n) i s ≡ locate_loop locate n (i + 1) (some d)
  unfolding locate_loop
  step_found n i d s h = rw (h, locate_loop)

  step_failed :
      (n i : ℕ) (s : Option S)
      → locate i ≡ err htcondor_io_error
      → locate_loop locate (suc n) i s ≡ locate_loop locate n (i + 1) s
  unfolding locate_loop is_io_error
  step_failed n i s h = rw (h, locate_loop)

  last_try :
      (k : ℕ) → Tries k → locate_loop locate 0 k (latest k) ≡ (ended (locate k), latest (suc k))
  unfolding locate_loop latest
  last_try k (inl (d, e)) = rw (e, locate_loop, latest)
  last_try k (inr e) = rw (e, locate_loop, latest)

  loop-Tries :
      (n i k : ℕ)
      → ((j : ℕ) → Tries j)
      → k ≡ i + n
      → locate_loop locate n i (latest i) ≡ (ended (locate k), latest (suc k))
  loop-Tries zero i k tries e =
      let same : k ≡ i = omega arith in
      ap (λ j. locate_loop locate 0 j (latest j)) (sym same) ∙ last_try k (tries k)
  loop-Tries (suc n) i k tries e = elim (tries i) [
    | inl (d, h) ↦
        step_found n i d (latest i) h
        ∙ ap (locate_loop locate n (i + 1)) (sym (latest_found i d h))
        ∙ loop-Tries n (i + 1) k tries (omega arith)
    | inr h ↦
        step_failed n i (latest i) h
        ∙ ap (locate_loop locate n (i + 1)) (sym (latest_failed i h))
        ∙ loop-Tries n (i + 1) k tries (omega arith)
  ]

  of_loop : Tries 3 → after_loop (ended (locate 3), latest 4) ≡ (locate 3, latest 4)
  unfolding latest after_loop attribute
  of_loop (inl (d, e)) = rw (e, latest) refl
  of_loop (inr e) = rw e refl

  -- If every attempt finds the schedd or ends in an I/O error of HTCondor, all four are made, also after
  -- one that has found it; the method returns or raises what the fourth one gives, and keeps what the
  -- last successful one has found, which the next call then returns without any attempt.
  pub get_schedd-locates :
      ((j : ℕ) → Tries j)
      → (get_schedd (ok tt) locate none ≡ (locate 3, latest 4))
        × ((d : S) (locate' : ℕ → Result S)
            → latest 4 ≡ some d
            → get_schedd (ok tt) locate' (latest 4) ≡ (ok d, some d))
  unfolding get_schedd
  get_schedd-locates tries =
      let looped : locate_loop locate 3 0 none ≡ (ended (locate 3), latest 4) =
        unfold latest in loop-Tries 3 0 3 tries (omega arith) in
      (ap after_loop looped ∙ of_loop (tries 3), λ d locate' e. rw e refl)
