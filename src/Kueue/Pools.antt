-- ===== src/Kueue/Pools.antt =====
-- The pools of a `NatsFlavor` of kueue-nats/docker/controller.py, as messages come and time passes.
use interlink_condorce_plugi.Prelude.{
  ℕ, ◌≡◌, ◌∙◌, refl, sym, Text, List, [], ◌∷◌, Option, none, some, Bool, true, ◌||◌, contains, All,
  get_or, nat_eq, list_eq, Eq, ◌==◌, arith, Bool-cases, inl, inr,
}
use interlink_condorce_plugi.Prelude.Dicts.{
  Dict, get, put, has, keys, keep_items, get-put, beq_refl,
}
use interlink_condorce_plugi.Subjects.{last_token}
use interlink_condorce_plugi.Kueue.{
  NatsFlavor, ResourceStruct, timestamps, update_resources_cb, drop_silent, drop_silent_of,
}

module _ {K V : Type 0} ⦃e : Eq K⦄ where
  has-put : (d : Dict K V) (k j : K) (v : V) → has (put d k v) j ≡ (k == j || has d j)
  unfolding has
  has-put d k j v = rw get-put (ground arith)

  has-keep_items :
      (p : K → V → Bool) (d : Dict K V) (k : K) → has (keep_items p d) k ≡ true → has d k ≡ true
  unfolding has get keep_items
  has-keep_items p [] k h = h
  has-keep_items p ((j, v) ∷ d) k h = ground (arith, has-keep_items p d k)

  has-cons :
      (j : K) (v : V) (d : Dict K V) (ks : List K)
      → All (λ k. has d k ≡ true) ks
      → All (λ k. has ((j, v) ∷ d) k ≡ true) ks
  unfolding has get
  has-cons j v d [] h = tt
  has-cons j v d (k ∷ ks) h = (ground (arith, h.0), has-cons j v d ks h.1)

  pub has-keys : (d : Dict K V) → All (λ k. has d k ≡ true) (keys d)
  unfolding keys has get
  has-keys [] = tt
  has-keys ((j, v) ∷ d) = (rw (beq_refl j) refl, has-cons j v d (keys d) (has-keys d))

-- every pool that has a time has its quotas, its labels and its taints
abbrev pub KnowsPools : {A : Type 0} → NatsFlavor A → Type 0
KnowsPools f =
    (pool : Text)
    → has (timestamps f) pool ≡ true
    → (has f.allocatable_quota pool ≡ true)
      × (has f.labels pool ≡ true)
      × (has f.taints pool ≡ true)

has-drop_silent_of :
    (now timeout : ℕ) (o : Option (Dict Text ℕ)) (pool : Text)
    → has (get_or (drop_silent_of now timeout o) []) pool ≡ true
    → has (get_or o []) pool ≡ true
unfolding drop_silent_of
has-drop_silent_of now timeout none pool h = h
has-drop_silent_of now timeout (some ts) pool h = has-keep_items _ ts pool h

-- What happens to a flavor: a message about a pool, or a tick of the timer.
pub data Event (A : Type 0) : Type 0 where
  message : ℕ → (subject_ : Text) → ResourceStruct A → Event A
  timer : ℕ → Event A

module _ {A : Type 0} (matches : Text → Bool) where
  unfoldable pub step : Event A → NatsFlavor A → NatsFlavor A
  unfolding update_resources_cb drop_silent
  step (message now s r) f = update_resources_cb matches now s r f
  step (timer now) f = drop_silent now f

  unfoldable pub run : List (Event A) → NatsFlavor A → NatsFlavor A
  unfolding step
  run [] f = f
  run (e ∷ es) f = run es (step e f)

  update-KnowsPools :
      (now : ℕ) (s : Text) (r : ResourceStruct A) (f : NatsFlavor A)
      → KnowsPools f
      → KnowsPools (update_resources_cb matches now s r f)
  unfolding update_resources_cb
  update-KnowsPools now s r f h =
      elim (Bool-cases (contains f.pools (last_token s) || matches (last_token s))) [
        | inr other ↦ rw (other) h
        | inl known ↦ rw (known) (λ pool hp.
            let same = last_token s == pool in
            let timed = sym (has-put (timestamps f) (last_token s) pool now) ∙ hp in
            (
              has-put f.allocatable_quota (last_token s) pool r.quotas
                  ∙ ground (arith, timed, h pool),
              has-put f.labels (last_token s) pool r.labels ∙ ground (arith, timed, h pool),
              has-put f.taints (last_token s) pool r.taints ∙ ground (arith, timed, h pool),
            ))
      ]

  drop-KnowsPools : (now : ℕ) (f : NatsFlavor A) → KnowsPools f → KnowsPools (drop_silent now f)
  unfolding drop_silent
  drop-KnowsPools now f h pool hp =
      h pool (has-drop_silent_of now f.timeout_seconds f.pool_timestamps pool hp)

  pub run_from : (es : List (Event A)) (f : NatsFlavor A) → KnowsPools f → KnowsPools (run es f)
  unfolding run
  run_from [] f h = h
  run_from (message now s r ∷ es) f h =
      run_from es (update_resources_cb matches now s r f) (update-KnowsPools now s r f h)
  run_from (timer now ∷ es) f h = run_from es (drop_silent now f) (drop-KnowsPools now f h)
