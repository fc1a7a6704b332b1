-- ===== src/Kueue/Flavors.antt =====
-- The resource flavors that a `NatsFlavor` of kueue-nats/docker/controller.py makes of its pools.
use mathlib.Core.Bool.{false≢true}
use interlink_condorce_plugi.Prelude.{
  ℕ, ◌≡◌, ◌≢◌, refl, ap, Text, List, [], ◌∷◌, map, none, some, Bool, true, nat_beq, All, split_at,
  collect, Result, ok, err, ◌>>=◌, key_error, nat_eq, list_eq, Option-cases, Bool-cases, inl, inr,
}
use interlink_condorce_plugi.Prelude.Dicts.{Dict, get, has, keys}
use interlink_condorce_plugi.Kueue.{
  NatsFlavor, timestamps, compute_quota, kueue_flavor, kueue_flavors, add_label, LabelValue,
  count_in, but_last, rf_labels, pair_of, entry, resource_flavor, ensure_resource_flavors,
  import_fields, quota_of, or_default, resources_keys,
}
use interlink_condorce_plugi.Kueue.Pools.{Event, run, run_from, has-keys}

-- a call that may raise, but not KeyError
abbrev pub FindsAll : {B : Type 0} → Result B → Type 0
FindsAll r = r ≢ err key_error

>>=-FindsAll :
    {B C : Type 0} (m : Result B) (go : B → Result C)
    → FindsAll m
    → ((x : B) → m ≡ ok x → FindsAll (go x))
    → FindsAll (m >>= go)
>>=-FindsAll (err e) go h k = λ q. let same : e ≡ key_error = cc in h (ap err same)
>>=-FindsAll (ok x) go h k = k x refl

ok-FindsAll : {B : Type 0} (x : B) → FindsAll (ok x)
ok-FindsAll x = λ q. cc

collect-FindsAll :
    {B : Type 0} (f : Text → Result B) (ks : List Text)
    → All (λ k. FindsAll (f k)) ks
    → FindsAll (collect f ks)
unfolding collect
collect-FindsAll f [] h = ok-FindsAll []
collect-FindsAll f (k ∷ ks) h = >>=-FindsAll (f k) _ h.0 (λ x _.
    >>=-FindsAll (collect f ks) _ (collect-FindsAll f ks h.1) (λ xs _. ok-FindsAll (x ∷ xs)))

entry_found :
    {V : Type 0} (d : Dict Text V) (k : Text) → has d k ≡ true → (v : V) × (entry d k ≡ ok v)
unfolding entry has
entry_found d k h = elim (Option-cases (get d k)) [
  | inl hn ↦ cc
  | inr (v, hv) ↦ (v, rw (entry, hv))
]

pair_of-FindsAll : (parts : List Text) → FindsAll (pair_of parts)
unfolding pair_of
pair_of-FindsAll [] = λ q. cc
pair_of-FindsAll (k ∷ []) = λ q. cc
pair_of-FindsAll (k ∷ v ∷ []) = λ q. cc
pair_of-FindsAll (k ∷ v ∷ w ∷ ws) = λ q. cc

add_label-FindsAll : (l : Text) (d : Dict Text LabelValue) → FindsAll (add_label l d)
unfolding add_label
add_label-FindsAll [] d = ok-FindsAll d
add_label-FindsAll (c ∷ t) d = elim (Bool-cases (nat_beq (count_in b'=' (but_last (c ∷ t))) 0)) [
  | inl none_of ↦ rw (none_of) (ok-FindsAll _)
  | inr any_of ↦ elim (Bool-cases (nat_beq (count_in b'=' (but_last (c ∷ t))) 1)) [
    | inr more ↦ rw (any_of, more) (ok-FindsAll d)
    | inl one ↦
        rw (any_of, one)
          (>>=-FindsAll (pair_of (split_at b'=' (c ∷ t))) _ (pair_of-FindsAll _)
            (λ kv _. ok-FindsAll _))
  ]
]

rf_labels-FindsAll : (ls : List Text) (d : Dict Text LabelValue) → FindsAll (rf_labels ls d)
unfolding rf_labels
rf_labels-FindsAll [] d = ok-FindsAll d
rf_labels-FindsAll (l ∷ ls) d =
    >>=-FindsAll (add_label l d) _ (add_label-FindsAll l d) (λ d' _. rf_labels-FindsAll ls d')

entry-FindsAll : {V : Type 0} (d : Dict Text V) (k : Text) → has d k ≡ true → FindsAll (entry d k)
entry-FindsAll d k h = let (v, e) = entry_found d k h in rw (e) (ok-FindsAll v)

resource_flavor-FindsAll :
    {A : Type 0} (f : NatsFlavor A) (pool : Text)
    → has f.labels pool ≡ true
    → has f.taints pool ≡ true
    → FindsAll (resource_flavor f pool)
unfolding resource_flavor
resource_flavor-FindsAll f pool hl ht =
    >>=-FindsAll (entry f.labels pool) _ (entry-FindsAll f.labels pool hl) (λ ls _.
      >>=-FindsAll (rf_labels ls []) _ (rf_labels-FindsAll ls []) (λ d _.
        >>=-FindsAll (entry f.taints pool) _ (entry-FindsAll f.taints pool ht)
          (λ ts _. ok-FindsAll _)))

All-mono : {P Q : Text → Type 0} (f : (k : Text) → P k → Q k) (ks : List Text) → All P ks → All Q ks
All-mono f [] h = tt
All-mono f (k ∷ ks) h = (f k h.0, All-mono f ks h.1)

no_pools :
    {A B : Type 0} (f : NatsFlavor A) (pool : Text)
    → f.pool_timestamps ≡ none
    → has (timestamps f) pool ≡ true
    → B
unfolding has get
no_pools f pool start hp = absurd (false≢true (rw (start) at hp))

-- From the start of a flavor on, and whatever messages come and pools fall silent, making its
-- resource flavors never fails for a pool whose labels or taints are missing.
pub run-ensure_resource_flavors :
    {A : Type 0} (matches : Text → Bool) (es : List (Event A)) (f : NatsFlavor A)
    → f.pool_timestamps ≡ none
    → ensure_resource_flavors (run matches es f) ≢ err key_error
unfolding ensure_resource_flavors has get
run-ensure_resource_flavors matches es f start =
    let g = run matches es f in
    let known = run_from matches es f (λ pool hp. no_pools f pool start hp) in
    collect-FindsAll (resource_flavor g) (keys (timestamps g)) (
      All-mono (λ k hk. resource_flavor-FindsAll g k (known k hk).1 (known k hk).2)
        (keys (timestamps g)) (has-keys (timestamps g)))

compute_quota_found :
    {A : Type 0} (quantity : A → ℕ) (none_at_all : A) (f : NatsFlavor A) (pool : Text)
    → has f.allocatable_quota pool ≡ true
    → (q : List (Text × A)) × (compute_quota quantity none_at_all pool f ≡ ok q)
unfolding compute_quota has
compute_quota_found quantity none_at_all f pool h =
    elim (Option-cases (get f.allocatable_quota pool)) [
      | inl hn ↦ cc
      | inr (q, hq) ↦
          let quota =
            quota_of quantity none_at_all f.nominal_quota (or_default quantity none_at_all q) in
          (map (λ k. (k, quota k)) resources_keys, rw (compute_quota, hq))
    ]

kueue_flavor-FindsAll :
    {A : Type 0} (quantity : A → ℕ) (none_at_all : A) (f : NatsFlavor A) (pool : Text)
    → has f.allocatable_quota pool ≡ true
    → FindsAll (kueue_flavor quantity none_at_all f pool)
unfolding kueue_flavor
kueue_flavor-FindsAll quantity none_at_all f pool h =
    let (q, e) = compute_quota_found quantity none_at_all f pool h in rw (e) (ok-FindsAll _)

-- From the start of a flavor on, and whatever messages come and pools fall silent, the quotas of
-- every pool that it has are found.
run-kueue_flavors :
    {A : Type 0} (matches : Text → Bool) (quantity : A → ℕ) (none_at_all : A) (es : List (Event A))
    (f : NatsFlavor A)
    → f.pool_timestamps ≡ none
    → kueue_flavors quantity none_at_all (run matches es f) ≢ err key_error
unfolding kueue_flavors
run-kueue_flavors matches quantity none_at_all es f start =
    let g = run matches es f in
    let known = run_from matches es f (λ pool hp. no_pools f pool start hp) in
    collect-FindsAll (kueue_flavor quantity none_at_all g) (keys (timestamps g)) (
      All-mono (λ k hk. kueue_flavor-FindsAll quantity none_at_all g k (known k hk).0)
        (keys (timestamps g)) (has-keys (timestamps g)))

-- A flavor that takes over from one with a pool, as when the queue is updated, while it has itself
-- no labels yet, fails at its next tick for the missing labels of its first pool.
import_fields-key_error :
    {A : Type 0} (old new : NatsFlavor A) (pool : Text) (t : ℕ) (others : Dict Text ℕ)
    → old.pool_timestamps ≡ some ((pool, t) ∷ others)
    → new.labels ≡ []
    → ensure_resource_flavors (import_fields old new) ≡ err key_error
unfolding ensure_resource_flavors import_fields resource_flavor entry get keys collect
import_fields-key_error old new pool t others hp hl = rw (hp, hl)
