-- ===== src/Slurm/Matching.antt =====
-- Which flavor `_resolve_slurm_flavor` of natsprovider/slurmprovider/SlurmProvider.py applies to a
-- pod.
use interlink_condorce_plugi.Prelude.{
  ℕ, ◌*◌, ◌≤◌, ◌≡◌, ◌⊎◌, inl, inr, refl, ap, sym, subst, ◌∙◌, Text, codes, List, [], ◌∷◌, ◌++◌,
  Option, none, some, Bool, true, false, ◌&&◌, arith, all, All, keep, contains, collect, Result, ok,
  err, ◌>>=◌, >>=-eq-ok, Bool-cases, nat_eq, list_eq, list_beq_iff, ◌==◌, if◌then◌else◌,
}
use interlink_condorce_plugi.Prelude.Dicts.{Dict, get, keys}
use interlink_condorce_plugi.Utils.PodResources.{billion, compute_pod_resource}
use interlink_condorce_plugi.BuildConfig.Slurm.{SlurmFlavor, SlurmOptions}
use interlink_condorce_plugi.Slurm.Flavors.{
  Pod, override, time_condition, is_generic, generic_keys, get_max_resource, within, conditions,
  matches, first_match, resolve_slurm_flavor,
}

-- what the code counts for a container that asks for nothing
abbrev pub request_default : Text → Text
request_default k = if is_generic k then codes "0" else codes "1"

contains-keep :
    (p : Text → Bool) (ks : List Text) (k : Text)
    → contains ks k ≡ true
    → p k ≡ true
    → contains (keep p ks) k ≡ true
unfolding contains keep
contains-keep p [] k h q = cc
contains-keep p (j ∷ ks) k h q = elim (Bool-cases (j == k)) [
  | inl same ↦ rw ((list_beq_iff j k).0 same, q) (rw ((list_beq_iff k k).1 refl))
  | inr other ↦ elim (Bool-cases (p j)) [
    | inl kept ↦ rw kept (rw other (contains-keep p ks k (rw other at h) q))
    | inr dropped ↦ rw dropped (contains-keep p ks k (rw other at h) q)
  ]
]

contains-keys : (d : Dict Text Text) (k v : Text) → get d k ≡ some v → contains (keys d) k ≡ true
unfolding contains keys get
contains-keys [] k v h = cc
contains-keys ((j, w) ∷ d) k v h = ground (arith, contains-keys d k v)

collect-contains :
    (f : Text → Result Bool) (ks : List Text) (bs : List Bool) (k : Text)
    → collect f ks ≡ ok bs
    → all (λ c. c) bs ≡ true
    → contains ks k ≡ true
    → f k ≡ ok true
unfolding collect all contains
collect-contains f [] bs k h q c = cc
collect-contains f (j ∷ ks) bs k h q c =
    let (b, hb, h') = >>=-eq-ok (f j) _ h in
    let (bs', hbs, e) = >>=-eq-ok (collect f ks) _ h' in
    let whole : b ∷ bs' ≡ bs = cc in
    let both : (b && all (λ c. c) bs') ≡ true = ap (all (λ c. c)) whole ∙ q in
    let holds : b ≡ true = ground arith in
    elim (Bool-cases (j == k)) [
      | inl same ↦ rw ((list_beq_iff j k).0 same) at (hb ∙ ap ok holds)
      | inr other ↦ collect-contains f ks bs' k hbs (ground arith) (rw other at c)
    ]

named_cases : (k : Text) → is_generic k ≡ false → (k ≡ codes "cpu") ⊎ (k ≡ codes "memory")
unfolding is_generic
named_cases k h = elim (Bool-cases (k == codes "cpu")) [
  | inl cpu ↦ inl ((list_beq_iff k (codes "cpu")).0 cpu)
  | inr other ↦ inr ((list_beq_iff k (codes "memory")).0 (ground arith))
]

-- what the conditions together say of each
all_hold :
    (t c m : Result Bool) (gs : Result (List Bool))
    → (do cs ← (do t' ← t; c' ← c; m' ← m; gs' ← gs; ok (t' ∷ c' ∷ m' ∷ gs')); ok (all (λ b. b) cs))
      ≡ ok true
    → (t ≡ ok true)
      × (c ≡ ok true)
      × (m ≡ ok true)
      × ((bs : List Bool) × (gs ≡ ok bs) × (all (λ b. b) bs ≡ true))
unfolding all
all_hold (err e) c m gs h = cc
all_hold (ok t) (err e) m gs h = cc
all_hold (ok t) (ok c) (err e) gs h = cc
all_hold (ok t) (ok c) (ok m) (err e) h = cc
all_hold (ok t) (ok c) (ok m) (ok gs) h =
    (ground arith, ground arith, ground arith, (gs, refl, ground arith))

module _ (parse_quantity : Text → Result ℕ) where
  -- the pod asks for no more of the resource than the flavor has
  abbrev pub Within : Pod → Text → Text → Type 0
  Within pod k v =
      (n q : ℕ) × (compute_pod_resource parse_quantity pod.containers k (request_default k) ≡ ok n)
      × (parse_quantity v ≡ ok q)
      × (n * billion ≤ q)

  -- the pod respects every limit that the flavor states
  pub record Fits (pod : Pod) (f : SlurmFlavor) : Type 0 where
    pub time :
        (m : ℕ)
        → f.max_time_seconds ≡ some m
        → (d : ℕ) × (pod.active_deadline_seconds ≡ some d) × (d ≤ m)
    pub resources : (k v : Text) → get f.max_resources k ≡ some v → Within pod k v

  within-Within :
      (pod : Pod) (f : SlurmFlavor) (k v r d : Text)
      → within parse_quantity pod f k r d ≡ ok true
      → get f.max_resources k ≡ some v
      → r ≡ request_default k
      → Within pod k v
  unfolding within get_max_resource
  within-Within pod f k v r d h e er =
      let (n, hn, h1) = >>=-eq-ok (compute_pod_resource parse_quantity pod.containers k r) _ h in
      let (q, hq, h2) = >>=-eq-ok (get_max_resource parse_quantity f k d) _ h1 in
      (n, q, rw er at hn, rw e at hq, ground arith)

  time_condition-le :
      (deadline limit : Option ℕ) (m : ℕ)
      → time_condition deadline limit ≡ ok true
      → limit ≡ some m
      → (d : ℕ) × (deadline ≡ some d) × (d ≤ m)
  unfolding time_condition
  time_condition-le deadline none m h e = cc
  time_condition-le none (some l) m h e = cc
  time_condition-le (some d) (some l) m h e = (d, refl, ground arith)

  -- A flavor that matches a pod states no limit that the pod exceeds.
  matches-Fits : (pod : Pod) (f : SlurmFlavor) → matches parse_quantity pod f ≡ ok true → Fits pod f
  unfolding matches conditions
  matches-Fits pod f h =
      let (t, c, m, (gs, hgs, hall)) =
        all_hold (time_condition pod.active_deadline_seconds f.max_time_seconds)
          (within parse_quantity pod f (codes "cpu") (codes "1") (codes "1Ei"))
          (within parse_quantity pod f (codes "memory") (codes "1") (codes "1Ei"))
          (collect (λ k. within parse_quantity pod f k (codes "0") (codes "0")) (generic_keys f))
          h in
      record {
        time = λ m e. time_condition-le pod.active_deadline_seconds f.max_time_seconds m t e;
        resources = λ k v e. elim (Bool-cases (is_generic k)) [
          | inl generic ↦
              within-Within pod f k v (codes "0") (codes "0")
                (collect-contains (λ k. within parse_quantity pod f k (codes "0") (codes "0"))
                  (generic_keys f) gs k hgs hall
                  (unfold generic_keys in
                    contains-keep is_generic (keys f.max_resources) k
                      (contains-keys f.max_resources k v e) generic))
                e (rw generic)
          | inr named ↦ elim (named_cases k named) [
            | inl cpu ↦
                within-Within pod f k v (codes "1") (codes "1Ei")
                  (subst (λ j. within parse_quantity pod f j (codes "1") (codes "1Ei") ≡ ok true)
                    (sym cpu) c)
                  e (rw named)
            | inr memory ↦
                within-Within pod f k v (codes "1") (codes "1Ei")
                  (subst (λ j. within parse_quantity pod f j (codes "1") (codes "1Ei") ≡ ok true)
                    (sym memory) m)
                  e (rw named)
          ]
        ];
      }

  -- the flavors are tried in order: none matches and the options are kept, or the first that matches
  -- replaces them
  abbrev pub Resolved : Pod → SlurmOptions → List SlurmFlavor → SlurmOptions → Type 0
  Resolved pod o fs r =
      ((r ≡ o) × All (λ f. matches parse_quantity pod f ≡ ok false) fs)
      ⊎ ((pre : List SlurmFlavor) × (f : SlurmFlavor) × (post : List SlurmFlavor) × (fs
            ≡ pre ++ f ∷ post)
          × All (λ g. matches parse_quantity pod g ≡ ok false) pre
          × Fits pod f
          × (r ≡ override f o))

  one_more :
      (pod : Pod) (o : SlurmOptions) (f : SlurmFlavor) (fs : List SlurmFlavor) (r : SlurmOptions)
      → matches parse_quantity pod f ≡ ok false
      → Resolved pod o fs r
      → Resolved pod o (f ∷ fs) r
  one_more pod o f fs r no_match (inl (kept, none_match)) = inl (kept, (no_match, none_match))
  one_more pod o f fs r no_match (inr (pre, g, post, e, hpre, fits, hr)) =
      inr (f ∷ pre, g, post, ap (λ l. f ∷ l) e, (no_match, hpre), fits, hr)

  chosen :
      (pod : Pod) (o : SlurmOptions) (f : SlurmFlavor) (fs : List SlurmFlavor) (r : SlurmOptions)
      (m : Bool)
      → matches parse_quantity pod f ≡ ok m
      → (if m then ok (override f o) else first_match parse_quantity pod o fs) ≡ ok r
      → (first_match parse_quantity pod o fs ≡ ok r → Resolved pod o fs r)
      → Resolved pod o (f ∷ fs) r
  chosen pod o f fs r true hm h rest = inr ([], f, fs, refl, tt, matches-Fits pod f hm, cc)
  chosen pod o f fs r false hm h rest = one_more pod o f fs r hm (rest h)

  first_match-Resolved :
      (pod : Pod) (o : SlurmOptions) (fs : List SlurmFlavor) (r : SlurmOptions)
      → first_match parse_quantity pod o fs ≡ ok r
      → Resolved pod o fs r
  unfolding first_match
  first_match-Resolved pod o [] r h = inl (cc, tt)
  first_match-Resolved pod o (f ∷ fs) r h =
      let (m, hm, rest) = >>=-eq-ok (matches parse_quantity pod f) _ h in
      chosen pod o f fs r m hm rest (first_match-Resolved pod o fs r)

  -- If the options have a list of flavors and the method returns, then it returns the options as they
  -- are and no flavor matches the pod, or it returns them with the values of the first flavor that
  -- matches; the pod exceeds no limit that this flavor states, of time or of any resource.
  pub resolve_slurm_flavor-first :
      (pod : Pod) (o : SlurmOptions) (fs : List SlurmFlavor) (r : SlurmOptions)
      → o.flavors ≡ some fs
      → resolve_slurm_flavor parse_quantity pod o ≡ ok r
      → Resolved pod o fs r
  unfolding resolve_slurm_flavor
  resolve_slurm_flavor-first pod o fs r e h =
      first_match-Resolved pod o fs r (rw (e, resolve_slurm_flavor) at h)
