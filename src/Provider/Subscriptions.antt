-- ===== src/Provider/Subscriptions.antt =====
-- The table of subscriptions of natsprovider/BaseNatsProvider.py, and what each callback does to it.
use interlink_condorce_plugi.Prelude.{
  ℕ, ◌≡◌, ◌≢◌, ap, ◌∙◌, Text, codes, [], ◌∷◌, ◌++◌, Bool, false, not, ◌||◌, arith, nat_eq, list_eq,
  ◌==◌, beq_ne, beq_congr, if◌then◌else◌,
}
use interlink_condorce_plugi.Prelude.Dicts.{Dict, has, put, keep_items, get-put, get-keep_items}
use interlink_condorce_plugi.Subjects.{
  create_subject, create_subject-eq, subject, last_token, last_token-subject_any, subject_injective,
  subject_kinds,
}
use interlink_condorce_plugi.Provider.{
  Provider, Handler, status_subject, delete_subject, subscribe, register, drop_subscriptions,
  subscribe_all,
}

pub has-put :
    (d : Dict Text Handler) (k j : Text) (v : Handler) → has (put d k v) j ≡ (k == j || has d j)
unfolding has
has-put d k j v = rw get-put (ground arith)

pub has-keep_items :
    (q : Text → Bool) (d : Dict Text Handler) (j : Text)
    → has (keep_items (λ k h. q k) d) j ≡ (if q j then has d j else false)
unfolding has
has-keep_items q d j = rw (get-keep_items q d j) (ground arith)

pub subject_beq : (base kind m n : Text) → (subject base kind m == subject base kind n) ≡ (m == n)
subject_beq base kind m n =
    beq_congr (subject base kind m) (subject base kind n) m n (subject_injective base kind m n)
      (ap (subject base kind))

pub status_ne_delete :
    (base m n : Text) → (subject base (codes "status") m == subject base (codes "delete") n) ≡ false
unfolding codes
status_ne_delete base m n =
    beq_ne _ _ (subject_kinds base [] (codes "tatus") (codes "elete") m n b's' b'd' (omega arith))

-- After a successful delete the table has lost exactly the subjects whose last token is the job.
pub has-drop_subscriptions :
    (p : Provider) (job s : Text)
    → has (drop_subscriptions job p).subscriptions s
      ≡ (if last_token s == job then false else has p.subscriptions s)
unfolding drop_subscriptions
has-drop_subscriptions p job s =
    has-keep_items (λ k. not (last_token k == job)) p.subscriptions s ∙ ground arith

pub has-register :
    (p : Provider) (job s : Text)
    → has (register job p).subscriptions s
      ≡ (delete_subject p job == s || (status_subject p job == s || has p.subscriptions s))
unfolding register subscribe
has-register p job s = simp has-put

-- the two subjects of every job are in the table or out of it together
abbrev pub IsPairedTable : Text → Dict Text Handler → Type 0
IsPairedTable base d =
    (job : Text)
    → has d (subject base (codes "status") job) ≡ has d (subject base (codes "delete") job)

abbrev pub IsPaired : Provider → Type 0
IsPaired p = IsPairedTable p.nats_subject p.subscriptions

pub delete_ne_status :
    (base m n : Text) → (subject base (codes "delete") m == subject base (codes "status") n) ≡ false
unfolding codes
delete_ne_status base m n =
    beq_ne _ _ (subject_kinds base [] (codes "elete") (codes "tatus") m n b'd' b's' (omega arith))

put-IsPairedTable :
    (base job : Text) (d : Dict Text Handler) (g h : Handler)
    → IsPairedTable base d
    → IsPairedTable base
        (put (put d (subject base (codes "status") job) g) (subject base (codes "delete") job) h)
put-IsPairedTable base job d g h paired j =
    simp (has-put, subject_beq, status_ne_delete, delete_ne_status) (ground (arith, paired j))

put_other-IsPairedTable :
    (base s : Text) (d : Dict Text Handler) (h : Handler)
    → ((j : Text) → (s == subject base (codes "status") j) ≡ false)
    → ((j : Text) → (s == subject base (codes "delete") j) ≡ false)
    → IsPairedTable base d
    → IsPairedTable base (put d s h)
put_other-IsPairedTable base s d h a b paired j =
    rw
      (
        has-put d s (subject base (codes "status") j) h,
        has-put d s (subject base (codes "delete") j) h,
        a j,
        b j,
      )
      (paired j)

keep-IsPairedTable :
    (base job : Text) (d : Dict Text Handler)
    → IsPairedTable base d
    → IsPairedTable base (keep_items (λ k h. not (last_token k == job)) d)
keep-IsPairedTable base job d paired j =
    simp (has-keep_items (λ k. not (last_token k == job)) d, last_token-subject_any)
      (ground (arith, paired j))

pub register-IsPaired : (job : Text) (p : Provider) → IsPaired p → IsPaired (register job p)
unfolding register subscribe
register-IsPaired job p h = put-IsPairedTable p.nats_subject job p.subscriptions _ _ h

pub drop_subscriptions-IsPaired :
    (job : Text) (p : Provider) → IsPaired p → IsPaired (drop_subscriptions job p)
unfolding drop_subscriptions
drop_subscriptions-IsPaired job p h = keep-IsPairedTable p.nats_subject job p.subscriptions h

create_ne :
    (base pool name : Text) (k : Text) (c : ℕ) (j : Text)
    → b'c' ≢ c
    → (create_subject base pool name == subject base (c ∷ k) j) ≡ false
unfolding codes
create_ne base pool name k c j h =
    rw (create_subject-eq base pool name)
      (beq_ne _ _ (subject_kinds base [] (codes "reate") k (pool ++ b'.' ∷ name) j b'c' c h))

shutdown_ne_status :
    (base m n : Text)
    → (subject base (codes "shutdown") m == subject base (codes "status") n) ≡ false
unfolding codes
shutdown_ne_status base m n =
    beq_ne _ _
      (subject_kinds base (b's' ∷ []) (codes "utdown") (codes "atus") m n b'h' b't' (omega arith))

shutdown_ne_delete :
    (base m n : Text)
    → (subject base (codes "shutdown") m == subject base (codes "delete") n) ≡ false
unfolding codes
shutdown_ne_delete base m n =
    beq_ne _ _ (subject_kinds base [] (codes "hutdown") (codes "elete") m n b's' b'd' (omega arith))

pub subscribe_all-IsPaired : (p : Provider) → IsPaired p → IsPaired (subscribe_all p)
unfolding subscribe_all subscribe codes
subscribe_all-IsPaired p h =
    let base = p.nats_subject in
    put_other-IsPairedTable base _ _ _ (shutdown_ne_status base p.shutdown_subject)
      (shutdown_ne_delete base p.shutdown_subject)
      (put_other-IsPairedTable base _ _ _
        (λ j. create_ne base p.nats_pool (codes "*") (codes "tatus") b's' j (omega arith))
        (λ j. create_ne base p.nats_pool (codes "*") (codes "elete") b'd' j (omega arith)) h)
