-- ===== src/Provider/Stopping.antt =====
-- Ctrl+C: when `maybe_stop` of natsprovider/BaseNatsProvider.py stops the main loop.
use interlink_condorce_plugi.Prelude.{
  Bool-cases, inl, inr, ℕ, ◌+◌, ◌≡◌, codes, Text, some, true, false, ltb, ◌*◌, arith, nat_eq,
  list_eq, if◌then◌else◌,
}
use interlink_condorce_plugi.Prelude.Dicts.{get, put, get-put, beq_refl}
use interlink_condorce_plugi.Provider.{Provider, is_due, tick, maybe_stop}

-- the second of two signals finds the time of the first
is_due-tick :
    (p : Provider) (key : Text) (first second delay : ℕ)
    → is_due second key delay (tick first key p) ≡ ltb (first + delay * 1_000_000) second
unfolding is_due tick
is_due-tick p key first second delay =
    let e : get (put p.latest_tick key first) key ≡ some first = simp (get-put, beq_refl) in
    rw (e, is_due)

-- A signal that comes after the timer has run out leaves exactly an interactive provider running; a
-- second one leaves it running exactly if it is interactive and more than three seconds have passed.
maybe_stop_twice :
    (p : Provider) (first second : ℕ)
    → p.running ≡ true
    → is_due first (codes "stop") 3 p ≡ true
    → ((maybe_stop first p).running ≡ p.interactive_mode)
      × ((maybe_stop second (maybe_stop first p)).running
          ≡ (if p.interactive_mode then ltb (first + 3_000_000) second else false))
unfolding maybe_stop
maybe_stop_twice p first second r due =
    let armed = is_due-tick p (codes "stop") first second 3 in
    elim (Bool-cases p.interactive_mode) [
      | inl i ↦ (
        ground arith,
        elim (Bool-cases (ltb (first + 3_000_000) second)) [
          | inl late ↦ ground arith
          | inr soon ↦ ground arith
        ],
      )
      | inr i ↦ (ground arith, ground arith)
    ]
