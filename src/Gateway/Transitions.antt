-- ===== src/Gateway/Transitions.antt =====
-- The transitions that `get_pod_status` of natsprovider/NatsGateway.py counts, when a job is polled
-- more than once.
use interlink_condorce_plugi.Prelude.{
  Option-cases, Bool-cases, inl, inr, ◌≡◌, refl, Text, some, Bool, true, false, nat_eq, list_eq,
}
use interlink_condorce_plugi.Prelude.Dicts.{put-put, dict_laws}
use interlink_condorce_plugi.Gateway.{Gateway, Redis, PodState, on_redis, hset_status}
use interlink_condorce_plugi.Gateway.PodStatus.{
  current_status, before_running, before_end, count, note_running, note_lost, note_end, lose,
}

current_status-hset_status :
    (id : Text) (s : PodState) (r : Redis) → current_status id (hset_status id s r) ≡ s
unfolding current_status hset_status
current_status-hset_status id s r = simp (dict_laws)

hset_status_twice :
    (id : Text) (s t : PodState) (r : Redis)
    → hset_status id t (hset_status id s r) ≡ hset_status id t r
unfolding hset_status
hset_status_twice id s t r = simp (put-put)

-- the laws that a second look at a job's state applies
ruleset second_look = (current_status-hset_status, hset_status_twice)

-- A job that is seen running again changes nothing: its start is counted once.
note_running_once :
    (id pool : Text) (g : Gateway)
    → note_running id pool (note_running id pool g) ≡ note_running id pool g
unfolding note_running on_redis before_running count
note_running_once id pool g = elim (Option-cases g.redis) [
  | inl hr ↦ rw (hr)
  | inr (r, hr) ↦ elim (Bool-cases (before_running (current_status id r))) [
    | inl hb ↦ rw (hr, hb, second_look)
    | inr hb ↦ rw (hr, hb, second_look)
  ]
]

-- A job that has ended with an output and is seen again, with whatever exit codes, counts no
-- further transition.
pub note_end_once :
    (good good' : Bool) (id pool : Text) (g : Gateway)
    → (note_end good' id pool (note_end good id pool g)).transitions
      ≡ (note_end good id pool g).transitions
unfolding note_end on_redis before_end before_running count
note_end_once true good' id pool g = elim (Option-cases g.redis) [
  | inl hr ↦ rw (hr)
  | inr (r, hr) ↦ elim (Bool-cases (before_end (current_status id r))) [
    | inl hb ↦ rw (hr, hb, current_status-hset_status)
    | inr hb ↦ rw (hr, hb, current_status-hset_status)
  ]
]
note_end_once false good' id pool g = elim (Option-cases g.redis) [
  | inl hr ↦ rw (hr)
  | inr (r, hr) ↦ elim (Bool-cases (before_end (current_status id r))) [
    | inl hb ↦ rw (hr, hb, current_status-hset_status)
    | inr hb ↦ rw (hr, hb, current_status-hset_status)
  ]
]

pub note_lost-lose :
    (id pool : Text) (g : Gateway) (r : Redis)
    → g.redis ≡ some r
    → note_lost id pool g ≡ lose (current_status id r) id pool g
unfolding note_lost
note_lost-lose id pool g r hr = rw (hr)

lose_twice :
    (s : PodState) (id pool : Text) (g : Gateway) (r : Redis)
    → g.redis ≡ some r
    → current_status id r ≡ s
    → note_lost id pool (lose s id pool g) ≡ lose s id pool g
unfolding note_lost lose on_redis before_end before_running count
lose_twice PodState.creating id pool g r hr hs = rw (hr, current_status-hset_status)
lose_twice PodState.created id pool g r hr hs = rw (hr, current_status-hset_status)
lose_twice PodState.pending id pool g r hr hs = rw (hr, current_status-hset_status)
lose_twice PodState.running id pool g r hr hs = rw (hr, current_status-hset_status)
lose_twice PodState.succeeded id pool g r hr hs = rw (hr, current_status-hset_status)
lose_twice PodState.failed id pool g r hr hs = rw (hr, current_status-hset_status)
lose_twice PodState.lost id pool g r hr hs = rw (note_lost-lose id pool g r hr, hs)
lose_twice PodState.cleared id pool g r hr hs = rw (note_lost-lose id pool g r hr, hs)
lose_twice PodState.deleting id pool g r hr hs = rw (note_lost-lose id pool g r hr, hs)
lose_twice PodState.deleted id pool g r hr hs = rw (note_lost-lose id pool g r hr, hs)

-- A job that has ended without an output and is seen again changes nothing: it is counted as lost,
-- or as cleared if its end was counted before, once.
note_lost_once :
    (id pool : Text) (g : Gateway) → note_lost id pool (note_lost id pool g) ≡ note_lost id pool g
unfolding note_lost
note_lost_once id pool g = elim (Option-cases g.redis) [
  | inl hr ↦ rw (hr)
  | inr (r, hr) ↦
      rw (note_lost-lose id pool g r hr) (lose_twice (current_status id r) id pool g r hr refl)
]
