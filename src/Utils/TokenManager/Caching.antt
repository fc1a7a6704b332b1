-- ===== src/Utils/TokenManager/Caching.antt =====
-- When the property `token` of `TokenManager` in natsprovider/utils.py refreshes.
use interlink_condorce_plugi.Prelude.{
  ℕ, ◌+◌, ◌-◌, ◌*◌, ◌/◌, ◌≤◌, ◌<◌, ◌≡◌, refl, ap, ◌∙◌, ◌⊎◌, inl, inr, Text, List, [], ◌∷◌, map, All,
  Option, none, some, true, ltb, le→leb, le→ltb, Result, Error, ok, err, arith, if◌then◌else◌,
}
use interlink_condorce_plugi.Utils.TokenManager.{
  TokenManager, second, day, seconds_part, is_older, is_due, renew, token,
}

-- the age in whole seconds, if it is less than a day
seconds_part_below :
    (now since : ℕ)
    → since ≤ now
    → now < since + day
    → seconds_part now since ≡ (now - since) / second
unfolding seconds_part
seconds_part_below now since h k = rw (le→leb since now h) (omega arith)

seconds_part_days :
    (since days age : ℕ)
    → age < day
    → seconds_part (since + (days * day + age)) since ≡ age / second
unfolding seconds_part
seconds_part_days since days age h =
    rw (le→leb since (since + (days * day + age)) (omega arith)) (omega arith)

module _ (m : TokenManager) (old : Text) (since validity : ℕ) (held : m.token_ ≡ some old)
    (at : m.last_token_refresh ≡ some since)
    (valid : m.token_validity_seconds ≡ some validity) where
  is_due_held : (now : ℕ) → is_due now m ≡ is_older now since validity
  unfolding is_due
  is_due_held now = rw (held, at, valid)

  -- In the day after a refresh the held token is served, with no refresh, exactly until its age in
  -- whole seconds passes the validity; then the outcome of a refresh is.
  token_within_day :
      (now : ℕ) (refreshed : Result Text)
      → since ≤ now
      → now < since + day
      → token now refreshed m ≡ (
          if ltb validity ((now - since) / second)
          then renew now refreshed m
          else (ok (some old), m))
  unfolding token is_older
  token_within_day now refreshed h k =
      simp (is_due_held now, seconds_part_below now since h k, held)

  -- A token that was obtained any number of whole days and less than its validity ago is served as
  -- if it had just been obtained: only the seconds of the last day count against its validity.
  token_days_old :
      (days age : ℕ) (refreshed : Result Text)
      → age < day
      → age / second ≤ validity
      → token (since + (days * day + age)) refreshed m ≡ (ok (some old), m)
  unfolding token is_older
  token_days_old days age refreshed h k = simp (
    is_due_held (since + (days * day + age)),
    seconds_part_days since days age h,
    held,
    le→ltb _ _ k,
  )

token_fails :
    (m : TokenManager) (now : ℕ) (e : Error)
    → is_due now m ≡ true
    → token now (err e) m ≡ (err e, record m { last_token_refresh = some now })
unfolding token renew
token_fails m now e due = rw due

-- A refresh that fails is raised, but restarts the clock: for as long as the validity the next
-- call serves the held token again, without an error and without a refresh.
token_after_failure :
    (m : TokenManager) (old : Text) (validity now later : ℕ) (e : Error) (refreshed : Result Text)
    → m.token_ ≡ some old
    → m.token_validity_seconds ≡ some validity
    → is_due now m ≡ true
    → now ≤ later
    → later < now + day
    → (later - now) / second ≤ validity
    → ((token now (err e) m).0 ≡ err e)
      × ((token later refreshed (token now (err e) m).1).0 ≡ ok (some old))
token_after_failure m old validity now later e refreshed held valid due h k fresh =
    rw (token_fails m now e due) (
      refl,
      simp (
        token_within_day (record m { last_token_refresh = some now }) old now validity held refl
            valid later refreshed h k,
        le→ltb _ _ fresh,
      ),
    )

-- the outcomes of a sequence of calls, each at its time and with the outcome that a refresh would have,
-- and the state after them
unfoldable pub served :
    List (ℕ × Result Text) → TokenManager → List (Result (Option Text)) × TokenManager
unfolding token
served [] m = ([], m)
served ((now, refreshed) ∷ calls) m =
    let (r, m') = token now refreshed m in let (rs, last) = served calls m' in (r ∷ rs, last)

-- no token is held, or its age, less than a day, has passed the validity
abbrev pub IsExpired : ℕ → ℕ → TokenManager → Type 0
IsExpired now validity m =
    (m.token_ ≡ none)
    ⊎ ((since : ℕ) × (m.last_token_refresh ≡ some since)
        × (since ≤ now)
        × (now < since + day)
        × (validity < (now - since) / second))

-- a call in the day after `now`, at most as many whole seconds after it as the validity has
abbrev pub IsFresh : ℕ → ℕ → ℕ × Result Text → Type 0
IsFresh now validity call =
    (now ≤ call.0) × (call.0 < now + day) × ((call.0 - now) / second ≤ validity)

due :
    (m : TokenManager) (now validity : ℕ)
    → m.token_validity_seconds ≡ some validity
    → IsExpired now validity m
    → is_due now m ≡ true
unfolding is_due is_older
due m now validity valid (inl nothing) = rw nothing refl
due m now validity valid (inr (since, at, past, today, old)) = by_token m.token_ refl
  where
    by_token : (o : Option Text) → m.token_ ≡ o → is_due now m ≡ true
    by_token none e = rw e refl
    by_token (some t) e =
        let late : ltb validity ((now - since) / second) ≡ true = ground arith in
        is_due_held m t since validity e at valid now
        ∙ (rw (seconds_part_below now since past today) late)

served_held :
    (m : TokenManager) (t : Text) (now validity : ℕ) (calls : List (ℕ × Result Text))
    → m.token_ ≡ some t
    → m.last_token_refresh ≡ some now
    → m.token_validity_seconds ≡ some validity
    → All (IsFresh now validity) calls
    → served calls m ≡ (map (λ call. ok (some t)) calls, m)
unfolding served
served_held m t now validity [] held at valid h = refl
served_held m t now validity ((later, refreshed) ∷ calls) held at valid ((past, today, fresh), hs) =
    let kept : token later refreshed m ≡ (ok (some t), m) =
      token_within_day m t now validity held at valid later refreshed past today
      ∙ (rw (le→ltb _ _ fresh) refl) in
    rw (kept, served_held m t now validity calls held at valid hs) refl

refreshes :
    (m : TokenManager) (t : Text) (now : ℕ)
    → is_due now m ≡ true
    → token now (ok t) m
      ≡ (ok (some t), record m { token_ = some t; last_token_refresh = some now })
unfolding token renew
refreshes m t now h = rw h refl

-- what a first call has given, before the outcomes of the others
abbrev first_served :
    List (ℕ × Result Text)
    → Result (Option Text) × TokenManager
    → List (Result (Option Text)) × TokenManager
first_served calls (r, m) = let (rs, last) = served calls m in (r ∷ rs, last)

-- Once a refresh at `now`, of a manager that holds no token or one whose age, less than a day, has
-- passed the validity, has given a token, this call and all calls that follow in the same day, as long
-- as the age of the token in whole seconds does not pass the validity, return that token, whatever a
-- further refresh would give, and leave the manager with that token and the time `now`.
pub served_from_refresh :
    (m : TokenManager) (t : Text) (now validity : ℕ) (calls : List (ℕ × Result Text))
    → m.token_validity_seconds ≡ some validity
    → IsExpired now validity m
    → All (IsFresh now validity) calls
    → served ((now, ok t) ∷ calls) m ≡ (
      ok (some t) ∷ map (λ call. ok (some t)) calls,
      record m { token_ = some t; last_token_refresh = some now },
    )
unfolding served
served_from_refresh m t now validity calls valid expired fresh =
    let m' : TokenManager = record m { token_ = some t; last_token_refresh = some now } in
    ap (first_served calls) (refreshes m t now (due m now validity valid expired))
    ∙ ap (λ (p : List (Result (Option Text)) × TokenManager). (ok (some t) ∷ p.0, p.1))
        (served_held m' t now validity calls refl refl valid fresh)
