-- ===== src/Utils/TokenManager.antt =====
-- `TokenManager` of natsprovider/utils.py: a cached access token. A time is a number of
-- microseconds, and the outcome of `_refresh_token` (a file or an HTTP request) is an argument.
pub mod Caching
use interlink_condorce_plugi.Prelude.{
  ℕ, ◌+◌, ◌-◌, ◌*◌, ◌/◌, ◌%◌, Text, Option, none, some, Bool, true, false, ◌||◌, is_none, ltb, leb,
  Result, ok, err, value_error, if◌then◌else◌,
}

pub record TokenManager : Type 0 where
  pub iam_issuer : Option Text
  pub refresh_token : Option Text
  pub iam_client_id : Option Text
  pub iam_client_secret : Option Text
  pub token_validity_seconds : Option ℕ
  pub bearer_token_path : Option Text
  pub last_token_refresh : Option ℕ
  pub token_ : Option Text

-- `__init__` on the fields that its arguments give
unfoldable pub init : TokenManager → Result TokenManager
init given =
    let m = record given { last_token_refresh = none; token_ = none } in
    elim given.bearer_token_path [
      | some path ↦ ok (record m { token_validity_seconds = some 0 })
      | none ↦
          if is_none m.iam_issuer
            || is_none m.refresh_token
            || is_none m.iam_client_id
            || is_none m.iam_client_secret
            || is_none m.token_validity_seconds
          then err value_error
          else ok m
    ]

abbrev pub second : ℕ
second = 1_000_000

abbrev pub day : ℕ
day = 86_400 * second

-- `(now - since).seconds`: the seconds of a timedelta without its days, which may be negative
unfoldable pub seconds_part : ℕ → ℕ → ℕ
seconds_part now since =
    if leb since now
    then (now - since) % day / second
    else (day - (since - now) % day) % day / second

-- the age test of the property `token`
unfoldable pub is_older : ℕ → ℕ → ℕ → Bool
unfolding seconds_part
is_older now since validity = ltb validity (seconds_part now since)

-- After `init` the validity is always set.
unfoldable pub is_due : ℕ → TokenManager → Bool
unfolding is_older
is_due now m = elim m.token_ [
  | none ↦ true
  | some t ↦ elim m.last_token_refresh [
    | none ↦ true
    | some since ↦ elim m.token_validity_seconds [
      | none ↦ true
      | some validity ↦ is_older now since validity
    ]
  ]
]

-- `self._last_token_refresh = now` comes before the call that may raise.
unfoldable pub renew : ℕ → Result Text → TokenManager → Result (Option Text) × TokenManager
renew now (ok t) m = (ok (some t), record m { last_token_refresh = some now; token_ = some t })
renew now (err e) m = (err e, record m { last_token_refresh = some now })

unfoldable pub token : ℕ → Result Text → TokenManager → Result (Option Text) × TokenManager
unfolding is_due renew
token now refreshed m = if is_due now m then renew now refreshed m else (ok m.token_, m)
