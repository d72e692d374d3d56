-- ===== src/TimeSync/Clock.antt =====
-- The clock that a response of the server sets.
use thingsboard_sdk.Base.{
  ℕ, ◌+◌, ◌-◌, ◌^◌, ◌%◌, ◌≡◌, ◌≤◌, ◌<◌, ◌==◌, ◌++◌, if◌then◌else◌, Bool-cases, inl, inr, Option,
  some, none, length, until_nul, arith,
}
use thingsboard_sdk.Types.{ok, err}
use thingsboard_sdk.Types.Cases.{Result-cases}
use thingsboard_sdk.Platform.{Env, Delivery}
use thingsboard_sdk.World.{World}
use thingsboard_sdk.Codec.{rpc_response_decode}
use thingsboard_sdk.Requests.{event}
use thingsboard_sdk.Time.{time_msec}
use thingsboard_sdk.Time.Timestamp.Laws.{all_digits, decimal, timestamp_from_buf-bits}
use thingsboard_sdk.TimeSync.{set_time, handle_time_response}

-- The timestamp that a response brings: the number that the decoded string denotes.
abbrev pub received : Env → Delivery → Option ℕ
received e d =
    if length d.payload == 0
    then none
    else elim (rpc_response_decode e d.payload (d.payload ++ d.beyond)) [
      | err _ ↦ none
      | ok s ↦ if all_digits (until_nul s) then some (decimal (until_nul s)) else none
    ]

module _ (e : Env) where
  -- The time context that a timestamp sets.
  handle_time_response-time :
      (d : Delivery) (ts : ℕ) (w : World)
      → received e d ≡ some ts
      → ((handle_time_response e d w).0.time.tb_time ≡ ts % 2 ^ 64)
        × ((handle_time_response e d w).0.time.own_time ≡ e.uptime w.history)
  unfolding handle_time_response set_time event
  handle_time_response-time d ts w h = elim (Bool-cases (length d.payload == 0)) [
    | inl p ↦ ground arith
    | inr p ↦ elim (Result-cases (rpc_response_decode e d.payload (d.payload ++ d.beyond))) [
      | inl (s, q) ↦
          rw (p, q, handle_time_response) (ground (arith, timestamp_from_buf-bits (until_nul s)))
      | inr (x, q) ↦ ground arith
    ]
  ]

  clock :
      (now own ts : ℕ)
      → own ≤ now
      → now < 2 ^ 64
      → (now + 2 ^ 64 - own + ts % 2 ^ 64) % 2 ^ 64 ≡ (ts + (now - own)) % 2 ^ 64
  clock now own ts a b = omega arith

  -- Where a response brings a timestamp, and as long as the time context stays as the response left
  -- it and the uptime does not run backwards and fits 64 bits, thingsboard_time_msec returns the
  -- timestamp plus the uptime that has passed since the response, modulo 2^64. A timestamp past the
  -- range of int64, whose parsing C leaves undefined, is taken with its bits wrapped around.
  pub time_msec-synced :
      (d : Delivery) (ts : ℕ) (w v : World)
      → received e d ≡ some ts
      → v.time ≡ (handle_time_response e d w).0.time
      → e.uptime w.history ≤ e.uptime v.history
      → e.uptime v.history < 2 ^ 64
      → (time_msec e v).1 ≡ (ts + (e.uptime v.history - e.uptime w.history)) % 2 ^ 64
  unfolding time_msec
  time_msec-synced d ts w v r t a b = ground (
    arith,
    handle_time_response-time d ts w r,
    clock (e.uptime v.history) (e.uptime w.history) ts a b,
  )
