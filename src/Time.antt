-- ===== src/Time.antt =====
-- The clock of src/tb_time.c.
pub mod Timestamp
use thingsboard_sdk.Base.{ℕ, ◌+◌, ◌-◌, ◌/◌, ◌%◌, ◌^◌}
use thingsboard_sdk.Platform.{Env, k_uptime_get}
use thingsboard_sdk.World.{World, M, ◌>>=◌, pure, ask, get_world}

module _ (e : Env) where
  -- thingsboard_time_msec, on int64 bit patterns
  unfoldable pub time_msec : M ℕ
  time_msec = do
    now ← ask e.uptime k_uptime_get
    w ← get_world
    pure ((now + 2 ^ 64 - w.time.own_time + w.time.tb_time) % 2 ^ 64)

  -- thingsboard_time. The quotient is that of a non-negative int64.
  unfoldable pub time : M ℕ
  time = do msec ← time_msec; pure (msec / 1000)
