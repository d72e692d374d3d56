-- ===== src/Fota/Balance.antt =====
-- The handling of the image's blocks keeps no request block.
use thingsboard_sdk.Base.{ℕ, arith}
use thingsboard_sdk.Platform.{Env, Delivery}
use thingsboard_sdk.World.{World}
use thingsboard_sdk.Requests.{request_free}
use thingsboard_sdk.Requests.Balance.{SlabIsBounded, Balanced}
use thingsboard_sdk.Telemetry.Balance.{send_telemetry-Balanced}
use thingsboard_sdk.Requests.Traffic.{Quiet→Balanced, Balanced-transitive}
use thingsboard_sdk.Fota.Keeps.{process_chunk-Keeps}
use thingsboard_sdk.Rpc.Balance.{FreesLast}
use thingsboard_sdk.Fota.{handle_fw_chunk}

module _ (e : Env) (bounded : SlabIsBounded e) (k : ℕ) where
  pub handle_fw_chunk-FreesLast :
      (d : Delivery) (r : ℕ) (w : World) → FreesLast k w (handle_fw_chunk e d r w).0 d r
  unfolding handle_fw_chunk request_free
  handle_fw_chunk-FreesLast d r w = ground (
    arith,
    process_chunk-Keeps e (Balanced k) (Quiet→Balanced k) (Balanced-transitive k)
        (λ t u. send_telemetry-Balanced e k t u bounded) d w,
  )
