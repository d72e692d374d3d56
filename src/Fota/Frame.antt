-- ===== src/Fota/Frame.antt =====
-- The handling of the image's blocks changes no state of the client.
use thingsboard_sdk.Base.{ℕ, none, some, Bytes, arith}
use thingsboard_sdk.Types.{
  FwState, downloading, downloaded, verified, updating, updated, failed, idle,
}
use thingsboard_sdk.Platform.{Env, Delivery}
use thingsboard_sdk.World.{World}
use thingsboard_sdk.World.Keeps.{Keeps}
use thingsboard_sdk.Requests.{request_free}
use thingsboard_sdk.Requests.Frame.{Still}
use thingsboard_sdk.Telemetry.Frame.{send_telemetry-Still}
use thingsboard_sdk.Fota.{
  set_fw, state_str, report_state, set_fw_state, install, fw_apply, advance, write_chunk,
  reject_image, first_chunk, fw_chunk_process, chunk_state, react, handle_fw_chunk,
}

module _ (e : Env) where
  pub set_fw_state-Still : (s : FwState) → Keeps Still (set_fw_state e s)
  unfolding set_fw_state report_state
  set_fw_state-Still s w = ground (
    arith,
    send_telemetry-Still e
        (record {
          fw_state = some (state_str s);
          current_fw_title = none;
          current_fw_version = none;
        })
        (set_fw s w).0,
  )

  fw_apply-Still : Keeps Still (fw_apply e)
  unfolding fw_apply install
  fw_apply-Still w = grind (arith, set_fw_state-Still)

  react-Still : (s : FwState) → Keeps Still (react e s)
  unfolding react
  react-Still downloading w = ground arith
  react-Still downloaded w = fw_apply-Still w
  react-Still failed w = ground arith
  react-Still verified w = ground arith
  react-Still updating w = ground arith
  react-Still updated w = ground arith
  react-Still idle w = ground arith

  write_chunk-Still : (buf : Bytes) → Keeps Still (write_chunk e buf)
  unfolding write_chunk advance
  write_chunk-Still buf w = ground arith

  first_chunk-Still : (buf : Bytes) → Keeps Still (first_chunk e buf)
  unfolding first_chunk reject_image
  first_chunk-Still buf w = grind (arith, write_chunk-Still)

  chunk_state-Still : (d : Delivery) → Keeps Still (chunk_state e d)
  unfolding chunk_state fw_chunk_process
  chunk_state-Still d w =
      ground (arith, first_chunk-Still d.payload w, write_chunk-Still d.payload w)

  pub handle_fw_chunk-Still :
      (d : Delivery) (r : ℕ) (w : World) → Still w (handle_fw_chunk e d r w).0
  unfolding handle_fw_chunk request_free
  handle_fw_chunk-Still d r w =
      let c = chunk_state e d w in
      let s = set_fw_state e c.1 c.0 in
      ground (arith, chunk_state-Still d w, set_fw_state-Still c.1 c.0, react-Still c.1 s.0)
