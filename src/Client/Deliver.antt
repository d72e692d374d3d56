-- ===== src/Client/Deliver.antt =====
-- The handlers that the CoAP client calls, by their names, and the work item of the time.
use thingsboard_sdk.Base.{ℕ}
use thingsboard_sdk.Types.{
  Handler, attribute_notification, response, rpc_response, fw_chunk, prov_resp,
}
use thingsboard_sdk.Platform.{Env, Delivery, callback}
use thingsboard_sdk.World.{M, ◌>>◌, emit}
use thingsboard_sdk.Rpc.{handle_response, handle_rpc_response}
use thingsboard_sdk.TimeSync.{run_rpc_callback}
use thingsboard_sdk.Fota.{handle_fw_chunk}
use thingsboard_sdk.Provision.{handle_prov_resp}
use thingsboard_sdk.Attributes.{handle_attribute_notification}
use thingsboard_sdk.Client.Start.{prov_callback}

module _ (e : Env) where
  unfoldable pub handle : Handler → Delivery → ℕ → M (Unit {0})
  handle attribute_notification d r = handle_attribute_notification e d r
  handle response d r = handle_response d r
  handle rpc_response d r = handle_rpc_response (run_rpc_callback e) d r
  handle fw_chunk d r = handle_fw_chunk e d r
  handle prov_resp d r = handle_prov_resp e (prov_callback e) d r

  -- The CoAP client calls the handler of a request.
  unfoldable pub deliver : Handler → Delivery → ℕ → M (Unit {0})
  unfolding handle
  deliver h d r = do emit (callback h d.result_code d.last_block r); handle h d r
