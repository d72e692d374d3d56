-- ===== src/Fota.antt =====
-- Firmware update of src/tb_fota.c: the state that is reported, and the handling of the image's
-- blocks. The start of an update is in the child `Start`.
pub mod Start
pub mod Balance
pub mod Keeps
pub mod Frame
pub mod Chunks
pub mod Download
use thingsboard_sdk.Base.{
  ℕ, ◌+◌, ◌%◌, ◌^◌, Bool, true, false, Option, none, some, Bytes, ascii, length, ltb, ◌==◌,
  if◌then◌else◌,
}
use thingsboard_sdk.Types.{
  Result, ok, err, ReturnCode, FwState, downloading, downloaded, verified, updating, updated,
  failed, idle, Telemetry,
}
use thingsboard_sdk.Platform.{
  Env, Delivery, dfu_identify, dfu_write, dfu_done, dfu_schedule_update, dfu_reset, sys_reboot,
}
use thingsboard_sdk.World.{World, M, ◌>>=◌, ◌>>◌, pure, done, emit, ask, when, modify_fota}
use thingsboard_sdk.Requests.{request_free}
use thingsboard_sdk.Telemetry.{send_telemetry}
use thingsboard_sdk.Rpc.{is_content}

-- state_str
unfoldable pub state_str : FwState → Bytes
state_str downloading = ascii "DOWNLOADING"
state_str downloaded = ascii "DOWNLOADED"
state_str verified = ascii "VERIFIED"
state_str updating = ascii "UPDATING"
state_str updated = ascii "UPDATED"
state_str failed = ascii "FAILED"
state_str idle = ascii "IDLE"

-- The value of the C enum.
abbrev pub fw_number : FwState → ℕ
fw_number downloading = 0
fw_number downloaded = 1
fw_number verified = 2
fw_number updating = 3
fw_number updated = 4
fw_number failed = 5
fw_number idle = 6

abbrev pub set_fw : FwState → M (Unit {0})
set_fw s = modify_fota λ f. record f { fw_state = s }

-- `if (err)`
abbrev pub is_zero : ReturnCode → Bool
is_zero (ok n) = n == 0
is_zero (err _) = false

abbrev pub is_err : ReturnCode → Bool
is_err (ok _) = false
is_err (err _) = true

module _ (e : Env) where
  report_state : FwState → M ReturnCode
  report_state s = do
    set_fw s
    send_telemetry e (record {
      fw_state = some (state_str s);
      current_fw_title = none;
      current_fw_version = none;
    })

  -- client_set_fw_state
  unfoldable pub set_fw_state : FwState → M ReturnCode
  unfolding report_state
  set_fw_state s w =
      if fw_number w.fota.fw_state == fw_number s then (w, ok 0) else report_state s w

  install : M ReturnCode
  install = do set_fw_state updating; emit dfu_schedule_update; emit sys_reboot; pure (ok 0)

  -- fw_apply, whose pauses are left out. What comes after `sys_reboot` is reached only if that
  -- returns.
  unfoldable pub fw_apply : M ReturnCode
  unfolding install
  fw_apply = do
    res ← ask (λ h. e.done_result h true) (dfu_done true)
    elim res [ err x ↦ pure (err x) | ok _ ↦ install ]

  -- The end of fw_chunk_process. `offset` is a 32-bit size_t.
  advance : ℕ → M FwState
  advance size w =
      let offset = (w.fota.offset + size) % 2 ^ 32 in
      (
        record w { fota = record w.fota { offset = offset } },
        if ltb offset w.fota.size then downloading else downloaded,
      )

  write_chunk : Bytes → M FwState
  unfolding advance
  write_chunk buf = do
    res ← ask (λ h. e.write_result h buf) (dfu_write buf)
    if is_zero res then advance (length buf) else pure failed

  reject_image : M FwState
  reject_image = do modify_fota (λ f. record f { size = 0 }); pure failed

  first_chunk : Bytes → M FwState
  unfolding write_chunk reject_image
  first_chunk buf = do
    valid ← ask (λ h. e.identify h buf) dfu_identify
    if valid then write_chunk buf else reject_image

  -- fw_chunk_process
  unfoldable pub fw_chunk_process : Bytes → M FwState
  unfolding first_chunk write_chunk
  fw_chunk_process buf w = (if w.fota.offset == 0 then first_chunk buf else write_chunk buf) w

  -- The part of client_handle_fw_chunk in front of `out`.
  pub chunk_state : Delivery → M FwState
  unfolding fw_chunk_process
  chunk_state d =
      if is_content d.result_code
      then if length d.payload == 0 then pure failed else fw_chunk_process d.payload
      else pure failed

  -- The `switch` of client_handle_fw_chunk.
  pub react : FwState → M (Unit {0})
  react downloading = done
  react downloaded = do fw_apply; done
  react failed = emit dfu_reset
  react _ = done

  -- client_handle_fw_chunk
  unfoldable pub handle_fw_chunk : Delivery → ℕ → M (Unit {0})
  unfolding chunk_state react
  handle_fw_chunk d r = do
    s ← chunk_state d
    set_fw_state s
    react s
    when d.last_block (request_free (some r))
