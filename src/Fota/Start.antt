-- ===== src/Fota/Start.antt =====
-- The start of a firmware update in src/tb_fota.c, its initialisation, and the confirmation of a
-- new image.
pub mod Balance
pub mod Sized
pub mod Keeps
pub mod Frame
pub mod Laws
use thingsboard_sdk.Base.{
  ℕ, Bool, true, false, Option, none, some, [], ◌∷◌, ◌++◌, Bytes, ascii, bytes_eq, length, ltb,
  ◌==◌, if◌then◌else◌, ◌&&◌, ◌||◌, not,
}
use thingsboard_sdk.Types.{
  Result, ok, err, ReturnCode, enomem, efault, eio, downloading, failed, idle, Telemetry,
  FirmwareInfo, Attributes, FwState, CoapRequest, Request, get, initial_block2, fw_chunk,
}
use thingsboard_sdk.Platform.{
  Env, dfu_done, dfu_set_buf, dfu_init, dfu_offset_get, boot_is_img_confirmed,
  boot_write_img_confirmed,
}
use thingsboard_sdk.World.{
  World, FotaCtx, M, ◌>>=◌, ◌>>◌, pure, done, ask, get_world, modify_fota, modify_request,
}
use thingsboard_sdk.CatPath.{cat_path, short_path}
use thingsboard_sdk.Protobuf.{copy_string}
use thingsboard_sdk.Requests.{request_alloc, request_free, send_coap}
use thingsboard_sdk.Telemetry.{send_telemetry}
use thingsboard_sdk.Fota.{set_fw, set_fw_state}

-- A C string that is read through a pointer. `thingsboard_init` has refused the null pointers.
abbrev pub c_string : Option Bytes → Bytes
c_string none = []
c_string (some s) = s

abbrev pub number : Option ℕ → ℕ
number none = 0
number (some n) = n

abbrev pub is_some {ℓ} : {A : Type ℓ} → Option A → Bool
is_some none = false
is_some (some _) = true

-- Whether the attributes name the firmware that runs.
abbrev pub is_installed : Option FirmwareInfo → Attributes → Bool
is_installed none a = false
is_installed (some fw) a =
    bytes_eq (c_string a.fw_title) (c_string fw.title)
    && bytes_eq (c_string a.fw_version) (c_string fw.version)

abbrev pub is_startable : FwState → Bool
is_startable idle = true
is_startable failed = true
is_startable _ = false

abbrev pub question_title : Bytes
question_title = ascii "?title="

abbrev pub and_version : Bytes
and_version = ascii "&version="

module _ (e : Env) where
  image_request : ℕ → World → CoapRequest
  image_request r w = record {
    confirmable = true;
    method = get;
    path = (w.slab r).payload;
    options = initial_block2 ∷ [];
    payload = [];
    fmt = none;
    cb = fw_chunk;
    user_data = r;
  }

  post_image : ℕ → M ReturnCode
  unfolding image_request
  post_image r = do
    w ← get_world
    res ← send_coap e (image_request r w)
    elim res [ err _ ↦ (do request_free (some r); pure (err eio)) | ok _ ↦ pure (ok 0) ]

  -- What `snprintf` prints behind the path, and its check.
  print_image : ℕ → Bytes → M ReturnCode
  unfolding post_image
  print_image r path w =
      let whole = path ++ (question_title ++ (w.fota.title ++ (and_version ++ w.fota.version))) in
      if ltb (length whole) e.kconfig.coap_client_message_size
      then (do
        modify_request r
            (λ q. record q { path = path; payload = whole; options = initial_block2 ∷ [] })
        post_image r)
          w
      else (do request_free (some r); pure (err efault)) w

  prepare_image : ℕ → M ReturnCode
  unfolding print_image
  prepare_image r w =
      elim (cat_path (short_path e.kconfig w.client (ascii "fw"))
        e.kconfig.request_max_path_length) [
          | err _ ↦ (do request_free (some r); pure (err efault)) w
          | ok p ↦ print_image r p w
        ]

  -- client_fw_request_image
  unfoldable pub fw_request_image : M ReturnCode
  unfolding prepare_image
  fw_request_image = do
    request ← request_alloc e
    elim request [ none ↦ pure (err enomem) | some r ↦ prepare_image r ]

  -- The end of thingsboard_start_fw_update: dfu_target_mcuboot_offset_get and the request.
  continue_at_offset : M (Unit {0})
  continue_at_offset = do
    res ← ask e.offset_get_result dfu_offset_get
    elim res [
      | err _ ↦ done
      | ok offset ↦ (do modify_fota (λ f. record f { offset = offset }); fw_request_image; done)
    ]

  init_target : M (Unit {0})
  unfolding continue_at_offset
  init_target w =
      (do
        res ← ask (λ h. e.init_result h w.fota.size) dfu_init
        elim res [ err _ ↦ done | ok _ ↦ continue_at_offset ])
        w

  -- The part of thingsboard_start_fw_update behind the report.
  open_target : M (Unit {0})
  unfolding init_target
  open_target w =
      (if w.fota.offset == 0
          then (do
            res ← ask e.set_buf_result dfu_set_buf
            elim res [ err _ ↦ done | ok _ ↦ init_target ])
          else (do ask (λ h. e.done_result h false) (dfu_done false); init_target))
        w

  -- The context of the update: a version that is too long is not copied.
  abbrev pub update_ctx : Attributes → FotaCtx → FotaCtx
  update_ctx a f = record f {
    title = c_string a.fw_title;
    version =
        if ltb (length (c_string a.fw_version)) e.kconfig.max_strings_length
        then c_string a.fw_version
        else f.version;
    size = number a.fw_size;
  }

  begin_update : M (Unit {0})
  unfolding open_target
  begin_update w =
      (do
        modify_fota (update_ctx w.client.shared_attributes)
        set_fw_state e downloading
        open_target)
        w

  -- thingsboard_start_fw_update
  unfoldable pub start_fw_update : M (Unit {0})
  unfolding begin_update
  start_fw_update w =
      let a = w.client.shared_attributes in
      if is_startable w.fota.fw_state
        && not (number a.fw_size == 0)
        && not (is_installed w.current_firmware a)
        && ltb (length (c_string a.fw_title)) e.kconfig.max_strings_length
      then begin_update w
      else done w

  -- thingsboard_fota_on_attributes
  unfoldable pub fota_on_attributes : M (Unit {0})
  fota_on_attributes w =
      let a = w.client.shared_attributes in
      if is_some a.fw_title
        && is_some a.fw_version
        && is_some a.fw_size
        && not (is_installed w.current_firmware a)
      then start_fw_update w
      else done w

  -- How a string of the firmware is put into telemetry: as a pointer, or copied.
  abbrev pub telemetry_string : Option Bytes → Bytes
  telemetry_string s =
      if e.kconfig.content_format_json
      then c_string s
      else copy_string e.kconfig.max_strings_length (c_string s)

  firmware_telemetry : Option Bytes → FirmwareInfo → Telemetry
  firmware_telemetry fw_state fw = record {
    fw_state = fw_state;
    current_fw_title = some (telemetry_string fw.title);
    current_fw_version = some (telemetry_string fw.version);
  }

  -- thingsboard_fota_init
  unfoldable pub fota_init : FirmwareInfo → M (Unit {0})
  unfolding firmware_telemetry
  fota_init fw w =
      (do set_fw idle; send_telemetry e (firmware_telemetry none fw); done)
        (record w { current_firmware = some fw })

  report_update : Option FirmwareInfo → M ReturnCode
  unfolding firmware_telemetry
  report_update none = pure (ok 0)
  report_update (some fw) = send_telemetry e (firmware_telemetry (some (ascii "UPDATED")) fw)

  confirm : M ReturnCode
  unfolding report_update
  confirm w =
      (do ask e.write_confirmed_result boot_write_img_confirmed; report_update w.current_firmware) w

  -- thingsboard_fota_confirm_update
  unfoldable pub fota_confirm_update : M ReturnCode
  unfolding confirm
  fota_confirm_update = do
    confirmed ← ask e.img_confirmed boot_is_img_confirmed
    if confirmed then pure (ok 0) else confirm
