-- ===== src/Provision.antt =====
-- src/provision.c: the access token in settings, and its request from the server. `prov_callback`
-- stands for the callback that src/thingsboard.c passes, and gets the token.
pub mod Balance
pub mod Sized
pub mod Frame
pub mod Keeps
pub mod Still
pub mod Laws
use thingsboard_sdk.Base.{
  ℕ, ◌+◌, Bool, true, false, Option, none, some, List, [], ◌∷◌, ◌++◌, Bytes, ascii, bytes_eq,
  until_nul, length, drop, take, ltb, if◌then◌else◌,
}
use thingsboard_sdk.Types.{
  Result, ok, err, ReturnCode, Errno, einval, enoent, enomem, efault, CoapRequest, Request, post,
  app_json, prov_resp,
}
use thingsboard_sdk.Platform.{
  Env, Delivery, Entry, ProvisionResponse, settings_subsys_init, settings_load, settings_save_one,
}
use thingsboard_sdk.World.{World, M, ◌>>=◌, ◌>>◌, pure, done, ask, when, get_world, modify_request}
use thingsboard_sdk.Requests.{request_alloc, request_free, send_coap}
use thingsboard_sdk.Fota.{is_zero}

-- sizeof(access_token)
abbrev pub access_token_size : ℕ
access_token_size = 30

-- What is saved: the token with its NUL.
abbrev pub stored_token : Bytes → Bytes
stored_token token = token ++ 0 ∷ []

-- The token in the buffer, behind a read callback that wrote bytes at its start.
abbrev pub overwritten : Bytes → Bytes → Bytes
overwritten written token = until_nul (written ++ drop (length written) (stored_token token))

-- token_settings_set: what it returns, and the token that is then in the buffer.
unfoldable pub token_settings_set : Entry → Bytes → ReturnCode × Bytes
token_settings_set entry token =
    if bytes_eq entry.name (ascii "token")
    then if ltb access_token_size entry.len
      then (err einval, token)
      else (elim entry.read [ err x ↦ err x | ok _ ↦ ok 0 ], overwritten entry.written token)
    else (err enoent, token)

-- THINGSBOARD_TOKEN_SETTINGS_KEY
abbrev pub token_settings_key : Bytes
token_settings_key = ascii "thingsboard/token"

-- `access_token` as an array. `rest` is what stands behind the NUL of the token.
abbrev pub access_token_array : Bytes → Bytes → Bytes
access_token_array token rest = take access_token_size (stored_token token ++ rest)

-- token_settings_export
unfoldable pub token_settings_export : (Bytes → Bytes → ReturnCode) → Bytes → Bytes → ReturnCode
token_settings_export storage_func token rest =
    storage_func token_settings_key (access_token_array token rest)

-- settings_load hands each stored entry to the handler; the handler's errors end no loading.
unfoldable pub load_entries : List Entry → Bytes → Bytes
unfolding token_settings_set
load_entries [] token = token
load_entries (entry ∷ entries) token = load_entries entries (token_settings_set entry token).1

-- The checks of client_handle_prov_resp, in order: the token of a response that passes them.
unfoldable pub accepted_token : ProvisionResponse → Option Bytes
accepted_token r = elim r.status [
  | none ↦ none
  | some status ↦
      if bytes_eq status (ascii "SUCCESS")
      then elim r.credentials_type [
        | none ↦ none
        | some type ↦
            if bytes_eq type (ascii "ACCESS_TOKEN")
            then elim r.credentials_value [
              | none ↦ none
              | some value ↦ if ltb (length value) access_token_size then some value else none
            ]
            else none
      ]
      else none
]

-- request_fmt
abbrev pub provision_text : Bytes → Bytes → Bytes → Bytes
provision_text device_name key secret =
    ascii "{\"deviceName\": \""
    ++ (device_name
        ++ (ascii "\",\"provisionDeviceKey\": \""
            ++ (key ++ (ascii "\",\"provisionDeviceSecret\": \"" ++ (secret ++ ascii "\"}")))))

module _ (e : Env) where
  provision_coap_request : ℕ → World → CoapRequest
  provision_coap_request r w = record {
    confirmable = true;
    method = post;
    path = ascii "/api/v1/provision";
    options = [];
    payload = (w.slab r).payload;
    fmt = some app_json;
    cb = prov_resp;
    user_data = r;
  }

  post_provision : ℕ → M ReturnCode
  unfolding provision_coap_request
  post_provision r = do
    w ← get_world
    res ← send_coap e (provision_coap_request r w)
    elim res [ err _ ↦ (do request_free (some r); pure (err efault)) | ok _ ↦ pure (ok 0) ]

  print_provision : Bytes → ℕ → M ReturnCode
  unfolding post_provision
  print_provision device_name r =
      let text =
        provision_text device_name e.kconfig.provisioning_key e.kconfig.provisioning_secret in
      if ltb (length text) e.kconfig.coap_client_message_size
      then (do modify_request r (λ q. record q { payload = text }); post_provision r)
      else (do request_free (some r); pure (err enomem))

  -- make_provisioning_request
  unfoldable pub make_provisioning_request : Bytes → M ReturnCode
  unfolding print_provision
  make_provisioning_request device_name = do
    request ← request_alloc e
    elim request [ none ↦ pure (err enomem) | some r ↦ print_provision device_name r ]

module _ (e : Env) (prov_callback : Bytes → World → World × (Unit {0})) where
  -- The token is kept and saved, and the callback called if there is one.
  take_token : Bytes → M (Unit {0})
  take_token token w =
      (do
        ask (λ h. e.settings_save_result h (stored_token token))
            (settings_save_one (stored_token token))
        when w.prov_cb (prov_callback token))
        (record w { prov_token = token })

  take_response : ProvisionResponse → M (Unit {0})
  unfolding take_token accepted_token
  take_response response = elim (accepted_token response) [
    | none ↦ done
    | some token ↦ take_token token
  ]

  -- client_handle_prov_resp in front of `out`
  pub process_prov_resp : ReturnCode → Bytes → M (Unit {0})
  unfolding take_response
  process_prov_resp (err _) payload = done
  process_prov_resp (ok _) payload = elim (e.provision_response_from_json payload) [
    | err _ ↦ done
    | ok response ↦ take_response response
  ]

  -- client_handle_prov_resp
  unfoldable pub handle_prov_resp : Delivery → ℕ → M (Unit {0})
  unfolding process_prov_resp
  handle_prov_resp d r = do
    process_prov_resp d.result_code d.payload
    when d.last_block (request_free (some r))

  use_token : Bytes → Bytes → M ReturnCode
  use_token device_name [] = make_provisioning_request e device_name
  use_token device_name (c ∷ cs) = do prov_callback (c ∷ cs); pure (ok 0)

  load_token : Bytes → M ReturnCode
  unfolding use_token load_entries
  load_token device_name w =
      let r = ask e.settings_load_result settings_load w in
      let token = load_entries (e.stored w.history) w.prov_token in
      let w' = record (r.0) { prov_token = token } in
      if is_zero r.1 then use_token device_name token w' else (w', r.1)

  -- thingsboard_provision_device
  unfoldable pub provision_device : Bytes → M ReturnCode
  unfolding load_token
  provision_device device_name w =
      (do
        res ← ask e.settings_init_result settings_subsys_init
        if is_zero res then load_token device_name else pure res)
        (record w { prov_cb = true })
