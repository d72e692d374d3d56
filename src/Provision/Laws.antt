-- ===== src/Provision/Laws.antt =====
-- A token that was obtained is found again.
use thingsboard_sdk.Base.{
  take-append, length-take, append-nil, sym, ◌-◌, ◌∙◌, take, append_assoc, ◌≤◌, ℕ, zero, suc, ◌<◌,
  ◌≡◌, refl, ap, Bool, true, not, ◌&&◌, ◌==◌, [], ◌∷◌, ◌++◌, Bytes, ascii, length, drop, until_nul,
  some, none, Option, inl, inr, arith, length-append,
}
use thingsboard_sdk.Types.{ok, err, ReturnCode}
use thingsboard_sdk.Platform.{Entry, ProvisionResponse}
use thingsboard_sdk.Platform.{Env, Delivery}
use thingsboard_sdk.World.{World}
use thingsboard_sdk.Types.Cases.{Result-cases}
use thingsboard_sdk.Requests.{request_free}
use thingsboard_sdk.Provision.{
  overwritten, access_token_array, process_prov_resp, take_response, handle_prov_resp,
  access_token_size, stored_token, token_settings_set, accepted_token,
}

-- Whether the bytes are those of a C string.
abbrev pub is_c_string : Bytes → Bool
is_c_string [] = true
is_c_string (c ∷ cs) = not (c == 0) && is_c_string cs

until_nul-stored :
    (token rest : Bytes) → is_c_string token ≡ true → until_nul (stored_token token ++ rest) ≡ token
until_nul-stored [] rest h = refl
until_nul-stored (zero ∷ cs) rest h = ground arith
until_nul-stored (suc c ∷ cs) rest h = ap (λ x. suc c ∷ x) (until_nul-stored cs rest (ground arith))

accepted_token-length :
    (r : ProvisionResponse) (token : Bytes)
    → accepted_token r ≡ some token
    → length token < access_token_size
unfolding accepted_token
accepted_token-length r token h = ground arith

-- The entry `token` with a value that can be read.
abbrev pub token_entry : Bytes → Entry
token_entry value = record {
  name = ascii "token";
  len = length value;
  written = value;
  read = ok (length value);
}

overwritten-stored :
    (token z buffer : Bytes)
    → is_c_string token ≡ true
    → overwritten (stored_token token ++ z) buffer ≡ token
overwritten-stored token z buffer c =
    let y = drop (length (stored_token token ++ z)) (stored_token buffer) in
    ap until_nul (append_assoc (stored_token token) z y) ∙ until_nul-stored token (z ++ y) c

set_entry-fits :
    (value buffer token : Bytes)
    → length value ≤ access_token_size
    → overwritten value buffer ≡ token
    → token_settings_set (token_entry value) buffer ≡ (ok 0, token)
unfolding token_settings_set
set_entry-fits value buffer token h o = ground arith

-- A token that client_handle_prov_resp accepts is the one that token_settings_set reads back, whatever
-- the buffer holds, both from what client_handle_prov_resp saves and from the array that
-- token_settings_export stores.
pub stored_token-round_trip :
    (r : ProvisionResponse) (token rest buffer : Bytes)
    → accepted_token r ≡ some token
    → is_c_string token ≡ true
    → (token_settings_set (token_entry (stored_token token)) buffer ≡ (ok 0, token))
      × (token_settings_set (token_entry (access_token_array token rest)) buffer ≡ (ok 0, token))
stored_token-round_trip r token rest buffer h c =
    let l = accepted_token-length r token h in
    let m = length-append token (0 ∷ []) in
    let k : length (stored_token token) ≤ access_token_size = omega (arith, l, m) in
    let z = take (access_token_size - length (stored_token token)) rest in
    let o = overwritten-stored token z buffer c in
    (
      set_entry-fits (stored_token token) buffer token k (
          ap (λ x. overwritten x buffer) (sym (append-nil (stored_token token)))
          ∙ overwritten-stored token [] buffer c),
      set_entry-fits (access_token_array token rest) buffer token
          (length-take access_token_size (stored_token token ++ rest))
          (ap (λ x. overwritten x buffer)
              (take-append access_token_size (stored_token token) rest k)
            ∙ o),
    )

-- The token that a result and a payload bring, if client_handle_prov_resp accepts it.
abbrev pub token_in : Env → ReturnCode → Bytes → Option Bytes
token_in e (err _) payload = none
token_in e (ok _) payload = elim (e.provision_response_from_json payload) [
  | err _ ↦ none
  | ok response ↦ accepted_token response
]

module _ (e : Env) (prov_callback : Bytes → World → World × (Unit {0})) where
  process_prov_resp-none :
      (res : ReturnCode) (payload : Bytes) (w : World)
      → token_in e res payload ≡ none
      → process_prov_resp e prov_callback res payload w ≡ (w, tt)
  unfolding process_prov_resp
  process_prov_resp-none (err x) payload w h = refl
  process_prov_resp-none (ok n) payload w h =
      elim (Result-cases (e.provision_response_from_json payload)) [
        | inl (response, p) ↦
            let g : accepted_token response ≡ none = ground arith in
            rw (p, process_prov_resp, take_response) (rw (g, take_response) refl)
        | inr (x, p) ↦ rw (p, process_prov_resp) refl
      ]

  -- A response without a token does not move the client.
  pub handle_prov_resp-none :
      (d : Delivery) (r : ℕ) (w : World)
      → token_in e d.result_code d.payload ≡ none
      → (handle_prov_resp e prov_callback d r w).0.client.state ≡ w.client.state
  unfolding handle_prov_resp request_free
  handle_prov_resp-none d r w h = ground (arith, process_prov_resp-none d.result_code d.payload w h)
