-- ===== src/System/Stuck.antt =====
-- A client whose provisioning gave no token.
use thingsboard_sdk.Base.{
  some, Bytes, none, Option, ℕ, ◌≡◌, refl, ◌∙◌, subst, Bool, true, false, ◌&&◌, List, [], ◌∷◌,
  arith,
}
use thingsboard_sdk.Types.{
  attribute_notification, response, rpc_response, fw_chunk, prov_resp, init, connecting, connected,
  suspended, disconnected, ThingsboardState,
}
use thingsboard_sdk.Platform.{Env, Delivery, callback}
use thingsboard_sdk.World.{World, emit}
use thingsboard_sdk.Client.Start.{prov_callback}
use thingsboard_sdk.Provision.Laws.{token_in, handle_prov_resp-none}
use thingsboard_sdk.Client.Deliver.{handle, deliver}
use thingsboard_sdk.System.{
  Operation, initializes, connects, disconnects, suspends, resumes, sends_telemetry,
  sends_telemetry_buf, sends_timeseries, delivers, requests_time, operate, run,
}
use thingsboard_sdk.System.Lifecycle.{may_move, same_state, operate-may_move}

abbrev pub is_none : Option Bytes → Bool
is_none none = true
is_none (some x) = false

-- Whether the operation is other than a response with a token to a provisioning request.
abbrev pub brings_no_token : Env → Operation → Bool
brings_no_token e (delivers prov_resp d r) = is_none (token_in e d.result_code d.payload)
brings_no_token e _ = true

abbrev pub bring_no_token : Env → List Operation → Bool
bring_no_token e [] = true
bring_no_token e (o ∷ os) = brings_no_token e o && bring_no_token e os

is_none-none : (t : Option Bytes) → is_none t ≡ true → t ≡ none
is_none-none none h = refl
is_none-none (some x) h = cc

same_state-connecting : (t : ThingsboardState) → same_state connecting t ≡ true → t ≡ connecting
same_state-connecting init h = cc
same_state-connecting connecting h = refl
same_state-connecting connected h = cc
same_state-connecting suspended h = cc
same_state-connecting disconnected h = cc

module _ (e : Env) where
  no_token-same :
      (d : Delivery) (r : ℕ) (w : World)
      → is_none (token_in e d.result_code d.payload) ≡ true
      → (deliver e prov_resp d r w).0.client.state ≡ w.client.state
  unfolding deliver handle
  no_token-same d r w h =
      handle_prov_resp-none e (prov_callback e) d r
        (emit (callback prov_resp d.result_code d.last_block r) w).0
        (is_none-none (token_in e d.result_code d.payload) h)

  -- The only move that the machine allows from CONNECTING.
  settled :
      (o : Operation) (w : World)
      → w.client.state ≡ connecting
      → ((t : ThingsboardState) → may_move o connecting t ≡ true → t ≡ connecting)
      → (operate e o w).client.state ≡ connecting
  settled o w p only =
      only (operate e o w).client.state
        (subst (λ s. may_move o s (operate e o w).client.state ≡ true) p (operate-may_move e o w))

  -- A move of the abstract machine that is no answer to a provisioning request.
  stays-connecting :
      (o : Operation) (w : World)
      → brings_no_token e o ≡ true
      → w.client.state ≡ connecting
      → (operate e o w).client.state ≡ connecting
  unfolding operate
  stays-connecting (initializes c) w b p = settled (initializes c) w p same_state-connecting
  stays-connecting connects w b p = settled connects w p same_state-connecting
  stays-connecting disconnects w b p = settled disconnects w p same_state-connecting
  stays-connecting suspends w b p = settled suspends w p same_state-connecting
  stays-connecting resumes w b p = settled resumes w p same_state-connecting
  stays-connecting (sends_telemetry t) w b p = settled (sends_telemetry t) w p same_state-connecting
  stays-connecting (sends_telemetry_buf x) w b p =
      settled (sends_telemetry_buf x) w p same_state-connecting
  stays-connecting (sends_timeseries ts) w b p =
      settled (sends_timeseries ts) w p same_state-connecting
  stays-connecting requests_time w b p = settled requests_time w p same_state-connecting
  stays-connecting (delivers attribute_notification d r) w b p =
      settled (delivers attribute_notification d r) w p same_state-connecting
  stays-connecting (delivers response d r) w b p =
      settled (delivers response d r) w p same_state-connecting
  stays-connecting (delivers rpc_response d r) w b p =
      settled (delivers rpc_response d r) w p same_state-connecting
  stays-connecting (delivers fw_chunk d r) w b p =
      settled (delivers fw_chunk d r) w p same_state-connecting
  stays-connecting (delivers prov_resp d r) w b p = no_token-same d r w b ∙ p

  -- A connecting client is still connecting after any sequence of operations in which no response
  -- to a provisioning request brings a token that is accepted.
  pub run-connecting :
      (os : List Operation) (w : World)
      → bring_no_token e os ≡ true
      → w.client.state ≡ connecting
      → (run e os w).client.state ≡ connecting
  unfolding run
  run-connecting [] w b p = p
  run-connecting (o ∷ os) w b p =
      run-connecting os (operate e o w) (ground arith) (stays-connecting o w (ground arith) p)
