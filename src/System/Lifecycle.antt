-- ===== src/System/Lifecycle.antt =====
-- The life of the client as an abstract machine, which the SDK follows.
use thingsboard_sdk.Base.{
  some, ℕ, ◌≡◌, refl, ◌⊎◌, inl, inr, Bool, true, ◌||◌, ◌==◌, List, [], ◌∷◌, Option, arith,
}
use thingsboard_sdk.Suspend.{socket_suspend, socket_resume}
use thingsboard_sdk.Requests.{lock}
use thingsboard_sdk.Client.Api.Outcome.{is_err}
use thingsboard_sdk.Types.{
  Kconfig, ReturnCode, Handler, attribute_notification, response, rpc_response, fw_chunk, prov_resp,
  ThingsboardState, init, connecting, connected, suspended, disconnected,
}
use thingsboard_sdk.Platform.{Env, Delivery, callback}
use thingsboard_sdk.World.{World, emit}
use thingsboard_sdk.Telemetry.Frame.{send_telemetry-Still, send_telemetry_buf-Still}
use thingsboard_sdk.Telemetry.Timeseries.Frame.{send_timeseries-Still}
use thingsboard_sdk.Rpc.Frame.{handle_response-Still, handle_rpc_response-Still}
use thingsboard_sdk.TimeSync.{run_rpc_callback}
use thingsboard_sdk.TimeSync.Frame.{run_rpc_callback-Still, request_time-Still}
use thingsboard_sdk.Fota.Frame.{handle_fw_chunk-Still}
use thingsboard_sdk.Requests.{request_free}
use thingsboard_sdk.Requests.Traffic.{freed-Framed}
use thingsboard_sdk.Provision.Keeps.{handle_prov_resp-Keeps}
use thingsboard_sdk.Attributes.Frame.{handle_attribute_notification-Steady}
use thingsboard_sdk.Client.Start.{state_number, prov_callback}
use thingsboard_sdk.Client.Start.Keeps.{is_final}
use thingsboard_sdk.Client.Moved.{Moved, Moved-then, Framed→Moved, prov_callback-Moved}
use thingsboard_sdk.Client.Api.Outcome.{
  Disconnects, Moves, suspend-Moves, resume-Moves, disconnect-Disconnects,
}
use thingsboard_sdk.Client.Api.Connect.{
  Initializes, Connects, is_started, connect-Connects, initialize-Initializes,
}
use thingsboard_sdk.Client.Deliver.{handle, deliver}
use thingsboard_sdk.System.{
  request_time, send_timeseries, send_telemetry_buf, send_telemetry, resume, suspend, disconnect,
  Configuration, connect, initialize, Operation, initializes, connects, disconnects, suspends,
  resumes, sends_telemetry, sends_telemetry_buf, sends_timeseries, delivers, requests_time, operate,
  run,
}

abbrev pub same_state : ThingsboardState → ThingsboardState → Bool
same_state s t = state_number s == state_number t

-- The abstract machine: whether an operation may take the client from one state to the other. Only
-- the calls named here and the response to a provisioning request move it.
abbrev pub may_move : Operation → ThingsboardState → ThingsboardState → Bool
may_move (initializes c) init t = same_state init t || is_started t
may_move connects disconnected t = is_started t
may_move disconnects connected t = same_state disconnected t
may_move disconnects suspended t = same_state disconnected t
may_move suspends connected t = same_state connected t || same_state suspended t
may_move resumes suspended t = same_state connected t || same_state suspended t
may_move (delivers prov_resp d r) s t = same_state s t || is_final t
may_move _ s t = same_state s t

-- A sequence of operations leads from state to state by such moves.
pub data Route : List Operation → ThingsboardState → ThingsboardState → Type 0 where
  here : {s : ThingsboardState} → Route [] s s
  next :
      {o : Operation} {os : List Operation} {s t u : ThingsboardState}
      → may_move o s t ≡ true
      → Route os t u
      → Route (o ∷ os) s u

same_state_refl : (s : ThingsboardState) → same_state s s ≡ true
same_state_refl init = refl
same_state_refl connecting = refl
same_state_refl connected = refl
same_state_refl suspended = refl
same_state_refl disconnected = refl

same_of : (s t : ThingsboardState) → t ≡ s → same_state s t ≡ true
same_of s t p = rw p (same_state_refl s)

connects-may_move :
    (s : ThingsboardState) (r : World × ReturnCode)
    → Connects s r
    → may_move connects s r.0.client.state ≡ true
connects-may_move init r h = ground (arith, same_of init r.0.client.state)
connects-may_move connecting r h = ground (arith, same_of connecting r.0.client.state)
connects-may_move connected r h = ground (arith, same_of connected r.0.client.state)
connects-may_move suspended r h = ground (arith, same_of suspended r.0.client.state)
connects-may_move disconnected r h = ground (arith, same_of disconnected r.0.client.state)

disconnects-may_move :
    (s : ThingsboardState) (r : World × ReturnCode)
    → Disconnects s r
    → may_move disconnects s r.0.client.state ≡ true
disconnects-may_move init r h = ground (arith, same_of init r.0.client.state)
disconnects-may_move connecting r h = ground (arith, same_of connecting r.0.client.state)
disconnects-may_move connected r h = ground (arith, same_of connected r.0.client.state)
disconnects-may_move suspended r h = ground (arith, same_of suspended r.0.client.state)
disconnects-may_move disconnected r h = ground (arith, same_of disconnected r.0.client.state)

suspends-may_move :
    (b : Bool) (s : ThingsboardState) (r : World × ReturnCode)
    → Moves connected suspended b s r
    → may_move suspends s r.0.client.state ≡ true
suspends-may_move b init r h = ground (arith, same_of init r.0.client.state)
suspends-may_move b connecting r h = ground (arith, same_of connecting r.0.client.state)
suspends-may_move b connected r h = ground (arith, same_of connected r.0.client.state)
suspends-may_move b suspended r h = ground (arith, same_of suspended r.0.client.state)
suspends-may_move b disconnected r h = ground (arith, same_of disconnected r.0.client.state)

resumes-may_move :
    (b : Bool) (s : ThingsboardState) (r : World × ReturnCode)
    → Moves suspended connected b s r
    → may_move resumes s r.0.client.state ≡ true
resumes-may_move b init r h = ground (arith, same_of init r.0.client.state)
resumes-may_move b connecting r h = ground (arith, same_of connecting r.0.client.state)
resumes-may_move b connected r h = ground (arith, same_of connected r.0.client.state)
resumes-may_move b suspended r h = ground (arith, same_of suspended r.0.client.state)
resumes-may_move b disconnected r h = ground (arith, same_of disconnected r.0.client.state)

initializes-may_move :
    (k : Kconfig) (c : Option Configuration) (s : ThingsboardState) (w : World)
    (r : World × ReturnCode)
    → w.client.state ≡ s
    → Initializes k c w r
    → may_move (initializes c) s r.0.client.state ≡ true
initializes-may_move k c init w r p h = ground (arith, same_of init r.0.client.state)
initializes-may_move k c connecting w r p h = ground (arith, same_of connecting r.0.client.state)
initializes-may_move k c connected w r p h = ground (arith, same_of connected r.0.client.state)
initializes-may_move k c suspended w r p h = ground (arith, same_of suspended r.0.client.state)
initializes-may_move k c disconnected w r p h =
    ground (arith, same_of disconnected r.0.client.state)

module _ (e : Env) where
  -- The handlers but that of the provisioning move nothing.
  prov_resp-Moved : (d : Delivery) (r : ℕ) (w : World) → Moved w (deliver e prov_resp d r w).0
  unfolding deliver handle
  prov_resp-Moved d r w =
      handle_prov_resp-Keeps e (prov_callback e) Moved (λ v u c. Framed→Moved v u (c.0)) Moved-then
        (prov_callback-Moved e)
        (λ q v. Framed→Moved v (request_free (some q) v).0 (freed-Framed q v)) d r
        (emit (callback prov_resp d.result_code d.last_block r) w).0

  deliver-same :
      (h : Handler) (d : Delivery) (r : ℕ) (w : World)
      → (h ≡ prov_resp) ⊎ ((deliver e h d r w).0.client.state ≡ w.client.state)
  unfolding deliver handle
  deliver-same attribute_notification d r w =
      inr
        ((handle_attribute_notification-Steady e d r
            (emit (callback attribute_notification d.result_code d.last_block r) w).0).0
          ).0
  deliver-same response d r w =
      inr
        ((handle_response-Still d r (emit (callback response d.result_code d.last_block r) w).0).0
          ).0
  deliver-same rpc_response d r w =
      inr
        ((handle_rpc_response-Still (run_rpc_callback e) (run_rpc_callback-Still e) d r
            (emit (callback rpc_response d.result_code d.last_block r) w).0).0
          ).0
  deliver-same fw_chunk d r w =
      inr
        ((handle_fw_chunk-Still e d r (emit (callback fw_chunk d.result_code d.last_block r) w).0).0
          ).0
  deliver-same prov_resp d r w = inl refl

  deliver-may_move :
      (h : Handler) (d : Delivery) (r : ℕ) (w : World)
      → may_move (delivers h d r) w.client.state (deliver e h d r w).0.client.state ≡ true
  deliver-may_move prov_resp d r w = ground (
    arith,
    prov_resp-Moved d r w,
    same_of w.client.state (deliver e prov_resp d r w).0.client.state,
  )
  deliver-may_move attribute_notification d r w = elim (deliver-same attribute_notification d r w) [
    | inl p ↦ cc
    | inr p ↦ same_of w.client.state (deliver e attribute_notification d r w).0.client.state p
  ]
  deliver-may_move response d r w = elim (deliver-same response d r w) [
    | inl p ↦ cc
    | inr p ↦ same_of w.client.state (deliver e response d r w).0.client.state p
  ]
  deliver-may_move rpc_response d r w = elim (deliver-same rpc_response d r w) [
    | inl p ↦ cc
    | inr p ↦ same_of w.client.state (deliver e rpc_response d r w).0.client.state p
  ]
  deliver-may_move fw_chunk d r w = elim (deliver-same fw_chunk d r w) [
    | inl p ↦ cc
    | inr p ↦ same_of w.client.state (deliver e fw_chunk d r w).0.client.state p
  ]

  pub operate-may_move :
      (o : Operation) (w : World) → may_move o w.client.state (operate e o w).client.state ≡ true
  unfolding operate
  operate-may_move (initializes c) w =
      initializes-may_move e.kconfig c w.client.state w (initialize e c w) refl
        (initialize-Initializes e c w)
  operate-may_move connects w =
      connects-may_move w.client.state (connect e w) (connect-Connects e w)
  operate-may_move disconnects w =
      disconnects-may_move w.client.state (disconnect e w) (disconnect-Disconnects e w)
  operate-may_move suspends w =
      suspends-may_move (is_err (socket_suspend e (lock w).0).1) w.client.state (suspend e w)
        (suspend-Moves e w)
  operate-may_move resumes w =
      resumes-may_move (is_err (socket_resume e (lock w).0).1) w.client.state (resume e w)
        (resume-Moves e w)
  operate-may_move (sends_telemetry t) w =
      same_of w.client.state (send_telemetry e t w).0.client.state
        ((send_telemetry-Still e t w).0).0
  operate-may_move (sends_telemetry_buf b) w =
      same_of w.client.state (send_telemetry_buf e b w).0.client.state
        ((send_telemetry_buf-Still e b w).0).0
  operate-may_move (sends_timeseries ts) w =
      same_of w.client.state (send_timeseries e ts w).0.client.state
        ((send_timeseries-Still e ts w).0).0
  operate-may_move (delivers h d r) w = deliver-may_move h d r w
  operate-may_move requests_time w =
      same_of w.client.state (request_time e w).0.client.state ((request_time-Still e w).0).0

-- The SDK refines the abstract machine: every sequence of operations leads from state to state by
-- moves that the machine allows, one for each operation.
pub run-Route :
    (e : Env) (os : List Operation) (w : World) → Route os w.client.state (run e os w).client.state
unfolding run
run-Route e [] w = here
run-Route e (o ∷ os) w = next (operate-may_move e o w) (run-Route e os (operate e o w))
