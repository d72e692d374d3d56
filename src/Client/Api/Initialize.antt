-- ===== src/Client/Api/Initialize.antt =====
-- thingsboard_init leaves the client at rest.
use thingsboard_sdk.Base.{zero, suc, ◌≡◌, refl, true, Option, none, some, arith}
use thingsboard_sdk.Types.{ReturnCode, ok, err, Configuration, ThingsboardState, init, disconnected}
use thingsboard_sdk.Platform.{Env, k_mutex_init, coap_client_init}
use thingsboard_sdk.World.{World, emit, ask, modify_client}
use thingsboard_sdk.Client.Settled.{IsAtRest, Settled-IsAtRest}
use thingsboard_sdk.Client.Api.{
  state_is_init, connect, connect_first, enter_disconnected, init_checked, initialize,
}
use thingsboard_sdk.Client.Api.Settled.{connect-Settled}

pub init-state : (s : ThingsboardState) → state_is_init s ≡ true → s ≡ init
init-state init p = refl
init-state s p = ground arith

module _ (e : Env) where
  pub connect_first-same : (res : ReturnCode) (w : World) → (connect_first e res w).0 ≡ w
  unfolding connect_first
  connect_first-same (err x) w = refl
  connect_first-same (ok n) w = refl

  enter_disconnected-IsAtRest :
      (res : ReturnCode) (w : World)
      → w.client.state ≡ init
      → IsAtRest w
      → IsAtRest (enter_disconnected e res w).0
  unfolding enter_disconnected
  enter_disconnected-IsAtRest (err x) w p h = h
  enter_disconnected-IsAtRest (ok (suc n)) w p h = h
  enter_disconnected-IsAtRest (ok zero) w p h =
      let v = (modify_client (λ c. record c { state = disconnected }) w).0 in
      let c = connect e v in
      ground (arith, connect_first-same c.1 c.0, Settled-IsAtRest v c.0 (connect-Settled e v))

  init_checked-IsAtRest :
      (c : Configuration) (w : World)
      → w.client.state ≡ init
      → IsAtRest w
      → IsAtRest (init_checked e c w).0
  unfolding init_checked
  init_checked-IsAtRest c w p h =
      let v = (modify_client (λ d. record d { config = some c }) (emit k_mutex_init w).0).0 in
      let r = ask e.coap_init coap_client_init v in
      enter_disconnected-IsAtRest r.1 r.0 p (h.0, ground arith)

  pub initialize-IsAtRest :
      (c : Option Configuration) (w : World) → IsAtRest w → IsAtRest (initialize e c w).0
  unfolding initialize
  initialize-IsAtRest none w h = ground arith
  initialize-IsAtRest (some c) w h =
      ground (arith, init-state w.client.state, init_checked-IsAtRest c w)
