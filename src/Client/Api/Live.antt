-- ===== src/Client/Api/Live.antt =====
-- Where all works, a disconnected client is connected at once.
use thingsboard_sdk.Base.{◌≡◌, ◌∙◌, refl, sym, subst, false, Option, none, some, arith}
use thingsboard_sdk.Types.{
  ReturnCode, ok, err, ThingsboardState, init, connecting, connected, suspended, disconnected,
  Configuration,
}
use thingsboard_sdk.Platform.{Env}
use thingsboard_sdk.World.{World}
use thingsboard_sdk.Requests.{lock, unlock}
use thingsboard_sdk.Fota.{is_err}
use thingsboard_sdk.Socket.{socket_connect}
use thingsboard_sdk.Socket.Frame.{socket_connect-Calm, socket_connect-token}
use thingsboard_sdk.Socket.Live.{NetworkWorks, socket_connect-ok}
use thingsboard_sdk.Suspend.{set_socket, socket_resume}
use thingsboard_sdk.Suspend.Live.{socket_resume-ok}
use thingsboard_sdk.Attributes.Live.{RequestsWork, HasPath}
use thingsboard_sdk.Client.Start.Plugged.{set_state-passive}
use thingsboard_sdk.Client.Start.Live.{token_of, set_state-connected}
use thingsboard_sdk.Client.Api.{
  resume_suspended, resume_in, move_to, resume, open_socket, use_socket, connect_disconnected,
  connect_in, connect,
}

module _ (e : Env) (network : NetworkWorks e) (requests : RequestsWork e)
    (off : e.kconfig.use_provisioning ≡ false) where
  -- The call returns 0 and the client is connected.
  abbrev IsUp : World × ReturnCode → Type 0
  IsUp r = (r.1 ≡ ok 0) × (r.0.client.state ≡ connected)

  use_socket-IsUp :
      (res : ReturnCode) (w : World)
      → is_err res ≡ false
      → w.client.state ≡ disconnected
      → HasPath e (token_of e w.client.access_token)
      → IsUp (use_socket e res w)
  unfolding use_socket unlock
  use_socket-IsUp (err x) w o d h = ground arith
  use_socket-IsUp (ok s) w o d h =
      (refl, set_state-connected e requests (set_socket (some s) w).0 d off h)

  connect_with-IsUp :
      (o : Option Configuration) (c : Configuration) (w : World)
      → o ≡ some c
      → w.client.state ≡ disconnected
      → HasPath e (token_of e w.client.access_token)
      → IsUp (use_socket e (open_socket e o w).1 (open_socket e o w).0)
  unfolding open_socket
  connect_with-IsUp none c w p d h = ground arith
  connect_with-IsUp (some b) c w p d h =
      let s = socket_connect e b w in
      use_socket-IsUp s.1 s.0 (socket_connect-ok e network b w)
        ((socket_connect-Calm e b w).0.0 ∙ d)
        (subst (λ t. HasPath e (token_of e t)) (sym (socket_connect-token e b w)) h)

  connect_in-IsUp :
      (s : ThingsboardState) (c : Configuration) (w : World)
      → w.client.state ≡ s
      → s ≡ disconnected
      → w.client.config ≡ some c
      → HasPath e (token_of e w.client.access_token)
      → IsUp (connect_in e s w)
  unfolding connect_in connect_disconnected
  connect_in-IsUp disconnected c w q d p h = connect_with-IsUp w.client.config c w p q h
  connect_in-IsUp connected c w q d p h = ground arith
  connect_in-IsUp suspended c w q d p h = ground arith
  connect_in-IsUp init c w q d p h = ground arith
  connect_in-IsUp connecting c w q d p h = ground arith

-- Without provisioning, if the network works, the slab has a block, the CoAP client takes each
-- request and the path of the attributes fits into its buffer, then thingsboard_connect of a
-- disconnected client that has a configuration returns 0 and leaves it connected, in both builds of
-- the sockets.
pub connect-connected :
    (e : Env) (c : Configuration) (w : World)
    → NetworkWorks e
    → RequestsWork e
    → e.kconfig.use_provisioning ≡ false
    → w.client.state ≡ disconnected
    → w.client.config ≡ some c
    → HasPath e (token_of e w.client.access_token)
    → ((connect e w).1 ≡ ok 0) × ((connect e w).0.client.state ≡ connected)
unfolding connect lock
connect-connected e c w network requests off d p h =
    connect_in-IsUp e network requests off w.client.state c (lock w).0 refl d p h

module _ (e : Env) where
  move_to-connected :
      (res : ReturnCode) (w : World)
      → res ≡ ok 0
      → ((move_to e connected res w).1 ≡ ok 0)
        × ((move_to e connected res w).0.client.state ≡ connected)
  unfolding move_to unlock
  move_to-connected (err x) w p = ground arith
  move_to-connected (ok n) w p = (refl, (set_state-passive e 0 connected w refl).0)

  resume_in-connected :
      (s : ThingsboardState) (c : Configuration) (w : World)
      → NetworkWorks e
      → RequestsWork e
      → s ≡ suspended
      → w.client.config ≡ some c
      → HasPath e w.client.access_token
      → ((resume_in e s w).1 ≡ ok 0) × ((resume_in e s w).0.client.state ≡ connected)
  unfolding resume_in resume_suspended
  resume_in-connected suspended c w network requests d p h =
      let r = socket_resume e w in
      move_to-connected r.1 r.0 (socket_resume-ok e network requests c w p h)
  resume_in-connected connected c w network requests d p h = ground arith
  resume_in-connected disconnected c w network requests d p h = ground arith
  resume_in-connected init c w network requests d p h = ground arith
  resume_in-connected connecting c w network requests d p h = ground arith

-- If the network works, the slab has a block, the CoAP client takes each request and the path of the
-- attributes fits into its buffer, then thingsboard_resume of a suspended client that has a
-- configuration returns 0 and leaves it connected, however it was suspended.
pub resume-connected :
    (e : Env) (c : Configuration) (w : World)
    → NetworkWorks e
    → RequestsWork e
    → w.client.state ≡ suspended
    → w.client.config ≡ some c
    → HasPath e w.client.access_token
    → ((resume e w).1 ≡ ok 0) × ((resume e w).0.client.state ≡ connected)
unfolding resume lock
resume-connected e c w network requests d p h =
    resume_in-connected e w.client.state c (lock w).0 network requests d p h
