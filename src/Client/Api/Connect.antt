-- ===== src/Client/Api/Connect.antt =====
-- What thingsboard_connect and thingsboard_init return, and where they leave the client.
use thingsboard_sdk.Base.{
  if◌then◌else◌, zero, suc, ◌≡◌, ◌≢◌, refl, ◌⊎◌, inl, inr, Bool, true, false, not, ◌&&◌, none, some,
  Option, arith,
}
use thingsboard_sdk.Types.{
  ReturnCode, ok, err, ThingsboardState, init, connecting, connected, suspended, disconnected,
  Configuration, Kconfig, einval, ealready, enotconn,
}
use thingsboard_sdk.Platform.{Env, k_mutex_init, coap_client_init}
use thingsboard_sdk.World.{M, ◌>>=◌, pure, World, emit, ask, modify_client}
use thingsboard_sdk.Requests.{lock, unlock}
use thingsboard_sdk.Suspend.{set_socket}
use thingsboard_sdk.Client.Start.{set_state}
use thingsboard_sdk.Client.Start.Keeps.{is_final}
use thingsboard_sdk.Client.Moved.{set_state-connecting}
use thingsboard_sdk.Client.Api.{
  M, open_socket, use_socket, connect_disconnected, connect_in, connect, connect_first,
  enter_disconnected, init_checked, initialize, is_valid_configuration, state_is_init, has_socket,
}
use thingsboard_sdk.Client.Api.Initialize.{init-state}
use thingsboard_sdk.Client.Api.Outcome.{Returns, set_state-disconnected}

-- Connecting, connected or disconnected again.
abbrev pub is_started : ThingsboardState → Bool
is_started connecting = true
is_started connected = true
is_started disconnected = true
is_started _ = false

-- A disconnected client is started, or stays disconnected.
abbrev pub Starts : World × ReturnCode → Type 0
Starts r =
    Returns r (err enotconn) disconnected ⊎ ((r.1 ≡ ok 0) × (is_started r.0.client.state ≡ true))

abbrev pub Connects : ThingsboardState → World × ReturnCode → Type 0
Connects connected r = Returns r (err ealready) connected
Connects suspended r = Returns r (err ealready) suspended
Connects disconnected r = Starts r
Connects init r = Returns r (err einval) init
Connects connecting r = Returns r (err einval) connecting

final-started : (s : ThingsboardState) → is_final s ≡ true → is_started s ≡ true
final-started connected h = refl
final-started disconnected h = refl
final-started init h = cc
final-started connecting h = refl
final-started suspended h = cc

module _ (e : Env) where
  set_state-started : (w : World) → is_started (set_state e connecting w).0.client.state ≡ true
  set_state-started w =
      let v = (set_state e connecting w).0 in
      elim (set_state-connecting e w) [ inl p ↦ rw p refl | inr p ↦ final-started v.client.state p ]

  use_socket-Starts : (res : ReturnCode) (w : World) → Starts (use_socket e res w)
  unfolding use_socket unlock
  use_socket-Starts (err x) w = inl (refl, set_state-disconnected e w)
  use_socket-Starts (ok s) w = inr (refl, set_state-started (set_socket (some s) w).0)

  connect_in-Connects :
      (s : ThingsboardState) (w : World) → w.client.state ≡ s → Connects s (connect_in e s w)
  unfolding connect_in connect_disconnected unlock
  connect_in-Connects connected w h = (refl, h)
  connect_in-Connects suspended w h = (refl, h)
  connect_in-Connects disconnected w h =
      let s = open_socket e w.client.config w in use_socket-Starts s.1 s.0
  connect_in-Connects init w h = (refl, h)
  connect_in-Connects connecting w h = (refl, h)

  -- thingsboard_connect answers a client that is connected or suspended with -EALREADY, and one that
  -- is connecting or was not initialised with -EINVAL, and its state stays. A disconnected client
  -- stays disconnected with -ENOTCONN, or the call returns 0 and leaves the client connecting,
  -- connected, or disconnected again.
  pub connect-Connects : (w : World) → Connects w.client.state (connect e w)
  unfolding connect lock
  connect-Connects w = connect_in-Connects w.client.state (lock w).0 refl

-- Whether thingsboard_init takes the configuration.
abbrev pub is_accepted : Kconfig → Option Configuration → Bool
is_accepted k none = false
is_accepted k (some c) = is_valid_configuration k c

-- A client that was not initialised, and no longer is after success.
abbrev pub is_fresh : World → Bool
is_fresh w = state_is_init w.client.state && not (has_socket w.client.server_socket)

-- What thingsboard_init returns, and where it leaves the client.
abbrev pub Initializes : Kconfig → Option Configuration → World → World × ReturnCode → Type 0
Initializes k c w r =
    ((is_fresh w ≡ false) × (r ≡ (w, err ealready)))
    ⊎ ((is_fresh w ≡ true) × (is_accepted k c ≡ false) × (r ≡ (w, err einval)))
    ⊎ ((is_fresh w ≡ true)
        × (is_accepted k c ≡ true)
        × (((r.0.client.state ≡ init) × (r.1 ≢ ok 0))
            ⊎ Returns r (err enotconn) disconnected
            ⊎ ((r.1 ≡ ok 0) × (is_started r.0.client.state ≡ true))))

if-Starts :
    (b : Bool) (m n : M ReturnCode) (w : World)
    → Starts (m w)
    → Starts (n w)
    → Starts ((if b then m else n) w)
if-Starts true m n w h k = h
if-Starts false m n w h k = k

module _ (e : Env) where
  connect_first-Starts :
      (res : ReturnCode) (w : World) → Starts (w, res) → Starts (connect_first e res w)
  unfolding connect_first
  connect_first-Starts (err x) w h = ground arith
  connect_first-Starts (ok n) w h = ground arith

  enter_disconnected-lem :
      (res : ReturnCode) (w : World)
      → ((res ≢ ok 0) × (enter_disconnected e res w ≡ (w, res)))
        ⊎ Starts (enter_disconnected e res w)
  unfolding enter_disconnected
  enter_disconnected-lem (err x) w = inl (cc, refl)
  enter_disconnected-lem (ok (suc n)) w = inl (λ p. ground arith, refl)
  enter_disconnected-lem (ok zero) w =
      let v = (modify_client (λ c. record c { state = disconnected }) w).0 in
      let c = connect e v in
      inr (
        if-Starts e.kconfig.connect_on_init (connect e >>= connect_first e) (pure (ok 0)) v
          (connect_first-Starts c.1 c.0 (connect-Connects e v)) (inr (refl, refl)))

  init_checked-lem :
      (config : Configuration) (w : World)
      → w.client.state ≡ init
      → (((init_checked e config w).0.client.state ≡ init) × ((init_checked e config w).1 ≢ ok 0))
        ⊎ Starts (init_checked e config w)
  unfolding init_checked
  init_checked-lem config w h =
      let v = (modify_client (λ d. record d { config = some config }) (emit k_mutex_init w).0).0 in
      let r = ask e.coap_init coap_client_init v in ground (arith, enter_disconnected-lem r.1 r.0)

  -- thingsboard_init returns -EALREADY to a client that was initialised, and -EINVAL to a
  -- configuration that it refuses, and changes nothing. Otherwise it returns other than 0 and the
  -- client stays uninitialised, or it returns -ENOTCONN and the client is disconnected, or it returns
  -- 0 and the client is connecting, connected or disconnected.
  pub initialize-Initializes :
      (c : Option Configuration) (w : World) → Initializes e.kconfig c w (initialize e c w)
  unfolding initialize
  initialize-Initializes none w = ground arith
  initialize-Initializes (some c) w =
      ground (arith, init-state w.client.state, init_checked-lem c w)
