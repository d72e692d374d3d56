-- ===== src/Client/Plugged.antt =====
-- Who owns a socket: without provisioning the client never loses an open socket, nor closes one
-- twice.
use thingsboard_sdk.Suspend.Owned.{is_disconnect}
use thingsboard_sdk.Base.{subst, ◌∙◌, ℕ, ◌+◌, ◌≡◌, Bool, true, false, none, ◌&&◌, if◌then◌else◌}
use thingsboard_sdk.Types.{ThingsboardState, connecting, connected, suspended}
use thingsboard_sdk.Platform.{Env}
use thingsboard_sdk.World.{World}
use thingsboard_sdk.Socket.Owned.{opened, closed, owns}
use thingsboard_sdk.Requests.Frame.{Steady, Still, Still→Steady}

-- Whether `server_socket` is open in this state.
abbrev pub is_plugged : ThingsboardState → Bool
is_plugged connecting = true
is_plugged connected = true
is_plugged suspended = true
is_plugged _ = false

-- 1 if socket `k` is the one that the client holds open.
abbrev pub held : ℕ → World → ℕ
held k w = if is_plugged w.client.state then owns k w.client.server_socket else 0

abbrev pub is_suspended : ThingsboardState → Bool
is_suspended suspended = true
is_suspended _ = false

-- Socket `k` is counted, the provisioning has no callback, and a client that suspends by
-- disconnecting has no socket while it is suspended.
abbrev pub IsPlugged : Env → ℕ → World → Type 0
IsPlugged e k w =
    (opened k w.history ≡ closed k w.history + held k w)
    × (w.prov_cb ≡ false)
    × ((is_suspended w.client.state && is_disconnect e.kconfig.socket_suspend ≡ true)
        → w.client.server_socket ≡ none)

module _ (e : Env) (k : ℕ) where
  pub Steady-IsPlugged : (v w : World) → Steady v w → IsPlugged e k v → IsPlugged e k w
  Steady-IsPlugged v w h p = (
    (let a = h.0.0 in let b = h.1.0 in let c = h.1.2 in rw (a, b, c) (p.0)),
    (let b = h.1.1 in cc),
    λ t.
        (let a = h.0.0 in
          let b = h.1.0 in
          b
          ∙ p.2 (subst (λ s. is_suspended s && is_disconnect e.kconfig.socket_suspend ≡ true) a t)),
  )

  pub Still-IsPlugged : (v w : World) → Still v w → IsPlugged e k v → IsPlugged e k w
  Still-IsPlugged v w h = Steady-IsPlugged v w (Still→Steady v w h)
