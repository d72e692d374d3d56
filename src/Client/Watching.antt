-- ===== src/Client/Watching.antt =====
-- In which states the client may have an observation.
use thingsboard_sdk.Base.{◌≡◌, ◌∙◌, subst, Bool, true, false, none, not}
use thingsboard_sdk.Types.{ThingsboardState, connected, suspended, SocketSuspend}
use thingsboard_sdk.Platform.{Env}
use thingsboard_sdk.World.{World}
use thingsboard_sdk.Suspend.Owned.{is_disconnect}
use thingsboard_sdk.Requests.Frame.{Still}
use thingsboard_sdk.Attributes.Tracked.{IsTracked, Watched-IsTracked}

-- While it is suspended, only if suspending leaves the connection.
abbrev pub may_observe : SocketSuspend → ThingsboardState → Bool
may_observe m connected = true
may_observe m suspended = not (is_disconnect m)
may_observe m _ = false

abbrev pub IsWatching : Env → World → Type 0
IsWatching e w =
    IsTracked w
    × (may_observe e.kconfig.socket_suspend w.client.state ≡ false
        → w.client.attributes_observation ≡ none)

pub Still-IsWatching : (e : Env) (v w : World) → Still v w → IsWatching e v → IsWatching e w
Still-IsWatching e v w h p = (
  Watched-IsTracked v w (h.2) (p.0),
  λ t. h.2.0 ∙ p.1 (subst (λ s. may_observe e.kconfig.socket_suspend s ≡ false) (h.0.0) t),
)
