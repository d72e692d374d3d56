-- ===== src/Client/Api/Outcome.antt =====
-- The state in which a call of the application leaves the client, by the result it returns.
use thingsboard_sdk.Base.{true, false, Bool, ◌≡◌, ◌≢◌, ◌⊎◌, inl, inr, refl, arith}
use thingsboard_sdk.Types.{
  ReturnCode, ok, err, ThingsboardState, init, connecting, connected, suspended, disconnected,
  einval, eio, ealready,
}
use thingsboard_sdk.Platform.{Env}
use thingsboard_sdk.World.{World}
use thingsboard_sdk.Requests.{lock, unlock, event}
use thingsboard_sdk.Suspend.{socket_suspend, socket_resume}
use thingsboard_sdk.Suspend.Frame.{socket_suspend-Framed, socket_resume-Framed}
use thingsboard_sdk.Client.Start.{set_state, set_state_with, handle_state}
use thingsboard_sdk.Client.Api.{
  disconnect_online, disconnect_in, disconnect, move_to, suspend_connected, suspend_in, suspend,
  resume_suspended, resume_in, resume,
}

-- A negative return value.
abbrev pub is_err : ReturnCode → Bool
is_err (ok _) = false
is_err (err _) = true

-- A call that returned `code` and left the client in `t`.
abbrev pub Returns : World × ReturnCode → ReturnCode → ThingsboardState → Type 0
Returns r code t = (r.1 ≡ code) × (r.0.client.state ≡ t)

-- What thingsboard_suspend and thingsboard_resume return, on the way from `source` to `target`, by
-- whether the socket call fails and by the state before.
abbrev pub Moves :
    ThingsboardState → ThingsboardState → Bool → ThingsboardState → World × ReturnCode → Type 0
Moves source target failed s r =
    ((s ≡ target) × Returns r (ok 0) target)
    ⊎ ((s ≡ source) × (failed ≡ false) × Returns r (ok 0) target)
    ⊎ ((s ≡ source) × (failed ≡ true) × Returns r (err eio) source)
    ⊎ ((s ≢ target) × (s ≢ source) × Returns r (err einval) s)

abbrev pub Disconnects : ThingsboardState → World × ReturnCode → Type 0
Disconnects connected r = Returns r (ok 0) disconnected
Disconnects suspended r = Returns r (ok 0) disconnected
Disconnects disconnected r = Returns r (err ealready) disconnected
Disconnects init r = Returns r (err einval) init
Disconnects connecting r = Returns r (err einval) connecting

module _ (e : Env) where
  lock-state : (w : World) → (lock w).0.client.state ≡ w.client.state
  unfolding lock
  lock-state w = refl

  set_state-connected : (w : World) → (set_state e connected w).0.client.state ≡ connected
  unfolding set_state set_state_with handle_state event lock unlock
  set_state-connected w = ground arith

  set_state-suspended : (w : World) → (set_state e suspended w).0.client.state ≡ suspended
  unfolding set_state set_state_with handle_state event lock unlock
  set_state-suspended w = ground arith

  pub set_state-disconnected :
      (w : World) → (set_state e disconnected w).0.client.state ≡ disconnected
  unfolding set_state set_state_with handle_state event lock unlock
  set_state-disconnected w = ground arith

  -- A socket call between the lock and the new state.
  moved-suspended :
      (res : ReturnCode) (v : World)
      → v.client.state ≡ connected
      → ((is_err res ≡ false) × Returns (move_to e suspended res v) (ok 0) suspended)
        ⊎ ((is_err res ≡ true) × Returns (move_to e suspended res v) (err eio) connected)
  unfolding move_to unlock
  moved-suspended (err x) v h = inr (refl, (refl, h))
  moved-suspended (ok n) v h = inl (refl, (refl, set_state-suspended v))

  moved-connected :
      (res : ReturnCode) (v : World)
      → v.client.state ≡ suspended
      → ((is_err res ≡ false) × Returns (move_to e connected res v) (ok 0) connected)
        ⊎ ((is_err res ≡ true) × Returns (move_to e connected res v) (err eio) suspended)
  unfolding move_to unlock
  moved-connected (err x) v h = inr (refl, (refl, h))
  moved-connected (ok n) v h = inl (refl, (refl, set_state-connected v))

  suspend_in-Moves :
      (s : ThingsboardState) (w : World)
      → w.client.state ≡ s
      → Moves connected suspended (is_err (socket_suspend e w).1) s (suspend_in e s w)
  unfolding suspend_in suspend_connected unlock
  suspend_in-Moves suspended w h = ground arith
  suspend_in-Moves connected w h =
      let v = socket_suspend e w in
      ground (arith, socket_suspend-Framed e w, moved-suspended v.1 v.0)
  suspend_in-Moves init w h = ground arith
  suspend_in-Moves connecting w h = ground arith
  suspend_in-Moves disconnected w h = ground arith

  resume_in-Moves :
      (s : ThingsboardState) (w : World)
      → w.client.state ≡ s
      → Moves suspended connected (is_err (socket_resume e w).1) s (resume_in e s w)
  unfolding resume_in resume_suspended unlock
  resume_in-Moves connected w h = ground arith
  resume_in-Moves suspended w h =
      let v = socket_resume e w in ground (arith, socket_resume-Framed e w, moved-connected v.1 v.0)
  resume_in-Moves init w h = ground arith
  resume_in-Moves connecting w h = ground arith
  resume_in-Moves disconnected w h = ground arith

  -- thingsboard_suspend returns 0 and leaves the client suspended if it was suspended, or if it was
  -- connected and thingsboard_socket_suspend, called with the mutex locked, does not fail. Where it
  -- fails, the result is -EIO and the client stays connected. In any other state the result is
  -- -EINVAL and the state stays.
  pub suspend-Moves :
      (w : World)
      → Moves connected suspended
          (is_err (socket_suspend e (lock w).0).1)
          w.client.state
          (suspend e w)
  unfolding suspend
  suspend-Moves w = suspend_in-Moves w.client.state (lock w).0 (lock-state w)

  -- thingsboard_resume returns 0 and leaves the client connected if it was connected, or if it was
  -- suspended and thingsboard_socket_resume, called with the mutex locked, does not fail. Where it
  -- fails, the result is -EIO and the client stays suspended. In any other state the result is
  -- -EINVAL and the state stays.
  pub resume-Moves :
      (w : World)
      → Moves suspended connected
          (is_err (socket_resume e (lock w).0).1)
          w.client.state
          (resume e w)
  unfolding resume
  resume-Moves w = resume_in-Moves w.client.state (lock w).0 (lock-state w)

  disconnect_in-Disconnects :
      (s : ThingsboardState) (w : World) → w.client.state ≡ s → Disconnects s (disconnect_in e s w)
  unfolding disconnect_in disconnect_online unlock
  disconnect_in-Disconnects connected w h = (refl, set_state-disconnected _)
  disconnect_in-Disconnects suspended w h = (refl, set_state-disconnected _)
  disconnect_in-Disconnects disconnected w h = (refl, h)
  disconnect_in-Disconnects init w h = (refl, h)
  disconnect_in-Disconnects connecting w h = (refl, h)

  -- thingsboard_disconnect always succeeds on a client that is connected or suspended, and leaves it
  -- disconnected; one that is disconnected it answers with -EALREADY, any other with -EINVAL, and
  -- their state stays.
  pub disconnect-Disconnects : (w : World) → Disconnects w.client.state (disconnect e w)
  unfolding disconnect lock
  disconnect-Disconnects w = disconnect_in-Disconnects w.client.state (lock w).0 refl
