-- ===== src/Suspend/Watching.antt =====
-- Suspending and resuming by disconnecting end the observation and start it again.
use thingsboard_sdk.Base.{◌≡◌, ◌∙◌, refl, true, Option, none, some, inl, inr, arith}
use thingsboard_sdk.Types.{
  ReturnCode, Errno, ok, err, Configuration, SocketSuspend, suspend_none, suspend_disconnect,
  suspend_rai,
}
use thingsboard_sdk.Platform.{Env}
use thingsboard_sdk.World.{World}
use thingsboard_sdk.Requests.{request_alloc}
use thingsboard_sdk.Requests.Frame.{Watched}
use thingsboard_sdk.Requests.Traffic.{Calm→Watched}
use thingsboard_sdk.Socket.{socket_close, socket_connect}
use thingsboard_sdk.Socket.Frame.{socket_close-Calm, socket_connect-Calm}
use thingsboard_sdk.Attributes.{subscribe_attributes, unsubscribe_attributes}
use thingsboard_sdk.Attributes.Outcome.{subscribe_attributes-Observes}
use thingsboard_sdk.Attributes.Tracked.{
  CancelFinds, IsTracked, Watched-IsTracked, subscribe_attributes-IsTracked,
  unsubscribe_attributes-IsTracked,
}
use thingsboard_sdk.Suspend.{
  set_socket, suspend_by_disconnect, set_rai, suspend_by, socket_suspend, observe_again,
  use_connected, reconnect, resume_by, socket_resume,
}
use thingsboard_sdk.Suspend.Owned.{is_disconnect}

module _ (e : Env) where
  suspend_by-IsTracked :
      (s : SocketSuspend) (w : World)
      → CancelFinds e
      → IsTracked w
      → IsTracked (suspend_by e s w).0
        × (is_disconnect s ≡ true → (suspend_by e s w).0.client.attributes_observation ≡ none)
  unfolding suspend_by suspend_by_disconnect set_rai
  suspend_by-IsTracked suspend_none w found t = (t, λ d. cc)
  suspend_by-IsTracked suspend_disconnect w found t =
      let v = (unsubscribe_attributes e w).0 in
      let (u, n) = unsubscribe_attributes-IsTracked e w found t in
      let c = (socket_close e v.client.server_socket v).0 in
      let h = Calm→Watched v c (socket_close-Calm e v.client.server_socket v) in
      (Watched-IsTracked v c h u, λ d. h.0 ∙ n)
  suspend_by-IsTracked suspend_rai w found t =
      let v = (suspend_by e suspend_rai w).0 in
      let h : Watched w v = ground arith in (Watched-IsTracked w v h t, λ d. cc)

  pub socket_suspend-IsTracked :
      (w : World)
      → CancelFinds e
      → IsTracked w
      → IsTracked (socket_suspend e w).0
        × (is_disconnect e.kconfig.socket_suspend ≡ true
            → (socket_suspend e w).0.client.attributes_observation ≡ none)
  unfolding socket_suspend
  socket_suspend-IsTracked w found t = suspend_by-IsTracked e.kconfig.socket_suspend w found t

  -- Resumed with an observation that is tracked, or failed without one.
  abbrev Observed : World × ReturnCode → Type 0
  Observed r =
      IsTracked r.0 × ((x : Errno) → r.1 ≡ err x → r.0.client.attributes_observation ≡ none)

  observe_again-Observed :
      (w : World)
      → w.client.attributes_observation ≡ none
      → IsTracked w
      → Observed (observe_again e w)
  unfolding observe_again subscribe_attributes request_alloc
  observe_again-Observed w n t =
      let s = subscribe_attributes e w in
      let u = subscribe_attributes-IsTracked e w n t in
      let c = (socket_close e s.0.client.server_socket s.0).0 in
      let h = Calm→Watched s.0 c (socket_close-Calm e s.0.client.server_socket s.0) in
      elim (subscribe_attributes-Observes e w) [
        | inl o ↦ rw (o.0, observe_again) (u, λ x p. ground arith)
        | inr (y, a, o) ↦ rw (a, observe_again) (Watched-IsTracked s.0 c h u, λ x p. h.0 ∙ o)
      ]

  use_connected-Observed :
      (res : ReturnCode) (w : World)
      → w.client.attributes_observation ≡ none
      → IsTracked w
      → Observed (use_connected e res w)
  unfolding use_connected
  use_connected-Observed (err x) w n t = (t, λ y p. n)
  use_connected-Observed (ok s) w n t = observe_again-Observed (set_socket (some s) w).0 n t

  reconnect-Observed :
      (c : Option Configuration) (w : World)
      → w.client.attributes_observation ≡ none
      → IsTracked w
      → Observed (reconnect e c w)
  unfolding reconnect
  reconnect-Observed none w n t = (t, λ y p. n)
  reconnect-Observed (some c) w n t =
      let s = socket_connect e c w in
      let h = Calm→Watched w s.0 (socket_connect-Calm e c w) in
      use_connected-Observed s.1 s.0 (h.0 ∙ n) (Watched-IsTracked w s.0 h t)

  resume_by-IsTracked :
      (s : SocketSuspend) (w : World)
      → (is_disconnect s ≡ true → w.client.attributes_observation ≡ none)
      → IsTracked w
      → IsTracked (resume_by e s w).0
        × ((x : Errno)
            → (resume_by e s w).1 ≡ err x
            → is_disconnect s ≡ true
            → (resume_by e s w).0.client.attributes_observation ≡ none)
  unfolding resume_by set_rai
  resume_by-IsTracked suspend_none w n t = (t, λ x p d. cc)
  resume_by-IsTracked suspend_disconnect w n t =
      let r = reconnect-Observed w.client.config w (n refl) t in (r.0, λ x p d. r.1 x p)
  resume_by-IsTracked suspend_rai w n t =
      let v = (resume_by e suspend_rai w).0 in
      let h : Watched w v = ground arith in (Watched-IsTracked w v h t, λ x p d. cc)

  pub socket_resume-IsTracked :
      (w : World)
      → (is_disconnect e.kconfig.socket_suspend ≡ true → w.client.attributes_observation ≡ none)
      → IsTracked w
      → IsTracked (socket_resume e w).0
        × ((x : Errno)
            → (socket_resume e w).1 ≡ err x
            → is_disconnect e.kconfig.socket_suspend ≡ true
            → (socket_resume e w).0.client.attributes_observation ≡ none)
  unfolding socket_resume
  socket_resume-IsTracked w n t = resume_by-IsTracked e.kconfig.socket_suspend w n t
