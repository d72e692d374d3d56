-- ===== src/Suspend/Keeps.antt =====
-- What suspending and resuming the socket keeps: any relation that allows what changes nothing of the
-- client and passes no request, and the observation of the attributes.
use thingsboard_sdk.Base.{ℕ, Option, none, some, inl, inr, arith}
use thingsboard_sdk.Types.{
  ReturnCode, ok, err, Configuration, SocketSuspend, suspend_none, suspend_disconnect, suspend_rai,
}
use thingsboard_sdk.Types.Cases.{Result-cases}
use thingsboard_sdk.Platform.{Env, SocketOption, rai_no_data, rai_ongoing}
use thingsboard_sdk.World.{World}
use thingsboard_sdk.World.Keeps.{Keeps}
use thingsboard_sdk.Requests.Traffic.{Calm}
use thingsboard_sdk.Socket.{socket_close, socket_connect}
use thingsboard_sdk.Socket.Frame.{socket_close-Calm, socket_connect-Calm}
use thingsboard_sdk.Requests.{request_alloc}
use thingsboard_sdk.Attributes.{subscribe_attributes, unsubscribe_attributes}
use thingsboard_sdk.Suspend.{
  set_socket, set_rai, suspend_by_disconnect, suspend_by, socket_suspend, observe_again,
  use_connected, reconnect, resume_by, socket_resume,
}

module _ (e : Env) (R : World → World → Type 0) (calm : (v w : World) → Calm v w → R v w)
    (transitive : (u v w : World) → R u v → R v w → R u w) where
  set_rai-Keeps : (o : SocketOption) (s : Option ℕ) → Keeps R (set_rai e o s)
  unfolding set_rai
  set_rai-Keeps o none w = calm w w (ground arith)
  set_rai-Keeps o (some s) w = calm w (set_rai e o (some s) w).0 (ground arith)

  drop_socket-Calm :
      (w : World) → Calm w (set_socket none (socket_close e w.client.server_socket w).0).0
  drop_socket-Calm w = ground (arith, socket_close-Calm e w.client.server_socket w)

  suspend_by-Keeps :
      Keeps R (unsubscribe_attributes e) → (s : SocketSuspend) → Keeps R (suspend_by e s)
  unfolding suspend_by suspend_by_disconnect
  suspend_by-Keeps h suspend_none w = calm w w (ground arith)
  suspend_by-Keeps h suspend_disconnect w =
      let v = (unsubscribe_attributes e w).0 in
      let u = (set_socket none (socket_close e v.client.server_socket v).0).0 in
      transitive w v u (h w) (calm v u (drop_socket-Calm v))
  suspend_by-Keeps h suspend_rai w = set_rai-Keeps rai_no_data w.client.server_socket w

  pub socket_suspend-Keeps : Keeps R (unsubscribe_attributes e) → Keeps R (socket_suspend e)
  unfolding socket_suspend
  socket_suspend-Keeps h w = suspend_by-Keeps h e.kconfig.socket_suspend w

  module _ (h : Keeps R (subscribe_attributes e)) where
    observe_again-Keeps : Keeps R (observe_again e)
    unfolding observe_again subscribe_attributes request_alloc
    observe_again-Keeps w =
        let s = subscribe_attributes e w in
        let u = (set_socket none (socket_close e s.0.client.server_socket s.0).0).0 in
        elim (Result-cases (s.1)) [
          | inl (n, p) ↦ rw (p, observe_again) (h w)
          | inr (x, p) ↦
              rw (p, observe_again) (transitive w s.0 u (h w) (calm s.0 u (drop_socket-Calm s.0)))
        ]

    use_connected-Keeps : (res : ReturnCode) → Keeps R (use_connected e res)
    unfolding use_connected
    use_connected-Keeps (err x) w = calm w w (ground arith)
    use_connected-Keeps (ok s) w =
        let v = (set_socket (some s) w).0 in
        transitive w v (observe_again e v).0 (calm w v (ground arith)) (observe_again-Keeps v)

    reconnect-Keeps : (c : Option Configuration) → Keeps R (reconnect e c)
    unfolding reconnect
    reconnect-Keeps none w = calm w w (ground arith)
    reconnect-Keeps (some c) w =
        let v = socket_connect e c w in
        transitive w v.0 (use_connected e v.1 v.0).0 (calm w v.0 (socket_connect-Calm e c w))
          (use_connected-Keeps v.1 v.0)

    resume_by-Keeps : (s : SocketSuspend) → Keeps R (resume_by e s)
    unfolding resume_by
    resume_by-Keeps suspend_none w = calm w w (ground arith)
    resume_by-Keeps suspend_disconnect w = reconnect-Keeps w.client.config w
    resume_by-Keeps suspend_rai w = set_rai-Keeps rai_ongoing w.client.server_socket w

    pub socket_resume-Keeps : Keeps R (socket_resume e)
    unfolding socket_resume
    socket_resume-Keeps w = resume_by-Keeps e.kconfig.socket_suspend w
