-- ===== src/Client/Start/Watching.antt =====
-- Without provisioning, starting a client without an observation gives it one, or disconnects it.
use thingsboard_sdk.Base.{
  Bool, if◌then◌else◌, ◌≡◌, ◌∙◌, refl, subst, true, false, Option, none, some, inl, inr, Bytes,
  arith,
}
use thingsboard_sdk.Types.{
  ReturnCode, Errno, ok, err, ThingsboardState, init, connecting, connected, suspended,
  disconnected,
}
use thingsboard_sdk.Platform.{Env}
use thingsboard_sdk.World.{World, M, ◌>>◌, when, modify_client}
use thingsboard_sdk.Requests.{lock, unlock, event}
use thingsboard_sdk.Requests.Frame.{Watched}
use thingsboard_sdk.Requests.Traffic.{Calm→Watched}
use thingsboard_sdk.TimeSync.{start_time_sync}
use thingsboard_sdk.TimeSync.Frame.{start_time_sync-Still}
use thingsboard_sdk.Socket.{socket_close}
use thingsboard_sdk.Socket.Frame.{socket_close-Calm}
use thingsboard_sdk.Attributes.{subscribe_attributes}
use thingsboard_sdk.Attributes.Outcome.{subscribe_attributes-Observes}
use thingsboard_sdk.Attributes.Tracked.{
  IsTracked, Watched-IsTracked, subscribe_attributes-IsTracked,
}
use thingsboard_sdk.Client.Watching.{may_observe, IsWatching}
use thingsboard_sdk.Client.Start.{
  start_fota, ask_token, go_online, set_token, obtain_token, start_with, start_client, set_state,
  handle_state, set_state_with, after_subscribe,
}
use thingsboard_sdk.Client.Start.Plugged.{is_passive, set_state_with-lem, start_fota-Still}

module _ (e : Env) where
  set_state_with-Watched :
      (start : M (Unit {0})) (s : ThingsboardState) (w : World)
      → is_passive s ≡ true
      → Watched w (set_state_with start s w).0
  unfolding set_state_with handle_state event lock unlock
  set_state_with-Watched start connected w h = ground arith
  set_state_with-Watched start suspended w h = ground arith
  set_state_with-Watched start disconnected w h = ground arith
  set_state_with-Watched start init w h = cc
  set_state_with-Watched start connecting w h = cc

  -- A state without an action of its own is entered with an observation only where it may be.
  passive-IsWatching :
      (start : M (Unit {0})) (s : ThingsboardState) (w : World)
      → is_passive s ≡ true
      → IsTracked w
      → (may_observe e.kconfig.socket_suspend s ≡ false → w.client.attributes_observation ≡ none)
      → IsWatching e (set_state_with start s w).0
  passive-IsWatching start s w p t n =
      let v = (set_state_with start s w).0 in
      let h = set_state_with-Watched start s w p in
      (
        Watched-IsTracked w v h t,
        λ m.
            h.0
            ∙ n (
                subst (λ z. may_observe e.kconfig.socket_suspend z ≡ false)
                  ((set_state_with-lem e 0 start s w p).0) m),
      )

  pub set_state-IsWatching :
      (s : ThingsboardState) (w : World)
      → is_passive s ≡ true
      → IsTracked w
      → (may_observe e.kconfig.socket_suspend s ≡ false → w.client.attributes_observation ≡ none)
      → IsWatching e (set_state e s w).0
  unfolding set_state
  set_state-IsWatching s w p t n = passive-IsWatching (start_client e 2) s w p t n

  after_subscribe-IsWatching :
      (start : M (Unit {0})) (res : ReturnCode) (w : World)
      → ((x : Errno) → res ≡ err x → w.client.attributes_observation ≡ none)
      → IsTracked w
      → IsWatching e (after_subscribe e start res w).0
  unfolding after_subscribe
  after_subscribe-IsWatching start (err x) w n t =
      let v = (socket_close e w.client.server_socket w).0 in
      let h = Calm→Watched w v (socket_close-Calm e w.client.server_socket w) in
      passive-IsWatching start disconnected v refl (Watched-IsTracked w v h t) (λ m. h.0 ∙ n x refl)
  after_subscribe-IsWatching start (ok n) w h t =
      let v = (when e.kconfig.time start_time_sync w).0 in
      let f : Watched w v = ground (arith, (start_time_sync-Still w).2) in
      passive-IsWatching start connected v refl (Watched-IsTracked w v f t) (λ m. cc)

  go_online-IsWatching :
      (start : M (Unit {0})) (w : World)
      → w.client.attributes_observation ≡ none
      → IsTracked w
      → IsWatching e (go_online e start w).0
  unfolding go_online
  go_online-IsWatching start w n t =
      let v = (when e.kconfig.fota (start_fota e) w).0 in
      let f : Watched w v = ground (arith, (start_fota-Still e 0 w).2) in
      let s = subscribe_attributes e v in
      let u = subscribe_attributes-IsTracked e v (f.0 ∙ n) (Watched-IsTracked w v f t) in
      after_subscribe-IsWatching start s.1 s.0
        (λ x p. elim (subscribe_attributes-Observes e v) [
          | inl o ↦ (let a = o.0 in ground arith)
          | inr (y, a, o) ↦ o
        ])
        u

  pub if-IsWatching :
      {A : Type 0} (b : Bool) (m n : M A) (w : World)
      → (b ≡ true → IsWatching e (m w).0)
      → (b ≡ false → IsWatching e (n w).0)
      → IsWatching e ((if b then m else n) w).0
  if-IsWatching true m n w h k = h refl
  if-IsWatching false m n w h k = k refl

  start_with-IsWatching :
      (start : M (Unit {0})) (token : Option Bytes) (w : World)
      → e.kconfig.use_provisioning ≡ false
      → w.client.attributes_observation ≡ none
      → IsTracked w
      → IsWatching e (start_with e start token w).0
  unfolding start_with obtain_token
  start_with-IsWatching start (some token) w off n t = go_online-IsWatching start w n t
  start_with-IsWatching start none w off n t =
      if-IsWatching e.kconfig.dtls (go_online e start) (obtain_token e start) w
        (λ p. go_online-IsWatching start w n t)
        (λ p.
          if-IsWatching e.kconfig.use_provisioning (ask_token e start)
            (do set_token e.kconfig.access_token; go_online e start) w (λ q. cc)
            (λ q. go_online-IsWatching start (set_token e.kconfig.access_token w).0 n t))

  pub set_state-connecting :
      (w : World)
      → e.kconfig.use_provisioning ≡ false
      → w.client.state ≡ disconnected
      → w.client.attributes_observation ≡ none
      → IsTracked w
      → IsWatching e (set_state e connecting w).0
  unfolding set_state set_state_with handle_state start_client lock unlock
  set_state-connecting w off d n t =
      let v = (modify_client (λ c. record c { state = connecting }) (lock w).0).0 in
      rw (d, set_state, set_state_with)
        (start_with-IsWatching (start_client e 1) v.client.access_token v off n t)
