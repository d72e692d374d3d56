-- ===== src/Client/Start/Settled.antt =====
-- The functions that move the client tell the application of its state.
use thingsboard_sdk.Base.{◌≡◌, refl, true, Bool-cases, ◌==◌, inl, inr, arith}
use thingsboard_sdk.Types.{ThingsboardState, init, connecting, connected, suspended, disconnected}
use thingsboard_sdk.Platform.{Env}
use thingsboard_sdk.World.{World, M, modify_client}
use thingsboard_sdk.World.Keeps.{Keeps}
use thingsboard_sdk.Requests.{lock, unlock, event}
use thingsboard_sdk.Requests.Frame.{depth}
use thingsboard_sdk.Client.Settled.{
  is_told, is_target, Settled, Framed→Settled, Settled-told, Settled-then,
}
use thingsboard_sdk.Client.Start.Keeps.{framed_laws, IsStartLaws, is_final, start_client-Keeps}
use thingsboard_sdk.Client.Start.{
  state_number, handle_state, set_state_with, start_client, set_state,
}

final-target : (s : ThingsboardState) → is_final s ≡ true → is_target s ≡ true
final-target connected h = refl
final-target disconnected h = refl
final-target init h = cc
final-target connecting h = refl
final-target suspended h = refl

module _ (start : M (Unit {0})) (started : Keeps Settled start) where
  handle_state-depth :
      (s : ThingsboardState) (w : World)
      → (depth (handle_state start s w).0.history ≡ depth w.history)
        × ((handle_state start s w).0.client.config ≡ w.client.config)
  unfolding handle_state event
  handle_state-depth init w = ground arith
  handle_state-depth connecting w = let h = started w in (h.0, h.1)
  handle_state-depth connected w = ground arith
  handle_state-depth suspended w = ground arith
  handle_state-depth disconnected w = ground arith

  handle_state-told :
      (s : ThingsboardState) (w : World)
      → is_target s ≡ true
      → w.client.state ≡ s
      → is_told (handle_state start s w).0 ≡ true
  unfolding handle_state event
  handle_state-told init w t p = ground arith
  handle_state-told connecting w t p = Settled-told w (start w).0 (started w) (rw p (ground arith))
  handle_state-told connected w t p = ground arith
  handle_state-told suspended w t p = ground arith
  handle_state-told disconnected w t p = ground arith

  set_state_with-Settled :
      (s : ThingsboardState) → is_target s ≡ true → Keeps Settled (set_state_with start s)
  unfolding set_state_with lock unlock
  set_state_with-Settled s t w = elim (Bool-cases (state_number s == state_number w.client.state)) [
    | inl p ↦ rw (p, set_state_with) (ground arith, refl, inl (refl, ground arith))
    | inr p ↦
        rw (p, set_state_with)
          (let v = (modify_client (λ c. record c { state = s }) (lock w).0).0 in
            let d = handle_state-depth s v in
            (ground (arith, d), d.1, inr (handle_state-told s v t refl)))
  ]

pub Settled-IsStartLaws : (e : Env) → IsStartLaws e Settled
Settled-IsStartLaws e =
    framed_laws e Framed→Settled Settled-then
      λ start started s t. set_state_with-Settled start started s (final-target s t)

module _ (e : Env) where
  pub set_state-Settled :
      (s : ThingsboardState) → is_target s ≡ true → Keeps Settled (set_state e s)
  unfolding set_state
  set_state-Settled s t w =
      set_state_with-Settled (start_client e 2) (start_client-Keeps (Settled-IsStartLaws e) 2) s t w
