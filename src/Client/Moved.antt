-- ===== src/Client/Moved.antt =====
-- Where starting the client leaves it.
use thingsboard_sdk.Base.{Bytes, ◌≡◌, ◌⊎◌, inl, inr, true, arith}
use thingsboard_sdk.Types.{ThingsboardState, init, connecting, connected, suspended, disconnected}
use thingsboard_sdk.World.{World, M}
use thingsboard_sdk.World.Keeps.{Keeps}
use thingsboard_sdk.Requests.{lock, unlock, event}
use thingsboard_sdk.Platform.{Env}
use thingsboard_sdk.Requests.Frame.{Framed}
use thingsboard_sdk.Client.Start.{
  handle_state, set_state_with, start_client, set_state, prov_callback,
}
use thingsboard_sdk.Client.Start.Keeps.{
  framed_laws, IsStartLaws, is_final, start_client-Keeps, prov_callback-Keeps,
}

-- In the same state, or connected or disconnected.
abbrev pub Moved : World → World → Type 0
Moved v w = (w.client.state ≡ v.client.state) ⊎ (is_final w.client.state ≡ true)

pub Moved-then : (u v w : World) → Moved u v → Moved v w → Moved u w
Moved-then u v w (inl p) (inl q) = inl cc
Moved-then u v w (inr p) (inl q) = inr (rw q p)
Moved-then u v w g (inr q) = inr q

set_state_with-final :
    (start : M (Unit {0})) (s : ThingsboardState) (w : World)
    → is_final s ≡ true
    → is_final (set_state_with start s w).0.client.state ≡ true
unfolding set_state_with handle_state event lock unlock
set_state_with-final start connected w h = ground arith
set_state_with-final start disconnected w h = ground arith
set_state_with-final start init w h = cc
set_state_with-final start connecting w h = cc
set_state_with-final start suspended w h = cc

pub Framed→Moved : (v w : World) → Framed v w → Moved v w
Framed→Moved v w h = inl (h.0)

Moved-IsStartLaws : (e : Env) → IsStartLaws e Moved
Moved-IsStartLaws e =
    framed_laws e Framed→Moved Moved-then
      λ start started s t w. inr (set_state_with-final start s w t)

module _ (e : Env) where
  start_client-Moved : Keeps Moved (start_client e 2)
  start_client-Moved = start_client-Keeps (Moved-IsStartLaws e) 2

  -- thingsboard_set_state(THINGSBOARD_STATE_CONNECTING) leaves the client connecting, as it does
  -- while the provisioning is on its way, or connected or disconnected.
  pub set_state-connecting :
      (w : World)
      → ((set_state e connecting w).0.client.state ≡ connecting)
        ⊎ (is_final (set_state e connecting w).0.client.state ≡ true)
  unfolding set_state set_state_with handle_state lock unlock
  set_state-connecting w = grind (arith, start_client-Moved)

  pub prov_callback-Moved : (token : Bytes) → Keeps Moved (prov_callback e token)
  prov_callback-Moved token = prov_callback-Keeps (Moved-IsStartLaws e) token
