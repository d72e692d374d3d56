-- ===== src/Requests.antt =====
-- The request slab and the small helpers of src/thingsboard.c.
pub mod Balance
pub mod Frame
pub mod Traffic
pub mod Sized
pub mod Apart
use thingsboard_sdk.Base.{ℕ, Bool, true, false, Option, none, some, [], ◌∷◌}
use thingsboard_sdk.Types.{
  ReturnCode, ThingsboardState, connected, connecting, ThingsboardEvent, Configuration, Request,
  CoapRequest,
}
use thingsboard_sdk.Platform.{
  Env, k_mem_slab_alloc, k_mem_slab_free, coap_client_req, k_mutex_lock, k_mutex_unlock, on_event,
}
use thingsboard_sdk.World.{World, M, ◌>>=◌, ◌>>◌, pure, update, emit, ask, when, modify_request}

unfoldable pub lock : M (Unit {0})
lock = emit k_mutex_lock

unfoldable pub unlock : M (Unit {0})
unlock = emit k_mutex_unlock

-- Leave a function that holds the lock.
abbrev pub unlock_return : {A : Type 0} → A → M A
unlock_return a = do unlock; pure a

abbrev pub zero_request : Request
zero_request = record { rpc_cb = none; options = []; path = []; payload = [] }

abbrev pub is_active_state : ThingsboardState → Bool
is_active_state connected = true
is_active_state connecting = true
is_active_state _ = false

-- thingsboard_is_active
unfoldable pub is_active : World → Bool
is_active w = is_active_state w.client.state

abbrev pub has_on_event : Option Configuration → Bool
has_on_event none = false
has_on_event (some c) = c.callbacks.on_event

abbrev pub has_on_attributes_write : Option Configuration → Bool
has_on_attributes_write none = false
has_on_attributes_write (some c) = c.callbacks.on_attributes_write

-- thingsboard_event
unfoldable pub event : ThingsboardEvent → M (Unit {0})
event ev w = when (has_on_event w.client.config) (emit (on_event ev)) w

-- thingsboard_request_free
unfoldable pub request_free : Option ℕ → M (Unit {0})
request_free r = emit (k_mem_slab_free r)

-- The state behind the allocation of block `r`.
abbrev pub after_alloc : ℕ → World → World
after_alloc r w = record w {
  slab = update w.slab r zero_request;
  history = k_mem_slab_alloc (some r) ∷ w.history;
}

module _ (e : Env) where
  -- thingsboard_request_alloc
  unfoldable pub request_alloc : M (Option ℕ)
  request_alloc = do
    slab ← ask e.mem_slab_alloc k_mem_slab_alloc
    elim slab [
      | none ↦ pure none
      | some r ↦ (do modify_request r (λ _. zero_request); pure (some r))
    ]

  unfoldable pub send_coap : CoapRequest → M ReturnCode
  send_coap q = ask (λ h. e.coap_req h q) (coap_client_req q)
