-- ===== src/Requests/Frame.antt =====
-- What most functions leave alone: the client's state and configuration, the depth of the lock, and
-- the last change of connection that the application was told of.
use thingsboard_sdk.Base.{
  Bool, true, false, if◌then◌else◌, ℕ, suc, ◌-◌, ◌≡◌, refl, Option, none, some, [], ◌∷◌,
}
use thingsboard_sdk.Types.{ThingsboardEvent, became_active, became_suspended, became_disconnected}
use thingsboard_sdk.Types.{ok, Handler, attribute_notification}
use thingsboard_sdk.Platform.{
  Assertion, zsock_socket, zsock_close, History, k_mutex_lock, k_mutex_unlock, on_event,
  coap_client_req, callback, assert_failed, observation_is_null, observation_is_request,
}
use thingsboard_sdk.World.{World}
use thingsboard_sdk.World.Keeps.{IsPreorder}

-- How often the calling thread holds the lock.
abbrev pub depth : History → ℕ
depth [] = 0
depth (k_mutex_lock ∷ h) = suc (depth h)
depth (k_mutex_unlock ∷ h) = depth h - 1
depth (_ ∷ h) = depth h

-- The last event about the connection.
abbrev pub reported : History → Option ThingsboardEvent
reported [] = none
reported (on_event became_active ∷ h) = some became_active
reported (on_event became_suspended ∷ h) = some became_suspended
reported (on_event became_disconnected ∷ h) = some became_disconnected
reported (_ ∷ h) = reported h

abbrev pub is_observe : Handler → Bool
is_observe attribute_notification = true
is_observe _ = false

-- The assertions on the observation.
abbrev pub is_watched : Assertion → Bool
is_watched observation_is_null = true
is_watched observation_is_request = true
is_watched _ = false

abbrev pub Framed : World → World → Type 0
Framed v w =
    (w.client.state ≡ v.client.state)
    × (w.client.config ≡ v.client.config)
    × (depth w.history ≡ depth v.history)
    × (reported w.history ≡ reported v.history)

pub Framed-preorder : IsPreorder Framed
Framed-preorder = record {
  reflexive = λ w. (refl, refl, refl, refl);
  transitive = λ u v w p q. (cc, cc, cc, cc);
}

-- The sockets that were opened and closed.
abbrev pub sockets : History → History
sockets [] = []
sockets (zsock_socket p (ok s) ∷ h) = zsock_socket p (ok s) ∷ sockets h
sockets (zsock_close s res ∷ h) = zsock_close s res ∷ sockets h
sockets (_ ∷ h) = sockets h

-- What all but the handling of sockets and the provisioning leave alone as well: the sockets,
-- whether the provisioning has a callback, and the token.
abbrev pub Wired : World → World → Type 0
Wired v w =
    (w.client.server_socket ≡ v.client.server_socket)
    × (w.prov_cb ≡ v.prov_cb)
    × (sockets w.history ≡ sockets v.history)
    × (w.client.access_token ≡ v.client.access_token)

abbrev pub Steady : World → World → Type 0
Steady v w = Framed v w × Wired v w

-- What is about the observation: its requests and their ends, and its assertions.
abbrev pub observing : History → History
observing [] = []
observing (coap_client_req q res ∷ h) =
    if is_observe q.cb then coap_client_req q res ∷ observing h else observing h
observing (callback attribute_notification res last_block r ∷ h) =
    callback attribute_notification res last_block r ∷ observing h
observing (assert_failed a ∷ h) =
    if is_watched a then assert_failed a ∷ observing h else observing h
observing (_ ∷ h) = observing h

-- What all but the observation leaves alone.
abbrev pub Watched : World → World → Type 0
Watched v w =
    (w.client.attributes_observation ≡ v.client.attributes_observation)
    × (observing w.history ≡ observing v.history)

abbrev pub Still : World → World → Type 0
Still v w = Framed v w × Wired v w × Watched v w

pub Still→Steady : (v w : World) → Still v w → Steady v w
Still→Steady v w h = (h.0, h.1)
