-- ===== src/Attributes.antt =====
-- The observation of the shared attributes in src/thingsboard.c.
pub mod Balance
pub mod Sized
pub mod Tracked
pub mod Keeps
pub mod Frame
pub mod Live
pub mod Outcome
use thingsboard_sdk.Base.{
  ℕ, Bool, true, false, Option, none, some, [], ◌∷◌, Bytes, ascii, length, ◌==◌, if◌then◌else◌,
  ◌&&◌, not,
}
use thingsboard_sdk.Types.{
  Result, ok, err, ReturnCode, enomem, efault, eio, ealready, ecanceled, get, observe,
  attribute_notification, CoapRequest, Request, Attributes,
}
use thingsboard_sdk.Platform.{
  Env, Delivery, callback, coap_client_cancel_request, on_attributes_write, assert_failed,
  observation_is_null, observation_is_request,
}
use thingsboard_sdk.World.{
  World, Client, M, ◌>>=◌, ◌>>◌, pure, done, emit, when, get_world, modify_client, modify_request,
}
use thingsboard_sdk.CatPath.{cat_path, api_path}
use thingsboard_sdk.Codec.{attributes_decode, attributes_update}
use thingsboard_sdk.Requests.{
  request_alloc, request_free, send_coap, lock, unlock, has_on_attributes_write,
}
use thingsboard_sdk.Fota.{is_err}
use thingsboard_sdk.Fota.Start.{fota_on_attributes}

abbrev pub set_observation : Option ℕ → M (Unit {0})
set_observation o = modify_client λ c. record c { attributes_observation = o }

abbrev pub is_null : Option ℕ → Bool
is_null none = true
is_null (some _) = false

abbrev pub points_to : Option ℕ → ℕ → Bool
points_to none r = false
points_to (some q) r = q == r

-- What a cancelled request is told.
abbrev pub canceled : Delivery
canceled = record { result_code = err ecanceled; payload = []; beyond = []; last_block = true }

module _ (e : Env) where
  -- An error of thingsboard_client_subscribe_attributes behind the allocation.
  drop_observation : ℕ → ReturnCode → M ReturnCode
  drop_observation r res = do request_free (some r); set_observation none; pure res

  observe_request : ℕ → World → CoapRequest
  observe_request r w = record {
    confirmable = true;
    method = get;
    path = (w.slab r).path;
    options = (w.slab r).options;
    payload = [];
    fmt = none;
    cb = attribute_notification;
    user_data = r;
  }

  post_observe : ℕ → M ReturnCode
  unfolding observe_request drop_observation
  post_observe r = do
    w ← get_world
    res ← send_coap e (observe_request r w)
    elim res [ err _ ↦ drop_observation r (err eio) | ok _ ↦ pure (ok 0) ]

  prepare_observe : ℕ → M ReturnCode
  unfolding post_observe
  prepare_observe r w =
      elim (cat_path (api_path e.kconfig w.client (ascii "attributes"))
        e.kconfig.request_max_path_length) [
          | err _ ↦ drop_observation r (err efault) w
          | ok p ↦
              (do
                modify_request r (λ q. record q { path = p; options = observe ∷ [] })
                post_observe r)
                w
        ]

  -- thingsboard_client_subscribe_attributes
  unfoldable pub subscribe_attributes : M ReturnCode
  unfolding prepare_observe
  subscribe_attributes w =
      (do
        when (not (is_null w.client.attributes_observation))
            (emit (assert_failed observation_is_null))
        request ← request_alloc e
        set_observation request
        elim request [ none ↦ pure (err enomem) | some r ↦ prepare_observe r ])
        w

  -- The part of client_handle_attribute_notification behind the update.
  spread_attributes : Attributes → M (Unit {0})
  spread_attributes changes = do
    when e.kconfig.fota (fota_on_attributes e)
    w ← get_world
    when (has_on_attributes_write w.client.config) (emit (on_attributes_write changes))

  store_attributes : Attributes → M (Unit {0})
  unfolding spread_attributes
  store_attributes changes w = elim (attributes_update e changes w.client.shared_attributes) [
    | err _ ↦ (w, tt)
    | ok (count, current) ↦
        (do
          modify_client (λ c. record c { shared_attributes = current })
          spread_attributes changes)
          w
  ]

  pub take_attributes : Delivery → M (Unit {0})
  unfolding store_attributes
  take_attributes d =
      if is_err d.result_code
      then done
      else if length d.payload == 0
      then done
      else elim (attributes_decode e d.payload) [
        | err _ ↦ done
        | ok changes ↦ store_attributes changes
      ]

  -- What stands behind `out`.
  end_observation : Delivery → ℕ → M (Unit {0})
  end_observation d r w =
      when (d.last_block && is_err d.result_code)
        (do
          when (not (points_to w.client.attributes_observation r))
              (emit (assert_failed observation_is_request))
          set_observation none
          request_free (some r))
        w

  -- client_handle_attribute_notification. Where storing fails the code leaves without `out`, which
  -- does nothing there, as the result code is no error.
  unfoldable pub handle_attribute_notification : Delivery → ℕ → M (Unit {0})
  unfolding take_attributes end_observation
  handle_attribute_notification d r = do lock; take_attributes d; end_observation d r; unlock

  -- coap_client_cancel_request, which calls the handler of the request that it finds.
  cancel_request : ℕ → M (Unit {0})
  cancel_request r w =
      (do
        emit (coap_client_cancel_request r)
        when (e.cancel_delivers w.history r) (do
          emit (callback attribute_notification canceled.result_code canceled.last_block r)
          handle_attribute_notification canceled r))
        w

  cancel_observation : Option ℕ → M ReturnCode
  unfolding cancel_request
  cancel_observation none = pure (err ealready)
  cancel_observation (some r) = do cancel_request r; pure (ok 0)

  -- thingsboard_client_unsubscribe_attributes
  unfoldable pub unsubscribe_attributes : M ReturnCode
  unfolding cancel_observation
  unsubscribe_attributes w = cancel_observation w.client.attributes_observation w
