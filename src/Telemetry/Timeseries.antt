-- ===== src/Telemetry/Timeseries.antt =====
-- `thingsboard_send_timeseries` of src/thingsboard.c.
pub mod Balance
pub mod Sized
pub mod Frame
pub mod Batch
pub mod TooLarge
pub mod Slots
pub mod Payloads
pub mod Apart
use thingsboard_sdk.Base.{
  ℕ, zero, suc, ◌+◌, Bool, Option, none, some, List, [], ◌∷◌, ◌++◌, Bytes, length, drop, ltb, ◌==◌,
  if◌then◌else◌,
}
use thingsboard_sdk.Types.{
  Errno, Result, ok, err, ReturnCode, eagain, einval, enomem, eio, Timeseries, Request,
}
use thingsboard_sdk.Platform.{Env, out_of_bounds, assert_failed, ts_to_send_is_positive}
use thingsboard_sdk.World.{World, M, ◌>>=◌, ◌>>◌, pure, done, emit, ask, when, modify_request}
use thingsboard_sdk.Codec.{timeseries_encode}
use thingsboard_sdk.Requests.{is_active, request_alloc, request_free}
use thingsboard_sdk.Telemetry.Post.{send_telemetry_request}

-- A slot of `requests` and `payload_len`.
abbrev pub Slot : Type 0
Slot = ℕ × ℕ

-- How the first loop ends. `refused` has the slots that are complete, and the pointer in
-- `requests[request_num]`; `overrun` has them and the block that was written behind the array.
pub data Prepared : Type 0 where
  prepared : List Slot → Prepared
  refused : Errno → List Slot → Option ℕ → Prepared
  overrun : List Slot → ℕ → Prepared

free_slots : List Slot → M (Unit {0})
free_slots [] = done
free_slots ((r, len) ∷ slots) = do request_free (some r); free_slots slots

module _ (e : Env) where
  -- `requests[request_num]` behind the end of the array: what stands there is freed.
  free_beyond : M (Unit {0})
  free_beyond = do request ← ask e.beyond_requests out_of_bounds; request_free request

  -- The loop behind `free_requests`, which goes up to `request_num` inclusive.
  free_requests : ℕ → List Slot → Option ℕ → M (Unit {0})
  unfolding free_slots free_beyond
  free_requests max slots last = do
    free_slots slots
    if ltb (length slots) max then request_free last else free_beyond

  -- The part of a round behind the allocation. `rest` goes on with the entries behind those sent.
  -- The assertion is one of a build that goes on when it fails.
  fill_slot : (ℕ → List Slot → M Prepared) → List Timeseries → List Slot → ℕ → M Prepared
  fill_slot rest ts slots r = elim (timeseries_encode e ts e.kconfig.coap_client_message_size) [
    | err _ ↦ pure (refused einval slots (some r))
    | ok (payload, sent) ↦ (do
      modify_request r (λ q. record q { payload = payload })
      when (sent == 0) (emit (assert_failed ts_to_send_is_positive))
      rest sent (slots ++ (r, length payload) ∷ []))
  ]

  -- The `while` loop: `room` is CONFIG_COAP_CLIENT_MAX_REQUESTS - request_num. A block that is
  -- allocated when the array is full is written behind its end.
  pub prepare : ℕ → List Timeseries → List Slot → M Prepared
  prepare room [] slots = pure (prepared slots)
  prepare zero (t ∷ ts) slots = do
    request ← request_alloc e
    elim request [
      | none ↦ pure (refused enomem slots none)
      | some r ↦ (do emit (out_of_bounds none); pure (overrun slots r))
    ]
  prepare (suc room) (t ∷ ts) slots = do
    request ← request_alloc e
    elim request [
      | none ↦ pure (refused enomem slots none)
      | some r ↦ fill_slot (λ sent. prepare room (drop sent (t ∷ ts))) (t ∷ ts) slots r
    ]

  -- The `for` loop that sends the prepared requests.
  send_slots : List Slot → M ReturnCode
  unfolding free_slots
  send_slots [] = pure (ok 0)
  send_slots ((r, len) ∷ slots) = do
    res ← send_telemetry_request e r len
    elim res [ err _ ↦ (do free_slots slots; pure (err eio)) | ok _ ↦ send_slots slots ]

  finish_timeseries : Prepared → M ReturnCode
  unfolding send_slots free_requests
  finish_timeseries (prepared slots) = send_slots slots
  finish_timeseries (refused x slots last) = do
    free_requests e.kconfig.coap_client_max_requests slots last
    pure (err x)
  finish_timeseries (overrun slots r) = pure (err enomem)

  -- thingsboard_send_timeseries
  unfoldable pub send_timeseries : List Timeseries → M ReturnCode
  unfolding prepare fill_slot finish_timeseries
  send_timeseries ts w =
      if is_active w
      then (do result ← prepare e.kconfig.coap_client_max_requests ts []; finish_timeseries result)
          w
      else (w, err eagain)
