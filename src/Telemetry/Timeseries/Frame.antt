-- ===== src/Telemetry/Timeseries/Frame.antt =====
-- Sending of timeseries changes no state of the client.
use thingsboard_sdk.Base.{
  ℕ, zero, suc, refl, some, Option-cases, inl, inr, List, [], ◌∷◌, ◌++◌, ◌==◌, length, drop, arith,
}
use thingsboard_sdk.Types.{Timeseries}
use thingsboard_sdk.Types.Cases.{Result-cases}
use thingsboard_sdk.Codec.{timeseries_encode}
use thingsboard_sdk.Platform.{Env, assert_failed, ts_to_send_is_positive}
use thingsboard_sdk.World.{World, when, emit, modify_request}
use thingsboard_sdk.World.Keeps.{Keeps}
use thingsboard_sdk.Requests.{request_alloc, request_free}
use thingsboard_sdk.Requests.Frame.{Still}
use thingsboard_sdk.Telemetry.Post.{send_telemetry_request}
use thingsboard_sdk.Telemetry.Post.Frame.{send_telemetry_request-Still}
use thingsboard_sdk.Telemetry.Timeseries.{
  Slot, Prepared, prepared, refused, overrun, free_slots, free_beyond, free_requests, fill_slot,
  prepare, send_slots, finish_timeseries, send_timeseries,
}

free_slots-Still : (slots : List Slot) → Keeps Still (free_slots slots)
unfolding free_slots request_free
free_slots-Still [] w = ((refl, refl, refl, refl), (refl, refl, refl, refl), (refl, refl))
free_slots-Still ((r, len) ∷ slots) w = free_slots-Still slots (request_free (some r) w).0

module _ (e : Env) where
  send_slots-Still : (slots : List Slot) → Keeps Still (send_slots e slots)
  unfolding send_slots
  send_slots-Still [] w = ((refl, refl, refl, refl), (refl, refl, refl, refl), (refl, refl))
  send_slots-Still ((r, len) ∷ slots) w =
      let v = (send_telemetry_request e r len w).0 in
      ground (
        arith,
        send_telemetry_request-Still e r len w,
        free_slots-Still slots v,
        send_slots-Still slots v,
      )

  fill_slot-Still :
      (rest : ℕ → List Slot → World → World × Prepared) (ts : List Timeseries) (slots : List Slot)
      (r : ℕ)
      → ((n : ℕ) (ss : List Slot) → Keeps Still (rest n ss))
      → Keeps Still (fill_slot e rest ts slots r)
  unfolding fill_slot
  fill_slot-Still rest ts slots r h w =
      elim (Result-cases (timeseries_encode e ts e.kconfig.coap_client_message_size)) [
        | inl ((payload, sent), p) ↦
            let v = (modify_request r (λ q. record q { payload = payload }) w).0 in
            let u = (when (sent == 0) (emit (assert_failed ts_to_send_is_positive)) v).0 in
            rw (p, fill_slot) (ground (arith, h sent (slots ++ (r, length payload) ∷ []) u))
        | inr (x, p) ↦
            rw (p, fill_slot) ((refl, refl, refl, refl), (refl, refl, refl, refl), (refl, refl))
      ]

  prepare-Still :
      (room : ℕ) (ts : List Timeseries) (slots : List Slot) → Keeps Still (prepare e room ts slots)
  unfolding prepare request_alloc
  prepare-Still room [] slots w = ((refl, refl, refl, refl), (refl, refl, refl, refl), (refl, refl))
  prepare-Still zero (t ∷ ts) slots w = ground arith
  prepare-Still (suc room) (t ∷ ts) slots w = elim (Option-cases (e.mem_slab_alloc w.history)) [
    | inl p ↦
        rw (p, prepare, request_alloc)
          ((refl, refl, refl, refl), (refl, refl, refl, refl), (refl, refl))
    | inr (r, p) ↦
        rw (p, prepare, request_alloc)
          (fill_slot-Still (λ sent. prepare e room (drop sent (t ∷ ts))) (t ∷ ts) slots r
            (λ n ss. prepare-Still room (drop n (t ∷ ts)) ss) _)
  ]

  finish_timeseries-Still : (p : Prepared) → Keeps Still (finish_timeseries e p)
  unfolding finish_timeseries free_requests free_beyond request_free
  finish_timeseries-Still (prepared slots) w = send_slots-Still slots w
  finish_timeseries-Still (refused x slots last) w = ground (arith, free_slots-Still slots w)
  finish_timeseries-Still (overrun slots r) w =
      ((refl, refl, refl, refl), (refl, refl, refl, refl), (refl, refl))

  pub send_timeseries-Still : (ts : List Timeseries) → Keeps Still (send_timeseries e ts)
  unfolding send_timeseries
  send_timeseries-Still ts w =
      let p = prepare e e.kconfig.coap_client_max_requests ts [] w in
      ground (
        arith,
        prepare-Still e.kconfig.coap_client_max_requests ts [] w,
        finish_timeseries-Still p.1 p.0,
      )
