-- ===== src/Telemetry/Timeseries/Apart.antt =====
-- Sending of telemetry leaves the firmware update alone.
use thingsboard_sdk.Base.{
  ℕ, zero, suc, refl, some, Option-cases, inl, inr, List, [], ◌∷◌, ◌++◌, ◌==◌, length, drop, arith,
}
use thingsboard_sdk.Types.{Timeseries}
use thingsboard_sdk.Types.Cases.{Result-cases}
use thingsboard_sdk.Codec.{timeseries_encode}
use thingsboard_sdk.Platform.{Env, assert_failed, ts_to_send_is_positive}
use thingsboard_sdk.World.{World, when, emit, modify_request}
use thingsboard_sdk.World.Keeps.{Keeps}
use thingsboard_sdk.Requests.{request_alloc, request_free}
use thingsboard_sdk.Requests.Apart.{Apart}
use thingsboard_sdk.Telemetry.Post.{send_telemetry_request}
use thingsboard_sdk.Telemetry.Post.Apart.{send_telemetry_request-Apart}
use thingsboard_sdk.Telemetry.Timeseries.{
  Slot, Prepared, prepared, refused, overrun, free_slots, free_beyond, free_requests, fill_slot,
  prepare, send_slots, finish_timeseries, send_timeseries,
}

free_slots-Apart : (slots : List Slot) → Keeps Apart (free_slots slots)
unfolding free_slots request_free
free_slots-Apart [] w = (refl, refl, refl, refl, refl)
free_slots-Apart ((r, len) ∷ slots) w = free_slots-Apart slots (request_free (some r) w).0

module _ (e : Env) where
  send_slots-Apart : (slots : List Slot) → Keeps Apart (send_slots e slots)
  unfolding send_slots
  send_slots-Apart [] w = (refl, refl, refl, refl, refl)
  send_slots-Apart ((r, len) ∷ slots) w =
      let v = (send_telemetry_request e r len w).0 in
      ground (
        arith,
        send_telemetry_request-Apart e r len w,
        free_slots-Apart slots v,
        send_slots-Apart slots v,
      )

  fill_slot-Apart :
      (rest : ℕ → List Slot → World → World × Prepared) (ts : List Timeseries) (slots : List Slot)
      (r : ℕ)
      → ((n : ℕ) (ss : List Slot) → Keeps Apart (rest n ss))
      → Keeps Apart (fill_slot e rest ts slots r)
  unfolding fill_slot
  fill_slot-Apart rest ts slots r h w =
      elim (Result-cases (timeseries_encode e ts e.kconfig.coap_client_message_size)) [
        | inl ((payload, sent), p) ↦
            let v = (modify_request r (λ q. record q { payload = payload }) w).0 in
            let u = (when (sent == 0) (emit (assert_failed ts_to_send_is_positive)) v).0 in
            rw (p, fill_slot) (ground (arith, h sent (slots ++ (r, length payload) ∷ []) u))
        | inr (x, p) ↦ rw (p, fill_slot) (refl, refl, refl, refl, refl)
      ]

  prepare-Apart :
      (room : ℕ) (ts : List Timeseries) (slots : List Slot) → Keeps Apart (prepare e room ts slots)
  unfolding prepare request_alloc
  prepare-Apart room [] slots w = (refl, refl, refl, refl, refl)
  prepare-Apart zero (t ∷ ts) slots w = ground arith
  prepare-Apart (suc room) (t ∷ ts) slots w = elim (Option-cases (e.mem_slab_alloc w.history)) [
    | inl p ↦ rw (p, prepare, request_alloc) (refl, refl, refl, refl, refl)
    | inr (r, p) ↦
        rw (p, prepare, request_alloc)
          (fill_slot-Apart (λ sent. prepare e room (drop sent (t ∷ ts))) (t ∷ ts) slots r
            (λ n ss. prepare-Apart room (drop n (t ∷ ts)) ss) _)
  ]

  finish_timeseries-Apart : (p : Prepared) → Keeps Apart (finish_timeseries e p)
  unfolding finish_timeseries free_requests free_beyond request_free
  finish_timeseries-Apart (prepared slots) w = send_slots-Apart slots w
  finish_timeseries-Apart (refused x slots last) w = ground (arith, free_slots-Apart slots w)
  finish_timeseries-Apart (overrun slots r) w = (refl, refl, refl, refl, refl)

  pub send_timeseries-Apart : (ts : List Timeseries) → Keeps Apart (send_timeseries e ts)
  unfolding send_timeseries
  send_timeseries-Apart ts w =
      let p = prepare e e.kconfig.coap_client_max_requests ts [] w in
      ground (
        arith,
        prepare-Apart e.kconfig.coap_client_max_requests ts [] w,
        finish_timeseries-Apart p.1 p.0,
      )
