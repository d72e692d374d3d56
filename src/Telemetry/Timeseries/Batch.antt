-- ===== src/Telemetry/Timeseries/Batch.antt =====
-- The requests of a batch of timeseries are all prepared before one is sent.
use thingsboard_sdk.Base.{
  ℕ, zero, suc, ◌≡◌, ◌⊎◌, refl, some, Option-cases, inl, inr, List, [], ◌∷◌, ◌++◌, ◌==◌, length,
  drop, arith,
}
use thingsboard_sdk.Types.{Timeseries, ok, err, eio}
use thingsboard_sdk.Types.Cases.{Result-cases}
use thingsboard_sdk.Codec.{timeseries_encode}
use thingsboard_sdk.Platform.{Env, assert_failed, ts_to_send_is_positive, History, coap_client_req}
use thingsboard_sdk.World.{World, when, emit, modify_request}
use thingsboard_sdk.World.Keeps.{Keeps}
use thingsboard_sdk.Requests.{request_alloc, request_free}
use thingsboard_sdk.Telemetry.Post.{send_telemetry_request}
use thingsboard_sdk.Telemetry.Timeseries.{
  Slot, Prepared, prepared, refused, overrun, free_slots, free_beyond, free_requests, fill_slot,
  prepare, send_slots, finish_timeseries, send_timeseries,
}

-- How often the CoAP client was asked to send.
abbrev pub posted : History → ℕ
posted [] = 0
posted (coap_client_req q res ∷ h) = suc (posted h)
posted (_ ∷ h) = posted h

abbrev Unposted : World → World → Type 0
Unposted v w = posted w.history ≡ posted v.history

free_slots-Unposted : (slots : List Slot) → Keeps Unposted (free_slots slots)
unfolding free_slots request_free
free_slots-Unposted [] w = refl
free_slots-Unposted ((r, len) ∷ slots) w = free_slots-Unposted slots (request_free (some r) w).0

module _ (e : Env) where
  send_slots-result :
      (slots : List Slot) (w : World)
      → ((send_slots e slots w).1 ≡ ok 0) ⊎ ((send_slots e slots w).1 ≡ err eio)
  unfolding send_slots
  send_slots-result [] w = inl refl
  send_slots-result ((r, len) ∷ slots) w =
      ground (arith, send_slots-result slots (send_telemetry_request e r len w).0)

  fill_slot-Unposted :
      (rest : ℕ → List Slot → World → World × Prepared) (ts : List Timeseries) (slots : List Slot)
      (r : ℕ)
      → ((n : ℕ) (ss : List Slot) → Keeps Unposted (rest n ss))
      → Keeps Unposted (fill_slot e rest ts slots r)
  unfolding fill_slot
  fill_slot-Unposted rest ts slots r h w =
      elim (Result-cases (timeseries_encode e ts e.kconfig.coap_client_message_size)) [
        | inl ((payload, sent), p) ↦
            let v = (modify_request r (λ q. record q { payload = payload }) w).0 in
            let u = (when (sent == 0) (emit (assert_failed ts_to_send_is_positive)) v).0 in
            rw (p, fill_slot) (ground (arith, h sent (slots ++ (r, length payload) ∷ []) u))
        | inr (x, p) ↦ rw (p, fill_slot) refl
      ]

  prepare-Unposted :
      (room : ℕ) (ts : List Timeseries) (slots : List Slot)
      → Keeps Unposted (prepare e room ts slots)
  unfolding prepare request_alloc
  prepare-Unposted room [] slots w = refl
  prepare-Unposted zero (t ∷ ts) slots w = ground arith
  prepare-Unposted (suc room) (t ∷ ts) slots w = elim (Option-cases (e.mem_slab_alloc w.history)) [
    | inl p ↦ rw (p, prepare, request_alloc) refl
    | inr (r, p) ↦
        rw (p, prepare, request_alloc)
          (fill_slot-Unposted (λ sent. prepare e room (drop sent (t ∷ ts))) (t ∷ ts) slots r
            (λ n ss. prepare-Unposted room (drop n (t ∷ ts)) ss) _)
  ]

  finish_timeseries-result :
      (p : Prepared) (w : World)
      → Unposted w (finish_timeseries e p w).0
        ⊎ (((finish_timeseries e p w).1 ≡ ok 0) ⊎ ((finish_timeseries e p w).1 ≡ err eio))
  unfolding finish_timeseries free_requests free_beyond request_free
  finish_timeseries-result (prepared slots) w = inr (send_slots-result slots w)
  finish_timeseries-result (refused x slots last) w =
      inl (ground (arith, free_slots-Unposted slots w))
  finish_timeseries-result (overrun slots r) w = inl refl

-- thingsboard_send_timeseries sends none of its requests, or it returns 0 or -EIO.
pub send_timeseries-none :
    (e : Env) (ts : List Timeseries) (w : World)
    → (posted (send_timeseries e ts w).0.history ≡ posted w.history)
      ⊎ (((send_timeseries e ts w).1 ≡ ok 0) ⊎ ((send_timeseries e ts w).1 ≡ err eio))
unfolding send_timeseries
send_timeseries-none e ts w =
    let p = prepare e e.kconfig.coap_client_max_requests ts [] w in
    ground (
      arith,
      prepare-Unposted e e.kconfig.coap_client_max_requests ts [] w,
      finish_timeseries-result e p.1 p.0,
    )
