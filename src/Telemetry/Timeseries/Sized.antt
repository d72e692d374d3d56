-- ===== src/Telemetry/Timeseries/Sized.antt =====
-- The requests of `send_timeseries` fit into their buffers.
use thingsboard_sdk.Base.{
  ℕ, zero, suc, ◌≤◌, refl, some, Option-cases, inl, inr, List, [], ◌∷◌, ◌++◌, ◌==◌, length, drop,
  arith,
}
use thingsboard_sdk.Types.{Timeseries}
use thingsboard_sdk.Types.Cases.{Result-cases}
use thingsboard_sdk.Codec.{timeseries_encode}
use thingsboard_sdk.Codec.Bounds.{EncodersFit, timeseries_encode-fits}
use thingsboard_sdk.Platform.{Env, assert_failed, ts_to_send_is_positive}
use thingsboard_sdk.World.{World, when, emit, modify_request}
use thingsboard_sdk.World.Keeps.{Keeps}
use thingsboard_sdk.Requests.{request_alloc, request_free}
use thingsboard_sdk.Requests.Sized.{Sized}
use thingsboard_sdk.Telemetry.Post.{send_telemetry_request}
use thingsboard_sdk.Telemetry.Post.Sized.{send_telemetry_request-Sized}
use thingsboard_sdk.Telemetry.Timeseries.{
  Slot, Prepared, prepared, refused, overrun, free_slots, free_beyond, free_requests, fill_slot,
  prepare, send_slots, finish_timeseries, send_timeseries,
}

-- The lengths in `payload_len` are within the buffer.
abbrev Within : ℕ → List Slot → Type 0
Within n [] = Unit {0}
Within n ((r, len) ∷ slots) = (len ≤ n) × Within n slots

Within-append :
    (n : ℕ) (slots : List Slot) (r len : ℕ)
    → Within n slots
    → len ≤ n
    → Within n (slots ++ (r, len) ∷ [])
Within-append n [] r len h k = (k, tt)
Within-append n ((q, l) ∷ slots) r len (a, h) k = (a, Within-append n slots r len h k)

-- Only complete slots are sent.
abbrev SendsWithin : ℕ → Prepared → Type 0
SendsWithin n (prepared slots) = Within n slots
SendsWithin n (refused x slots last) = Unit {0}
SendsWithin n (overrun slots r) = Unit {0}

-- The first loop sends nothing.
abbrev Prepares : (e : Env) → World → World × Prepared → Type 0
Prepares e w r = Sized e.kconfig w r.0 × SendsWithin e.kconfig.coap_client_message_size r.1

module _ (e : Env) where
  free_slots-Sized : (slots : List Slot) → Keeps (Sized e.kconfig) (free_slots slots)
  unfolding free_slots request_free
  free_slots-Sized [] w = refl
  free_slots-Sized ((r, len) ∷ slots) w = free_slots-Sized slots (request_free (some r) w).0

  send_slots-Sized :
      (slots : List Slot) (w : World)
      → Within e.kconfig.coap_client_message_size slots
      → Sized e.kconfig w (send_slots e slots w).0
  unfolding send_slots
  send_slots-Sized [] w h = refl
  send_slots-Sized ((r, len) ∷ slots) w (a, h) =
      let v = (send_telemetry_request e r len w).0 in
      ground (
        arith,
        send_telemetry_request-Sized e r len w a,
        free_slots-Sized slots v,
        send_slots-Sized slots v h,
      )

  finish_timeseries-Sized :
      (p : Prepared) (w : World)
      → SendsWithin e.kconfig.coap_client_message_size p
      → Sized e.kconfig w (finish_timeseries e p w).0
  unfolding finish_timeseries free_requests free_beyond request_free
  finish_timeseries-Sized (prepared slots) w h = send_slots-Sized slots w h
  finish_timeseries-Sized (refused x slots last) w h = ground (arith, free_slots-Sized slots w)
  finish_timeseries-Sized (overrun slots r) w h = refl

module _ (e : Env) (fits : EncodersFit e) where
  fill_slot-Prepares :
      (rest : ℕ → List Slot → World → World × Prepared) (ts : List Timeseries) (slots : List Slot)
      (r : ℕ) (w : World)
      → ((n : ℕ) (ss : List Slot) (v : World)
          → Within e.kconfig.coap_client_message_size ss
          → Prepares e v (rest n ss v))
      → Within e.kconfig.coap_client_message_size slots
      → Prepares e w (fill_slot e rest ts slots r w)
  unfolding fill_slot
  fill_slot-Prepares rest ts slots r w h all =
      let size = e.kconfig.coap_client_message_size in
      elim (Result-cases (timeseries_encode e ts size)) [
        | inl ((payload, sent), p) ↦
            let v = (modify_request r (λ q. record q { payload = payload }) w).0 in
            let u = (when (sent == 0) (emit (assert_failed ts_to_send_is_positive)) v).0 in
            let l = timeseries_encode-fits e ts size payload sent fits.timeseries fits.entries p in
            let more = Within-append size slots r (length payload) all l in
            rw (p, fill_slot) (ground (arith, h sent (slots ++ (r, length payload) ∷ []) u more))
        | inr (x, p) ↦ rw (p, fill_slot) (refl, tt)
      ]

  prepare-Prepares :
      (room : ℕ) (ts : List Timeseries) (slots : List Slot) (w : World)
      → Within e.kconfig.coap_client_message_size slots
      → Prepares e w (prepare e room ts slots w)
  unfolding prepare request_alloc
  prepare-Prepares room [] slots w all = (refl, all)
  prepare-Prepares zero (t ∷ ts) slots w all = elim (Option-cases (e.mem_slab_alloc w.history)) [
    | inl p ↦ rw (p, prepare, request_alloc) (refl, tt)
    | inr (r, p) ↦ rw (p, prepare, request_alloc) (refl, tt)
  ]
  prepare-Prepares (suc room) (t ∷ ts) slots w all =
      elim (Option-cases (e.mem_slab_alloc w.history)) [
        | inl p ↦ rw (p, prepare, request_alloc) (refl, tt)
        | inr (r, p) ↦
            rw (p, prepare, request_alloc)
              (fill_slot-Prepares (λ sent. prepare e room (drop sent (t ∷ ts))) (t ∷ ts) slots r _
                (λ n ss v. prepare-Prepares room (drop n (t ∷ ts)) ss v) all)
      ]

  pub send_timeseries-Sized :
      (ts : List Timeseries) → Keeps (Sized e.kconfig) (send_timeseries e ts)
  unfolding send_timeseries
  send_timeseries-Sized ts w =
      let p = prepare e e.kconfig.coap_client_max_requests ts [] w in
      let (s, h) = prepare-Prepares e.kconfig.coap_client_max_requests ts [] w tt in
      ground (arith, s, finish_timeseries-Sized e p.1 p.0 h)
