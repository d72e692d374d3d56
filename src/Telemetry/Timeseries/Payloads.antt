-- ===== src/Telemetry/Timeseries/Payloads.antt =====
-- What the requests of a batch of timeseries carry.
use thingsboard_sdk.Base.{
  append_assoc, append-nil, ℕ, zero, suc, ◌≤◌, ◌≡◌, refl, sym, ◌∙◌, ap, none, Option, Option-cases,
  inl, inr, List, [], ◌∷◌, ◌++◌, Bytes, length, drop, take, arith,
}
use thingsboard_sdk.Types.{Timeseries, ok, Errno}
use thingsboard_sdk.Types.Cases.{Result-cases}
use thingsboard_sdk.Codec.{timeseries_encode}
use thingsboard_sdk.Platform.{Env}
use thingsboard_sdk.World.{World}
use thingsboard_sdk.Requests.{request_alloc, after_alloc}
use thingsboard_sdk.Requests.Balance.{gained, spent, SlabIsExclusive}
use thingsboard_sdk.Telemetry.Post.{send_telemetry_request}
use thingsboard_sdk.Telemetry.Post.Payload.{
  sent, send_telemetry_request-sent, send_telemetry_request-payload,
}
use thingsboard_sdk.Telemetry.Timeseries.Slots.{
  loads, Holds, IsSound, filled, loads-equal, filled-keeps, filled-loads, filled-Holds,
}
use thingsboard_sdk.Telemetry.Timeseries.{
  Slot, Prepared, prepared, refused, overrun, free_slots, fill_slot, prepare, send_slots,
  finish_timeseries, send_timeseries,
}

-- The payloads are encodings of the entries: each of as many as the encoder took of those that the
-- earlier payloads left, until none is left.
pub data Batches : Env → List Timeseries → List Bytes → Type 0 where
  complete : {e : Env} → Batches e [] []
  batch :
      {e : Env} {t : Timeseries} {ts : List Timeseries} {payload : Bytes} {n : ℕ}
      {payloads : List Bytes}
      → timeseries_encode e (t ∷ ts) e.kconfig.coap_client_message_size ≡ ok (payload, n)
      → Batches e (drop n (t ∷ ts)) payloads
      → Batches e (t ∷ ts) (payload ∷ payloads)

module _ (e : Env) where
  send_slots-sent :
      (slots : List Slot) (w : World)
      → (send_slots e slots w).1 ≡ ok 0
      → sent (send_slots e slots w).0.history ≡ sent w.history ++ loads w slots
  unfolding send_slots free_slots
  send_slots-sent [] w h = rw (append-nil (sent w.history)) refl
  send_slots-sent ((r, len) ∷ slots) w h =
      let v = (send_telemetry_request e r len w).0 in
      let q = loads-equal w v slots (λ k. send_telemetry_request-payload e r len k w) in
      let t = take len (w.slab r).payload in
      elim (Result-cases ((send_telemetry_request e r len w).1)) [
        | inl (n, p) ↦
            let a : (send_slots e slots v).1 ≡ ok 0 = ground arith in
            let b = send_slots-sent slots v a in
            let c = send_telemetry_request-sent e r len n w p in
            let d = append_assoc (sent w.history) (t ∷ []) (loads w slots) in
            let z : sent (send_slots e slots v).0.history ≡ sent w.history ++ t ∷ loads w slots =
              b
              ∙ (ap (λ x. x ++ loads v slots) c
                  ∙ (ap (λ x. (sent w.history ++ t ∷ []) ++ x) q ∙ d)) in
            ground (arith, z)
        | inr (x, p) ↦ ground arith
      ]

  -- The first loop puts the encodings of what is left into new slots.
  Prepares : List Timeseries → List Slot → World → World × Prepared → Type 0
  Prepares ts slots w (v, prepared kept) =
      (payloads : List Bytes) × Batches e ts payloads
      × (loads v kept ≡ loads w slots ++ payloads)
      × (sent v.history ≡ sent w.history)
  Prepares ts slots w _ = Unit {0}

  -- A slot more, and the entries that it does not encode.
  Prepares-batch :
      (t : Timeseries) (ts : List Timeseries) (slots kept : List Slot) (w u : World)
      (payload : Bytes) (n : ℕ) (x : World × Prepared)
      → timeseries_encode e (t ∷ ts) e.kconfig.coap_client_message_size ≡ ok (payload, n)
      → loads u kept ≡ loads w slots ++ payload ∷ []
      → sent u.history ≡ sent w.history
      → Prepares (drop n (t ∷ ts)) kept u x
      → Prepares (t ∷ ts) slots w x
  unfolding Prepares
  Prepares-batch t ts slots kept w u payload n (v, prepared ss) p l q (ps, b, m, o) = (
    payload ∷ ps,
    batch p b,
    m ∙ (ap (λ z. z ++ ps) l ∙ append_assoc (loads w slots) (payload ∷ []) ps),
    o ∙ q,
  )
  Prepares-batch t ts slots kept w u payload n (v, refused x ss last) p l q h = tt
  Prepares-batch t ts slots kept w u payload n (v, overrun ss r) p l q h = tt

  fill_slot-Prepares :
      (rest : ℕ → List Slot → World → World × Prepared) (t : Timeseries) (ts : List Timeseries)
      (slots : List Slot) (r : ℕ) (w : World)
      → ((n : ℕ) (ss : List Slot) (u : World)
          → Holds u ss
          → IsSound u
          → Prepares (drop n (t ∷ ts)) ss u (rest n ss u))
      → Holds w slots
      → IsSound w
      → gained r w.history ≤ spent r w.history
      → Prepares (t ∷ ts) slots w (fill_slot e rest (t ∷ ts) slots r (after_alloc r w))
  unfolding fill_slot Prepares
  fill_slot-Prepares rest t ts slots r w f h s g =
      elim (Result-cases (timeseries_encode e (t ∷ ts) e.kconfig.coap_client_message_size)) [
        | inl ((payload, n), p) ↦
            let u = filled r payload n w in
            let kept = slots ++ (r, length payload) ∷ [] in
            let s' : IsSound u =
              λ k. let a = filled-keeps r payload n w k in let b = s k in omega arith in
            rw (p, fill_slot)
              (Prepares-batch t ts slots kept w u payload n (rest n kept u) p
                (filled-loads slots r payload n w h s g) ((filled-keeps r payload n w 0).0)
                (f n kept u (filled-Holds slots r payload n w h s) s'))
        | inr (x, p) ↦ rw (p, fill_slot) tt
      ]

  Prepares-refused :
      (x : Errno) (last : Option ℕ) (ts : List Timeseries) (slots ss : List Slot) (w v : World)
      → Prepares ts slots w (v, refused x ss last)
  unfolding Prepares
  Prepares-refused x last ts slots ss w v = tt

  Prepares-overrun :
      (r : ℕ) (ts : List Timeseries) (slots ss : List Slot) (w v : World)
      → Prepares ts slots w (v, overrun ss r)
  unfolding Prepares
  Prepares-overrun r ts slots ss w v = tt

  Prepares-done : (slots : List Slot) (w : World) → Prepares [] slots w (w, prepared slots)
  unfolding Prepares
  Prepares-done slots w = ([], complete, sym (append-nil (loads w slots)), refl)

  prepare-Prepares :
      (room : ℕ) (ts : List Timeseries) (slots : List Slot) (w : World)
      → SlabIsExclusive e
      → Holds w slots
      → IsSound w
      → Prepares ts slots w (prepare e room ts slots w)
  unfolding prepare request_alloc
  prepare-Prepares room [] slots w x h s = Prepares-done slots w
  prepare-Prepares zero (t ∷ ts) slots w x h s = elim (Option-cases (e.mem_slab_alloc w.history)) [
    | inl p ↦ rw (p, prepare, request_alloc) (Prepares-refused _ none _ slots slots w _)
    | inr (r, p) ↦ rw (p, prepare, request_alloc) (Prepares-overrun r _ slots slots w _)
  ]
  prepare-Prepares (suc room) (t ∷ ts) slots w x h s =
      elim (Option-cases (e.mem_slab_alloc w.history)) [
        | inl p ↦ rw (p, prepare, request_alloc) (Prepares-refused _ none _ slots slots w _)
        | inr (r, p) ↦
            rw (p, prepare, request_alloc)
              (fill_slot-Prepares (λ sent. prepare e room (drop sent (t ∷ ts))) t ts slots r w
                (λ n ss u k d. prepare-Prepares room (drop n (t ∷ ts)) ss u x k d) h s
                (x w.history r p))
      ]

  finish_timeseries-sent :
      (ts : List Timeseries) (w : World) (p : World × Prepared)
      → Prepares ts [] w p
      → (finish_timeseries e p.1 p.0).1 ≡ ok 0
      → (payloads : List Bytes) × Batches e ts payloads
        × (sent (finish_timeseries e p.1 p.0).0.history ≡ sent w.history ++ payloads)
  unfolding finish_timeseries Prepares
  finish_timeseries-sent ts w (v, prepared ss) (ps, b, l, q) h = (
    ps,
    b,
    send_slots-sent ss v h ∙ (ap (λ z. z ++ loads v ss) q ∙ ap (λ z. sent w.history ++ z) l),
  )
  finish_timeseries-sent ts w (v, refused x ss last) p h = ground arith
  finish_timeseries-sent ts w (v, overrun ss r) p h = ground arith

-- If the slab gives no block that the SDK holds, and no block was given away oftener than it was
-- obtained, then when thingsboard_send_timeseries returns 0, the payloads of the requests that it
-- handed to the CoAP client encode, in order, all the entries: each payload is the encoding of as
-- many as the encoder took of those that the earlier payloads left, until none is left.
pub send_timeseries-Batches :
    (e : Env) (ts : List Timeseries) (w : World)
    → SlabIsExclusive e
    → IsSound w
    → (send_timeseries e ts w).1 ≡ ok 0
    → (payloads : List Bytes) × Batches e ts payloads
      × (sent (send_timeseries e ts w).0.history ≡ sent w.history ++ payloads)
unfolding send_timeseries
send_timeseries-Batches e ts w x s h =
    let p = prepare e e.kconfig.coap_client_max_requests ts [] w in
    let g = prepare-Prepares e e.kconfig.coap_client_max_requests ts [] w x tt s in
    ground (arith, finish_timeseries-sent e ts w p g)
