-- ===== src/Telemetry/Timeseries/Balance.antt =====
-- `send_timeseries` keeps none of the blocks that it allocates.
use thingsboard_sdk.Base.{
  ℕ, zero, suc, ◌+◌, ◌<◌, ◌≤◌, ◌≡◌, Option, none, some, Option-cases, ◌==◌, inl, inr, List, [], ◌∷◌,
  ◌++◌, length, length-append, drop, arith,
}
use thingsboard_sdk.Types.{Errno, Timeseries}
use thingsboard_sdk.Types.Cases.{Result-cases}
use thingsboard_sdk.Codec.{timeseries_encode}
use thingsboard_sdk.Platform.{
  Env, History, k_mem_slab_free, out_of_bounds, assert_failed, ts_to_send_is_positive,
}
use thingsboard_sdk.World.{World, when, emit, modify_request}
use thingsboard_sdk.Requests.{request_alloc, request_free}
use thingsboard_sdk.Requests.Balance.{in_use, SlabIsBounded, same, received, spent, Balanced}
use thingsboard_sdk.Telemetry.Post.{send_telemetry_request}
use thingsboard_sdk.Telemetry.Post.Balance.{send_telemetry_request-spent}
use thingsboard_sdk.Telemetry.Timeseries.{
  Slot, Prepared, prepared, refused, overrun, free_slots, free_beyond, free_requests, fill_slot,
  prepare, send_slots, finish_timeseries, send_timeseries,
}

-- How often block `k` stands in the slots.
abbrev held : ℕ → List Slot → ℕ
held k [] = 0
held k ((r, len) ∷ slots) = same r k + held k slots

held-append : (k : ℕ) (xs ys : List Slot) → held k (xs ++ ys) ≡ held k xs + held k ys
held-append k [] ys = omega arith
held-append k ((r, len) ∷ xs) ys = omega (arith, held-append k xs ys)

abbrev held_last : ℕ → Option ℕ → ℕ
held_last k none = 0
held_last k (some r) = same r k

abbrev held_by : ℕ → Prepared → ℕ
held_by k (prepared slots) = held k slots
held_by k (refused x slots last) = held k slots + held_last k last
held_by k (overrun slots r) = held k slots + same r k

free_slots-spent :
    (k : ℕ) (slots : List Slot) (w : World)
    → received k (free_slots slots w).0.history + spent k w.history + held k slots
      ≡ received k w.history + spent k (free_slots slots w).0.history
unfolding free_slots request_free
free_slots-spent k [] w = omega arith
free_slots-spent k ((r, len) ∷ slots) w =
    omega (arith, free_slots-spent k slots (request_free (some r) w).0)

send_slots-spent :
    (e : Env) (k : ℕ) (slots : List Slot) (w : World)
    → received k (send_slots e slots w).0.history + spent k w.history + held k slots
      ≡ received k w.history + spent k (send_slots e slots w).0.history
unfolding send_slots
send_slots-spent e k [] w = omega arith
send_slots-spent e k ((r, len) ∷ slots) w = ground (
  arith,
  send_telemetry_request-spent e r len k w,
  free_slots-spent k slots (send_telemetry_request e r len w).0,
  send_slots-spent e k slots (send_telemetry_request e r len w).0,
)

-- From a world with these slots: what was gained and not given away is in the slots of the result.
abbrev Keeps : ℕ → List Slot → World → World × Prepared → Type 0
Keeps k slots w r =
    received k r.0.history + spent k w.history + held k slots
    ≡ received k w.history + spent k r.0.history + held_by k r.1

module _ (e : Env) (k : ℕ) where
  fill_slot-Keeps :
      (rest : ℕ → List Slot → World → World × Prepared) (ts : List Timeseries) (slots : List Slot)
      (r : ℕ) (w : World)
      → ((n : ℕ) (ss : List Slot) (v : World) → Keeps k ss v (rest n ss v))
      → received k (fill_slot e rest ts slots r w).0.history
          + spent k w.history
          + held k slots
          + same r k
        ≡ received k w.history
          + spent k (fill_slot e rest ts slots r w).0.history
          + held_by k (fill_slot e rest ts slots r w).1
  unfolding fill_slot
  fill_slot-Keeps rest ts slots r w h =
      elim (Result-cases (timeseries_encode e ts e.kconfig.coap_client_message_size)) [
        | inl ((payload, sent), p) ↦
            let v = (modify_request r (λ q. record q { payload = payload }) w).0 in
            let u = (when (sent == 0) (emit (assert_failed ts_to_send_is_positive)) v).0 in
            let kept = slots ++ (r, length payload) ∷ [] in
            rw (p, fill_slot)
              (ground (arith, h sent kept u, held-append k slots ((r, length payload) ∷ [])))
        | inr (x, p) ↦ rw (p, fill_slot) (omega arith)
      ]

-- A block that the first loop allocates is in the slots that it leaves.
prepare-Keeps :
    (e : Env) (k room : ℕ) (ts : List Timeseries) (slots : List Slot) (w : World)
    → Keeps k slots w (prepare e room ts slots w)
unfolding prepare request_alloc
prepare-Keeps e k room [] slots w = ground arith
prepare-Keeps e k zero (t ∷ ts) slots w = ground arith
prepare-Keeps e k (suc room) (t ∷ ts) slots w = elim (Option-cases (e.mem_slab_alloc w.history)) [
  | inl p ↦ rw (p, prepare, request_alloc) (omega arith)
  | inr (r, p) ↦
      rw (p, prepare, request_alloc)
        (omega (
          arith,
          fill_slot-Keeps e k (λ sent. prepare e room (drop sent (t ∷ ts))) (t ∷ ts) slots r _
              (λ n ss v. prepare-Keeps e k room (drop n (t ∷ ts)) ss v),
        ))
]

-- The array has room for the block that is left in `requests[request_num]`, and was not overrun.
abbrev pub Fits : ℕ → Prepared → Type 0
Fits max (prepared slots) = Unit {0}
Fits max (refused x slots none) = Unit {0}
Fits max (refused x slots (some r)) = length slots < max
Fits max (overrun slots r) = ⊥

fill_slot-Fits :
    (e : Env) (max : ℕ) (rest : ℕ → List Slot → World → World × Prepared) (ts : List Timeseries)
    (slots : List Slot) (r : ℕ) (w : World)
    → ((n : ℕ) (ss : List Slot) (v : World)
        → length ss ≡ suc (length slots)
        → length ss ≤ in_use v.history
        → Fits max (rest n ss v).1)
    → length slots < max
    → suc (length slots) ≤ in_use w.history
    → Fits max (fill_slot e rest ts slots r w).1
unfolding fill_slot
fill_slot-Fits e max rest ts slots r w h room enough =
    elim (Result-cases (timeseries_encode e ts e.kconfig.coap_client_message_size)) [
      | inl ((payload, sent), p) ↦
          let v = (modify_request r (λ q. record q { payload = payload }) w).0 in
          let u = (when (sent == 0) (emit (assert_failed ts_to_send_is_positive)) v).0 in
          let longer = length-append slots ((r, length payload) ∷ []) in
          rw (p, fill_slot)
            (h sent (slots ++ (r, length payload) ∷ []) u (omega (arith, longer))
              (ground (arith, longer)))
      | inr (x, p) ↦ rw (p, fill_slot) room
    ]

module _ (e : Env) (bounded : SlabIsBounded e) where
  pub prepare-Fits :
      (room : ℕ) (ts : List Timeseries) (slots : List Slot) (w : World)
      → length slots + room ≡ e.kconfig.coap_client_max_requests
      → length slots ≤ in_use w.history
      → Fits e.kconfig.coap_client_max_requests (prepare e room ts slots w).1
  unfolding prepare request_alloc
  prepare-Fits room [] slots w full enough = tt
  prepare-Fits zero (t ∷ ts) slots w full enough =
      rw (bounded w.history (omega arith), prepare, request_alloc) tt
  prepare-Fits (suc room) (t ∷ ts) slots w full enough =
      elim (Option-cases (e.mem_slab_alloc w.history)) [
        | inl p ↦ rw (p, prepare, request_alloc) tt
        | inr (r, p) ↦
            rw (p, prepare, request_alloc)
              (fill_slot-Fits e e.kconfig.coap_client_max_requests
                (λ sent. prepare e room (drop sent (t ∷ ts))) (t ∷ ts) slots r _
                (λ n ss v longer more. prepare-Fits room (drop n (t ∷ ts)) ss v (omega arith) more)
                (omega arith) (omega arith))
      ]

-- The pointer behind the array is freed as often as it is read.
freed-received :
    (k : ℕ) (o : Option ℕ) (h : History)
    → received k (k_mem_slab_free o ∷ out_of_bounds o ∷ h) + spent k h
      ≡ received k h + spent k (k_mem_slab_free o ∷ out_of_bounds o ∷ h)
freed-received k none h = omega arith
freed-received k (some r) h = omega arith

free_requests-spent :
    (e : Env) (k max : ℕ) (x : Errno) (slots : List Slot) (last : Option ℕ) (w : World)
    → Fits max (refused x slots last)
    → received k (free_requests e max slots last w).0.history
        + spent k w.history
        + held_by k (refused x slots last)
      ≡ received k w.history + spent k (free_requests e max slots last w).0.history
unfolding free_requests free_beyond request_free
free_requests-spent e k max x slots none w h =
    let v = (free_slots slots w).0.history in
    ground (arith, free_slots-spent k slots w, freed-received k (e.beyond_requests v) v)
free_requests-spent e k max x slots (some r) w h = ground (arith, free_slots-spent k slots w)

finish_timeseries-spent :
    (e : Env) (k : ℕ) (p : Prepared) (w : World)
    → Fits e.kconfig.coap_client_max_requests p
    → received k (finish_timeseries e p w).0.history + spent k w.history + held_by k p
      ≡ received k w.history + spent k (finish_timeseries e p w).0.history
unfolding finish_timeseries
finish_timeseries-spent e k (prepared slots) w h = send_slots-spent e k slots w
finish_timeseries-spent e k (refused x slots last) w h =
    free_requests-spent e k e.kconfig.coap_client_max_requests x slots last w h
finish_timeseries-spent e k (overrun slots r) w h = absurd h

-- If the slab gives no block while all are in use, `thingsboard_send_timeseries` gives each block
-- away as often as it gets it, whatever the outcome: every request that it allocates is either taken by the CoAP client or freed, once.
pub send_timeseries-Balanced :
    (e : Env) (ts : List Timeseries) (w : World) (k : ℕ)
    → SlabIsBounded e
    → Balanced k w (send_timeseries e ts w).0
unfolding send_timeseries
send_timeseries-Balanced e ts w k bounded =
    let max = e.kconfig.coap_client_max_requests in
    let p = prepare e max ts [] w in
    ground (
      arith,
      prepare-Keeps e k max ts [] w,
      finish_timeseries-spent e k p.1 p.0
          (prepare-Fits e bounded max ts [] w (omega arith) (omega arith)),
    )
