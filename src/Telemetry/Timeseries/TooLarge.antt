-- ===== src/Telemetry/Timeseries/TooLarge.antt =====
-- An entry that does not fit into a message.
use thingsboard_sdk.Base.{
  none, sym, ◌∙◌, append_assoc, append-nil, length-append, ℕ, zero, suc, ◌+◌, ◌-◌, ◌≤◌, ◌≡◌, ap,
  refl, true, ascii, Option-cases, inl, inr, List, [], ◌∷◌, ◌++◌, length, arith,
}
use thingsboard_sdk.Types.{Timeseries, ok, err, enomem}
use thingsboard_sdk.Platform.{Env, History, k_mem_slab_alloc, assert_failed, ts_to_send_is_positive}
use thingsboard_sdk.World.{World}
use thingsboard_sdk.Codec.{timeseries_encode}
use thingsboard_sdk.Json
use thingsboard_sdk.Json.Shape.Success.{timeseries_encode-empty}
use thingsboard_sdk.Requests.{request_alloc}
use thingsboard_sdk.Telemetry.Timeseries.{Slot, Prepared, refused, fill_slot, prepare}
use thingsboard_sdk.Requests.Balance.{SlabIsBounded, in_use}
use thingsboard_sdk.Telemetry.Timeseries.Batch.{posted}
use thingsboard_sdk.Telemetry.Timeseries.Slots.{filled}

-- How often the assertion that the encoder took an entry failed.
abbrev pub unsent : History → ℕ
unsent [] = 0
unsent (assert_failed ts_to_send_is_positive ∷ h) = suc (unsent h)
unsent (_ ∷ h) = unsent h

-- The first loop ended for want of a block, with blocks behind `slots` for each of which the
-- assertion failed, and sent nothing.
abbrev pub RunsOut : List Slot → World → World × Prepared → Type 0
RunsOut slots w r =
    (more : List Slot) × (r.1 ≡ refused enomem (slots ++ more) none)
    × (unsent r.0.history ≡ length more + unsent w.history)
    × (posted r.0.history ≡ posted w.history)

RunsOut-more :
    (slots : List Slot) (s : Slot) (v w : World) (r : World × Prepared)
    → unsent w.history ≡ suc (unsent v.history)
    → posted w.history ≡ posted v.history
    → RunsOut (slots ++ s ∷ []) w r
    → RunsOut slots v r
RunsOut-more slots s v w r a b (more, p, u, q) = (
  s ∷ more,
  p ∙ ap (λ z. refused enomem z none) (append_assoc slots (s ∷ []) more),
  omega (arith, u, a),
  q ∙ b,
)

RunsOut-none :
    (slots : List Slot) (v w : World)
    → unsent w.history ≡ unsent v.history
    → posted w.history ≡ posted v.history
    → RunsOut slots v (w, refused enomem slots none)
RunsOut-none slots v w u q =
    ([], ap (λ z. refused enomem z none) (sym (append-nil slots)), omega (arith, u), q)

module _ (e : Env) (t : Timeseries) (ts : List Timeseries) (bounded : SlabIsBounded e)
    (h : timeseries_encode e (t ∷ ts) e.kconfig.coap_client_message_size ≡ ok (ascii "[]", 0)) where
  prepare-RunsOut :
      (room : ℕ) (slots : List Slot) (w : World)
      → length slots + room ≡ e.kconfig.coap_client_max_requests
      → length slots ≤ in_use w.history
      → RunsOut slots w (prepare e room (t ∷ ts) slots w)
  unfolding prepare fill_slot request_alloc
  prepare-RunsOut zero slots w full enough =
      rw (bounded w.history (omega arith), prepare, request_alloc)
        (RunsOut-none slots w (record w { history = k_mem_slab_alloc none ∷ w.history }) refl refl)
  prepare-RunsOut (suc room) slots w full enough =
      elim (Option-cases (e.mem_slab_alloc w.history)) [
        | inl p ↦
            rw (p, prepare, request_alloc)
              (RunsOut-none slots w (record w { history = k_mem_slab_alloc none ∷ w.history }) refl
                refl)
        | inr (r, p) ↦
            let v = filled r (ascii "[]") 0 w in
            let longer = length-append slots ((r, length (ascii "[]")) ∷ []) in
            rw (p, h, prepare, fill_slot, request_alloc)
              (RunsOut-more slots (r, length (ascii "[]")) w v
                (prepare e room (t ∷ ts) (slots ++ (r, length (ascii "[]")) ∷ []) v) refl refl
                (prepare-RunsOut room (slots ++ (r, length (ascii "[]")) ∷ []) v
                  (omega (arith, longer)) (omega (arith, longer))))
      ]

-- In the JSON build, if the slab gives no block while all are in use and the first entry's text does
-- not fit into the room that a message of at least three bytes leaves for it, then the first loop of
-- thingsboard_send_timeseries goes on until the slab gives no block, and sends nothing: for each
-- block that it has taken by then, the assertion that the encoder took an entry has failed once.
pub prepare-too_large :
    (e : Env) (t : Timeseries) (ts : List Timeseries) (w : World)
    → SlabIsBounded e
    → e.kconfig.content_format_json ≡ true
    → 3 ≤ e.kconfig.coap_client_message_size
    → Json.encode_timestamped_telemetry_to_buf e t (e.kconfig.coap_client_message_size - 3)
      ≡ err enomem
    → RunsOut [] w (prepare e e.kconfig.coap_client_max_requests (t ∷ ts) [] w)
unfolding timeseries_encode
prepare-too_large e t ts w bounded json room large =
    let size = e.kconfig.coap_client_message_size in
    let j = timeseries_encode-empty e t ts size room large in
    let h : timeseries_encode e (t ∷ ts) size ≡ ok (ascii "[]", 0) = ground (arith, json, j) in
    prepare-RunsOut e t ts bounded h e.kconfig.coap_client_max_requests [] w (omega arith)
      (omega arith)
