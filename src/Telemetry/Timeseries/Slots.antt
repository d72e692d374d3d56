-- ===== src/Telemetry/Timeseries/Slots.antt =====
-- The slots of a batch: request blocks that are allocated one by one and filled.
use thingsboard_sdk.Base.{
  ℕ, ◌<◌, ◌≤◌, ◌≡◌, refl, ◌∙◌, ap, List, [], ◌∷◌, ◌++◌, ◌==◌, Bytes, length, take, arith, take-all,
}
use thingsboard_sdk.Platform.{assert_failed, ts_to_send_is_positive}
use thingsboard_sdk.World.{World, when, emit, modify_request}
use thingsboard_sdk.Requests.{after_alloc}
use thingsboard_sdk.Requests.Balance.{gained, spent, same_refl}
use thingsboard_sdk.Telemetry.Post.Payload.{sent}
use thingsboard_sdk.Telemetry.Timeseries.{Slot}

-- What the slots would send.
abbrev pub loads : World → List Slot → List Bytes
loads w [] = []
loads w ((r, len) ∷ slots) = take len (w.slab r).payload ∷ loads w slots

-- The SDK holds the block.
abbrev pub IsHeld : World → ℕ → Type 0
IsHeld w r = spent r w.history < gained r w.history

abbrev pub Holds : World → List Slot → Type 0
Holds w [] = Unit {0}
Holds w ((r, len) ∷ slots) = IsHeld w r × Holds w slots

-- No block was given away oftener than it was obtained.
abbrev pub IsSound : World → Type 0
IsSound w = (k : ℕ) → spent k w.history ≤ gained k w.history

loads-append : (w : World) (xs ys : List Slot) → loads w (xs ++ ys) ≡ loads w xs ++ loads w ys
loads-append w [] ys = refl
loads-append w ((r, len) ∷ xs) ys = ap (λ l. take len (w.slab r).payload ∷ l) (loads-append w xs ys)

Holds-append : (w : World) (xs ys : List Slot) → Holds w xs → Holds w ys → Holds w (xs ++ ys)
Holds-append w [] ys h k = k
Holds-append w ((r, len) ∷ xs) ys h k = (h.0, Holds-append w xs ys (h.1) k)

-- Blocks that are held keep their payloads.
loads-same :
    (v w : World) (slots : List Slot)
    → ((r : ℕ) → IsHeld v r → (w.slab r).payload ≡ (v.slab r).payload)
    → Holds v slots
    → loads w slots ≡ loads v slots
loads-same v w [] f h = refl
loads-same v w ((r, len) ∷ slots) f h = rw (f r h.0, loads-same v w slots f (h.1)) refl

Holds-same :
    (v w : World) (slots : List Slot)
    → ((r : ℕ) → IsHeld v r → IsHeld w r)
    → Holds v slots
    → Holds w slots
Holds-same v w [] f h = tt
Holds-same v w ((r, len) ∷ slots) f h = (f r h.0, Holds-same v w slots f (h.1))

pub loads-equal :
    (v w : World) (slots : List Slot)
    → ((r : ℕ) → (w.slab r).payload ≡ (v.slab r).payload)
    → loads w slots ≡ loads v slots
loads-equal v w [] f = refl
loads-equal v w ((r, len) ∷ slots) f = rw (f r, loads-equal v w slots f) refl

-- Block `r` was allocated and filled with an encoding.
abbrev pub filled : ℕ → Bytes → ℕ → World → World
filled r payload n w =
    (when (n == 0) (emit (assert_failed ts_to_send_is_positive))
      (modify_request r (λ q. record q { payload = payload }) (after_alloc r w)).0).0

filled-payload :
    (r : ℕ) (payload : Bytes) (n : ℕ) (w : World) (k : ℕ)
    → gained r w.history ≤ spent r w.history
    → IsHeld w k
    → ((filled r payload n w).slab k).payload ≡ (w.slab k).payload
filled-payload r payload n w k g h = ground arith

pub filled-keeps :
    (r : ℕ) (payload : Bytes) (n : ℕ) (w : World) (k : ℕ)
    → (sent (filled r payload n w).history ≡ sent w.history)
      × (spent k (filled r payload n w).history ≡ spent k w.history)
      × (gained k w.history ≤ gained k (filled r payload n w).history)
filled-keeps r payload n w k = ground arith

filled-new :
    (r : ℕ) (payload : Bytes) (n : ℕ) (w : World)
    → spent r w.history ≤ gained r w.history
    → IsHeld (filled r payload n w) r × (((filled r payload n w).slab r).payload ≡ payload)
filled-new r payload n w s = ground (arith, same_refl r)

pub filled-loads :
    (slots : List Slot) (r : ℕ) (payload : Bytes) (n : ℕ) (w : World)
    → Holds w slots
    → IsSound w
    → gained r w.history ≤ spent r w.history
    → loads (filled r payload n w) (slots ++ (r, length payload) ∷ [])
      ≡ loads w slots ++ payload ∷ []
filled-loads slots r payload n w h s g =
    let u = filled r payload n w in
    loads-append u slots ((r, length payload) ∷ [])
    ∙ (ap (λ z. loads u slots ++ take (length payload) z ∷ []) ((filled-new r payload n w (s r)).1)
        ∙ (ap (λ z. loads u slots ++ z ∷ []) (take-all payload)
            ∙ ap (λ z. z ++ payload ∷ [])
                (loads-same w u slots (λ k d. filled-payload r payload n w k g d) h)))

pub filled-Holds :
    (slots : List Slot) (r : ℕ) (payload : Bytes) (n : ℕ) (w : World)
    → Holds w slots
    → IsSound w
    → Holds (filled r payload n w) (slots ++ (r, length payload) ∷ [])
filled-Holds slots r payload n w h s =
    let u = filled r payload n w in
    Holds-append u slots ((r, length payload) ∷ [])
      (Holds-same w u slots (λ k d. let f = filled-keeps r payload n w k in omega arith) h)
      ((filled-new r payload n w (s r)).0, tt)
