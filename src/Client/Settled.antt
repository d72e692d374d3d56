-- ===== src/Client/Settled.antt =====
-- Whether the application was told of the client's state: what the functions that move the client
-- keep.
use thingsboard_sdk.Base.{
  ◌≡◌, ◌-◌, ◌⊎◌, inl, inr, Bool, ◌&&◌, ◌||◌, not, true, false, Option, none, some, arith,
}
use thingsboard_sdk.Types.{
  ThingsboardState, init, connecting, connected, suspended, disconnected, ThingsboardEvent,
  became_active, became_suspended, became_disconnected,
}
use thingsboard_sdk.World.{World}
use thingsboard_sdk.Requests.{has_on_event, lock, unlock}
use thingsboard_sdk.Requests.Frame.{depth, reported, Framed}

-- Whether a client in this state has reported this last: nothing before it was initialised, and the
-- event of the state, but for CONNECTING, which has none.
abbrev pub agrees : ThingsboardState → Option ThingsboardEvent → Bool
agrees init none = true
agrees connecting _ = true
agrees connected (some became_active) = true
agrees suspended (some became_suspended) = true
agrees disconnected none = true
agrees disconnected (some became_disconnected) = true
agrees _ _ = false

-- The states that the client is moved to.
abbrev pub is_target : ThingsboardState → Bool
is_target init = false
is_target _ = true

-- Of an initialised client without an event callback nothing is asked.
abbrev pub is_in_sync : World → Bool
is_in_sync w =
    agrees w.client.state (reported w.history)
    || (is_target w.client.state && not (has_on_event w.client.config))

abbrev pub is_told : World → Bool
is_told w = is_target w.client.state && is_in_sync w

-- The lock and the configuration are as before, and so are the state and the last report, unless
-- these agree.
abbrev pub Settled : World → World → Type 0
Settled v w =
    (depth w.history ≡ depth v.history)
    × (w.client.config ≡ v.client.config)
    × (((w.client.state ≡ v.client.state) × (reported w.history ≡ reported v.history))
        ⊎ (is_told w ≡ true))

pub Framed→Settled : (v w : World) → Framed v w → Settled v w
Framed→Settled v w h = (h.2, h.1, inl (h.0, h.3))

pub Settled-told : (v w : World) → Settled v w → is_told v ≡ true → is_told w ≡ true
Settled-told v w h s = elim (h.2) [
  | inl p ↦ (let c = h.1 in let a = p.0 in let b = p.1 in rw (c, a, b) s)
  | inr p ↦ p
]

pub Settled-then : (u v w : World) → Settled u v → Settled v w → Settled u w
Settled-then u v w g h = (
  (let a = g.0 in let b = h.0 in cc),
  (let a = g.1 in let b = h.1 in cc),
  elim (g.2) [
    | inl p ↦ elim (h.2) [
      | inl q ↦ inl ((let a = p.0 in let b = q.0 in cc), (let a = p.1 in let b = q.1 in cc))
      | inr q ↦ inr q
    ]
    | inr p ↦ inr (Settled-told v w h p)
  ],
)

-- As `Settled`, of a function that leaves the lock.
abbrev pub Released : World → World → Type 0
Released v w =
    (depth w.history ≡ depth v.history - 1)
    × (w.client.config ≡ v.client.config)
    × (((w.client.state ≡ v.client.state) × (reported w.history ≡ reported v.history))
        ⊎ (is_told w ≡ true))

pub unlock-Released : (u v : World) → Settled u v → Released u (unlock v).0
unfolding unlock
unlock-Released u v h = (let a = h.0 in omega arith, h.1, h.2)

pub Settled-Released : (u v w : World) → Settled u v → Released v w → Released u w
Settled-Released u v w g h = (
  (let a = g.0 in let b = h.0 in omega arith),
  (let a = g.1 in let b = h.1 in cc),
  elim (h.2) [
    | inl q ↦ elim (g.2) [
      | inl p ↦ inl ((let a = p.0 in let b = q.0 in cc), (let a = p.1 in let b = q.1 in cc))
      | inr p ↦ inr (let c = h.1 in let a = q.0 in let b = q.1 in rw (c, a, b) p)
    ]
    | inr q ↦ inr q
  ],
)

pub lock-Released : (v w : World) → Released (lock v).0 w → Settled v w
unfolding lock
lock-Released v w h = (let a = h.0 in omega arith, h.1, h.2)

-- Nobody holds the lock, and the application knows the state.
abbrev pub IsAtRest : World → Type 0
IsAtRest w = (depth w.history ≡ 0) × (is_in_sync w ≡ true)

pub Settled-IsAtRest : (v w : World) → Settled v w → IsAtRest v → IsAtRest w
Settled-IsAtRest v w h r = (
  (let a = h.0 in let b = r.0 in cc),
  elim (h.2) [
    | inl p ↦ (let c = h.1 in let a = p.0 in let b = p.1 in rw (c, a, b) (r.1))
    | inr p ↦ ground arith
  ],
)

pub Framed-IsAtRest : (v w : World) → Framed v w → IsAtRest v → IsAtRest w
Framed-IsAtRest v w h r = Settled-IsAtRest v w (Framed→Settled v w h) r
