-- ===== src/Suspend/Owned.antt =====
-- Suspending and resuming lose no socket.
use thingsboard_sdk.Base.{
  ℕ, ◌+◌, ◌≡◌, refl, ◌⊎◌, inl, inr, ◌∙◌, Bool, true, false, Option, none, some, arith,
}
use thingsboard_sdk.Types.{
  ReturnCode, Errno, ok, err, ebadmsg, econnrefused, Configuration, SocketSuspend, suspend_none,
  suspend_disconnect, suspend_rai,
}
use thingsboard_sdk.Types.Cases.{Result-cases}
use thingsboard_sdk.Platform.{Env}
use thingsboard_sdk.World.{World}
use thingsboard_sdk.Requests.Frame.{Steady}
use thingsboard_sdk.Socket.{socket_close, socket_connect}
use thingsboard_sdk.Socket.Owned.{
  opened, closed, owns, socket_of, socket_connect-Owned, socket_close-Owned,
}
use thingsboard_sdk.Attributes.{subscribe_attributes, unsubscribe_attributes}
use thingsboard_sdk.Attributes.Frame.{subscribe_attributes-Steady, unsubscribe_attributes-Steady}
use thingsboard_sdk.Requests.{request_alloc}
use thingsboard_sdk.Suspend.{
  set_socket, suspend_by_disconnect, set_rai, suspend_by, socket_suspend, observe_again,
  use_connected, reconnect, resume_by, socket_resume,
}

abbrev pub is_disconnect : SocketSuspend → Bool
is_disconnect suspend_disconnect = true
is_disconnect _ = false

-- Socket `k` is counted, wherever it is.
abbrev pub IsCounted : ℕ → World → Type 0
IsCounted k w = opened k w.history ≡ closed k w.history + owns k w.client.server_socket

-- The state and the provisioning are as before, and the socket is counted.
abbrev pub Counted : ℕ → World → World → Type 0
Counted k v w = (w.client.state ≡ v.client.state) × (w.prov_cb ≡ v.prov_cb) × IsCounted k w

module _ (e : Env) (k : ℕ) where
  Steady-Counted : (v w : World) → Steady v w → IsCounted k v → Counted k v w
  Steady-Counted v w h c = (h.0.0, h.1.1, (let a = h.1.0 in let b = h.1.2 in rw (a, b) c))

  drop_socket-Counted :
      (w : World)
      → IsCounted k w
      → Counted k w (set_socket none (socket_close e w.client.server_socket w).0).0
  drop_socket-Counted w c = ground (arith, socket_close-Owned e k w.client.server_socket w)

  suspend_by-Counted :
      (s : SocketSuspend) (w : World)
      → IsCounted k w
      → Counted k w (suspend_by e s w).0
        × (is_disconnect s ≡ true → (suspend_by e s w).0.client.server_socket ≡ none)
  unfolding suspend_by suspend_by_disconnect set_rai
  suspend_by-Counted suspend_none w c = ((refl, refl, c), λ d. cc)
  suspend_by-Counted suspend_disconnect w c =
      let v = (unsubscribe_attributes e w).0 in
      let g = Steady-Counted w v (unsubscribe_attributes-Steady e w) c in
      ground (arith, g, drop_socket-Counted v)
  suspend_by-Counted suspend_rai w c = (ground arith, λ d. cc)

  pub socket_suspend-Counted :
      (w : World)
      → IsCounted k w
      → Counted k w (socket_suspend e w).0
        × (is_disconnect e.kconfig.socket_suspend ≡ true
            → (socket_suspend e w).0.client.server_socket ≡ none)
  unfolding socket_suspend
  socket_suspend-Counted w c = suspend_by-Counted e.kconfig.socket_suspend w c

  -- Without a socket after an error.
  abbrev Resumed : World → World × ReturnCode → Type 0
  Resumed w r =
      Counted k w r.0
      × (((n : ℕ) × (r.1 ≡ ok n))
          ⊎ ((x : Errno) × (r.1 ≡ err x) × (r.0.client.server_socket ≡ none)))

  observe_again-Resumed : (w : World) → IsCounted k w → Resumed w (observe_again e w)
  unfolding observe_again subscribe_attributes request_alloc
  observe_again-Resumed w c =
      let s = subscribe_attributes e w in
      let g = Steady-Counted w s.0 (subscribe_attributes-Steady e w) c in
      elim (Result-cases (s.1)) [
        | inl (n, p) ↦ rw (p, observe_again) (g, inl (0, refl))
        | inr (x, p) ↦
            rw (p, observe_again)
              (let d = drop_socket-Counted s.0 (g.2) in
                ((d.0 ∙ g.0, d.1 ∙ g.1, d.2), inr (ebadmsg, refl, refl)))
      ]

  use_connected-Resumed :
      (res : ReturnCode) (w : World)
      → w.client.server_socket ≡ none
      → opened k w.history ≡ closed k w.history + owns k (socket_of res)
      → Resumed w (use_connected e res w)
  unfolding use_connected
  use_connected-Resumed (err x) w n c = ((refl, refl, rw n c), inr (econnrefused, refl, n))
  use_connected-Resumed (ok s) w n c = observe_again-Resumed (set_socket (some s) w).0 c

  reconnect-Resumed :
      (c : Option Configuration) (w : World)
      → w.client.server_socket ≡ none
      → IsCounted k w
      → Resumed w (reconnect e c w)
  unfolding reconnect
  reconnect-Resumed none w n i = ((refl, refl, i), inr (econnrefused, refl, n))
  reconnect-Resumed (some c) w n i =
      let s = socket_connect e c w in
      let o = socket_connect-Owned e k c w in ground (arith, o, use_connected-Resumed s.1 s.0)

  resume_by-Resumed :
      (s : SocketSuspend) (w : World)
      → (is_disconnect s ≡ true → w.client.server_socket ≡ none)
      → IsCounted k w
      → Counted k w (resume_by e s w).0 × (is_disconnect s ≡ true → Resumed w (resume_by e s w))
  unfolding resume_by set_rai
  resume_by-Resumed suspend_none w n i = ((refl, refl, i), λ d. cc)
  resume_by-Resumed suspend_disconnect w n i =
      let r = reconnect-Resumed w.client.config w (n refl) i in (r.0, λ d. r)
  resume_by-Resumed suspend_rai w n i = (ground arith, λ d. cc)

  pub socket_resume-Resumed :
      (w : World)
      → (is_disconnect e.kconfig.socket_suspend ≡ true → w.client.server_socket ≡ none)
      → IsCounted k w
      → Counted k w (socket_resume e w).0
        × (is_disconnect e.kconfig.socket_suspend ≡ true → Resumed w (socket_resume e w))
  unfolding socket_resume
  socket_resume-Resumed w n i = resume_by-Resumed e.kconfig.socket_suspend w n i
