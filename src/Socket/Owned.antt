-- ===== src/Socket/Owned.antt =====
-- Connecting a socket leaves none open but the one that it returns.
use thingsboard_sdk.Base.{ℕ, ◌+◌, ◌≡◌, Option, none, some, List, [], ◌∷◌, inl, inr, arith}
use thingsboard_sdk.Types.{ReturnCode, ok, err, Errno, Configuration}
use thingsboard_sdk.Types.Cases.{Result-cases}
use thingsboard_sdk.Platform.{
  Env, History, SocketOption, tls_sec_tag_list, tls_hostname, tls_dtls_cid, so_keepopen, udp,
  dtls_1_2, zsock_socket, zsock_close, zsock_setsockopt,
}
use thingsboard_sdk.World.{World, M, ask}
use thingsboard_sdk.Requests.Balance.{same}
use thingsboard_sdk.Requests.Frame.{sockets}
use thingsboard_sdk.Socket.{
  c_string, server_resolve, socket_close, close_and_fail, bind_socket, socket_connect_internal,
  socket_connect_udp, set_options, connect_dtls, open_dtls, socket_connect_dtls, socket_connect,
}

abbrev pub opens : ℕ → History → ℕ
opens k [] = 0
opens k (zsock_socket p (ok s) ∷ h) = same s k + opens k h
opens k (_ ∷ h) = opens k h

abbrev pub closes : ℕ → History → ℕ
closes k [] = 0
closes k (zsock_close s res ∷ h) = same s k + closes k h
closes k (_ ∷ h) = closes k h

-- How often socket `k` was opened.
abbrev pub opened : ℕ → History → ℕ
opened k h = opens k (sockets h)

-- How often socket `k` was closed.
abbrev pub closed : ℕ → History → ℕ
closed k h = closes k (sockets h)

abbrev pub owns : ℕ → Option ℕ → ℕ
owns k none = 0
owns k (some s) = same s k

-- The socket that a call returns.
abbrev pub socket_of : ReturnCode → Option ℕ
socket_of (err _) = none
socket_of (ok s) = some s

-- The state, `server_socket` and the provisioning are as before, and of `n` openings of socket `k`
-- that stand out, and those that the call adds, the returned one is left open.
abbrev pub Owned : ℕ → ℕ → World → World × ReturnCode → Type 0
Owned k n v r =
    (r.0.client.state ≡ v.client.state)
    × (r.0.client.server_socket ≡ v.client.server_socket)
    × (r.0.prov_cb ≡ v.prov_cb)
    × (opened k r.0.history + closed k v.history + n
        ≡ opened k v.history + closed k r.0.history + owns k (socket_of r.1))

module _ (e : Env) (k : ℕ) where
  close_and_fail-Owned :
      (s : ℕ) (x : Errno) (w : World) → Owned k (same s k) w (close_and_fail e s x w)
  unfolding close_and_fail
  close_and_fail-Owned s x w = ground arith

  bind_socket-Owned : (s : ℕ) (w : World) → Owned k (same s k) w (bind_socket e s w)
  unfolding bind_socket
  bind_socket-Owned s w = ground arith

  socket_connect_internal-Owned : (w : World) → Owned k 0 w (socket_connect_internal e w)
  unfolding socket_connect_internal
  socket_connect_internal-Owned w = elim (Result-cases (e.socket_result w.history udp)) [
    | inl (s, p) ↦
        rw (p, socket_connect_internal)
          (let h =
              bind_socket-Owned s (record w { history = zsock_socket udp (ok s) ∷ w.history }) in
            ground (arith, h))
    | inr (x, p) ↦ rw (p, socket_connect_internal) (ground arith)
  ]

  socket_connect_udp-Owned :
      (c : Configuration) (w : World) → Owned k 0 w (socket_connect_udp e c w)
  unfolding socket_connect_udp server_resolve
  socket_connect_udp-Owned c w = ground (
    arith,
    socket_connect_internal-Owned (server_resolve e (c_string c.server_hostname) c.server_port w).0,
  )

  connect_dtls-Owned : (s : ℕ) (w : World) → Owned k (same s k) w (connect_dtls e s w)
  unfolding connect_dtls
  connect_dtls-Owned s w = ground arith

  set_options-Owned :
      (os : List SocketOption) (s : ℕ) (m : M ReturnCode)
      → ((w : World) → Owned k (same s k) w (m w))
      → (w : World) → Owned k (same s k) w (set_options e os s m w)
  unfolding set_options
  set_options-Owned [] s m h w = h w
  set_options-Owned (o ∷ os) s m h w = ground (
    arith,
    set_options-Owned os s m h (ask (λ t. e.setsockopt_result t s o) (zsock_setsockopt s o) w).0,
    close_and_fail-Owned s,
  )

  open_dtls-Owned : (w : World) → Owned k 0 w (open_dtls e w)
  unfolding open_dtls
  open_dtls-Owned w = elim (Result-cases (e.socket_result w.history dtls_1_2)) [
    | inl (s, p) ↦
        rw (p, open_dtls)
          (ground (
            arith,
            set_options-Owned (tls_sec_tag_list ∷ tls_hostname ∷ tls_dtls_cid ∷ so_keepopen ∷ []) s
                (connect_dtls e s) (connect_dtls-Owned s)
                (ask (λ h. ok s) (zsock_socket dtls_1_2) w).0,
          ))
    | inr (x, p) ↦ rw (p, open_dtls) (ground arith)
  ]

  socket_connect_dtls-Owned :
      (c : Configuration) (w : World) → Owned k 0 w (socket_connect_dtls e c w)
  unfolding socket_connect_dtls server_resolve
  socket_connect_dtls-Owned c w =
      ground
        (arith, open_dtls-Owned (server_resolve e (c_string c.server_hostname) c.server_port w).0)

  -- thingsboard_socket_connect, in both builds, changes neither the client's state nor its socket,
  -- and has closed every socket that it opened but the one that it returns.
  pub socket_connect-Owned : (c : Configuration) (w : World) → Owned k 0 w (socket_connect e c w)
  unfolding socket_connect
  socket_connect-Owned c w =
      ground (arith, socket_connect_udp-Owned c w, socket_connect_dtls-Owned c w)

  pub socket_close-Owned :
      (s : Option ℕ) (w : World)
      → (opened k (socket_close e s w).0.history ≡ opened k w.history)
        × (closed k (socket_close e s w).0.history ≡ owns k s + closed k w.history)
        × ((socket_close e s w).0.client ≡ w.client)
        × ((socket_close e s w).0.prov_cb ≡ w.prov_cb)
  unfolding socket_close
  socket_close-Owned none w = ground arith
  socket_close-Owned (some s) w = ground arith
