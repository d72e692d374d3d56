-- ===== src/Socket/Frame.antt =====
-- The sockets change no state of the client but its server address, and pass no request.
use thingsboard_sdk.Base.{◌≡◌, ℕ, inl, inr, none, some, Option, List, [], ◌∷◌, arith}
use thingsboard_sdk.Types.{ReturnCode, ok, Configuration}
use thingsboard_sdk.Types.Cases.{Result-cases}
use thingsboard_sdk.Fota.Start.{c_string}
use thingsboard_sdk.Platform.{
  Env, SocketOption, zsock_setsockopt, zsock_socket, dtls_1_2, tls_sec_tag_list, tls_hostname,
  tls_dtls_cid, so_keepopen,
}
use thingsboard_sdk.World.{World, M, ask}
use thingsboard_sdk.World.Keeps.{Keeps}
use thingsboard_sdk.Requests.Traffic.{Calm}
use thingsboard_sdk.Socket.{
  socket_close, socket_connect_internal, socket_connect_udp, set_options, connect_dtls, open_dtls,
  socket_connect_dtls, socket_connect, server_resolve,
}

-- The token stays as well.
abbrev Aside : World → World → Type 0
Aside v w = Calm v w × (w.client.access_token ≡ v.client.access_token)

module _ (e : Env) where
  pub socket_close-Calm : (s : Option ℕ) → Keeps Calm (socket_close e s)
  unfolding socket_close
  socket_close-Calm none w = ground arith
  socket_close-Calm (some s) w = ground arith

  socket_connect_udp-Aside : (c : Configuration) → Keeps Aside (socket_connect_udp e c)
  unfolding socket_connect_udp server_resolve socket_connect_internal
  socket_connect_udp-Aside c w = ground arith

  connect_dtls-Aside : (s : ℕ) → Keeps Aside (connect_dtls e s)
  unfolding connect_dtls
  connect_dtls-Aside s w = ground arith

  set_options-Aside :
      (os : List SocketOption) (s : ℕ) (m : M ReturnCode)
      → Keeps Aside m
      → Keeps Aside (set_options e os s m)
  unfolding set_options
  set_options-Aside [] s m h w = h w
  set_options-Aside (o ∷ os) s m h w = ground (
    arith,
    set_options-Aside os s m h (ask (λ t. e.setsockopt_result t s o) (zsock_setsockopt s o) w).0,
  )

  open_dtls-Aside : Keeps Aside (open_dtls e)
  unfolding open_dtls
  open_dtls-Aside w = elim (Result-cases (e.socket_result w.history dtls_1_2)) [
    | inl (s, p) ↦
        rw (p, open_dtls)
          (ground (
            arith,
            set_options-Aside (tls_sec_tag_list ∷ tls_hostname ∷ tls_dtls_cid ∷ so_keepopen ∷ []) s
                (connect_dtls e s) (connect_dtls-Aside s)
                (ask (λ h. ok s) (zsock_socket dtls_1_2) w).0,
          ))
    | inr (x, p) ↦ rw (p, open_dtls) (ground arith)
  ]

  socket_connect_dtls-Aside : (c : Configuration) → Keeps Aside (socket_connect_dtls e c)
  unfolding socket_connect_dtls server_resolve
  socket_connect_dtls-Aside c w =
      ground
        (arith, open_dtls-Aside (server_resolve e (c_string c.server_hostname) c.server_port w).0)

  socket_connect-Aside : (c : Configuration) → Keeps Aside (socket_connect e c)
  unfolding socket_connect
  socket_connect-Aside c w =
      ground (arith, socket_connect_udp-Aside c w, socket_connect_dtls-Aside c w)

  pub socket_connect-Calm : (c : Configuration) → Keeps Calm (socket_connect e c)
  socket_connect-Calm c w = (socket_connect-Aside c w).0

  pub socket_connect-token :
      (c : Configuration) (w : World)
      → (socket_connect e c w).0.client.access_token ≡ w.client.access_token
  socket_connect-token c w = (socket_connect-Aside c w).1
