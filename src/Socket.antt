-- ===== src/Socket.antt =====
-- src/socket.c and src/socket_dtls.c: name resolution and the sockets.
pub mod Owned
pub mod Frame
pub mod Live
use thingsboard_sdk.Base.{ℕ, Bool, Option, none, some, List, [], ◌∷◌, Bytes, if◌then◌else◌}
use thingsboard_sdk.Types.{
  Errno, Result, ok, err, ReturnCode, eio, enoent, enonet, eperm, Configuration,
}
use thingsboard_sdk.Platform.{
  Env, SocketOption, tls_sec_tag_list, tls_hostname, tls_dtls_cid, so_keepopen, udp, dtls_1_2,
  getaddrinfo, zsock_socket, zsock_bind, zsock_connect, zsock_close, zsock_setsockopt,
}
use thingsboard_sdk.World.{World, SockAddr, M, ◌>>=◌, ◌>>◌, pure, done, ask, modify_client}
use thingsboard_sdk.Fota.{is_zero}
use thingsboard_sdk.Fota.Start.{c_string}

-- The first address of a look-up.
abbrev pub first_address : List ℕ → ℕ → Result SockAddr
first_address [] port = err enoent
first_address (a ∷ _) port = ok (record { addr = a; port = port })

module _ (e : Env) where
  -- thingsboard_server_resolve
  unfoldable pub server_resolve : Bytes → ℕ → M (Result SockAddr)
  server_resolve hostname port w =
      let r = ask (λ h. e.getaddrinfo_result h hostname) (getaddrinfo hostname) w in
      (r.0, if is_zero r.1 then first_address (e.addrinfo w.history hostname) port else err eio)

  -- thingsboard_socket_close
  unfoldable pub socket_close : Option ℕ → M (Unit {0})
  socket_close none = done
  socket_close (some sock) = do ask (λ h. e.close_result h sock) (zsock_close sock); done

  -- Leave with an error, the socket closed.
  close_and_fail : ℕ → Errno → M ReturnCode
  unfolding socket_close
  close_and_fail sock x = do socket_close (some sock); pure (err x)

  bind_socket : ℕ → M ReturnCode
  unfolding close_and_fail
  bind_socket sock = do
    res ← ask (λ h. e.bind_result h sock) (zsock_bind sock)
    elim res [ err _ ↦ close_and_fail sock enonet | ok _ ↦ pure (ok sock) ]

  -- thingsboard_socket_connect_internal
  unfoldable pub socket_connect_internal : M ReturnCode
  unfolding bind_socket
  socket_connect_internal = do
    res ← ask (λ h. e.socket_result h udp) (zsock_socket udp)
    elim res [ err _ ↦ pure (err enonet) | ok sock ↦ bind_socket sock ]

  -- thingsboard_socket_connect of socket.c, with `server_address` that of the client
  unfoldable pub socket_connect_udp : Configuration → M ReturnCode
  socket_connect_udp config = do
    address ← server_resolve (c_string config.server_hostname) config.server_port
    elim address [
      | err _ ↦ pure (err enonet)
      | ok a ↦ (do
        sock ← socket_connect_internal
        modify_client (λ c. record c { server_address = some a })
        pure sock)
    ]

  -- The socket options that are set in turn, each of which must not fail.
  set_options : List SocketOption → ℕ → M ReturnCode → M ReturnCode
  unfolding close_and_fail
  set_options [] sock k = k
  set_options (o ∷ os) sock k = do
    res ← ask (λ h. e.setsockopt_result h sock o) (zsock_setsockopt sock o)
    elim res [ err _ ↦ close_and_fail sock eperm | ok _ ↦ set_options os sock k ]

  connect_dtls : ℕ → M ReturnCode
  unfolding close_and_fail
  connect_dtls sock = do
    res ← ask (λ h. e.connect_result h sock) (zsock_connect sock)
    elim res [
      | err _ ↦ close_and_fail sock enonet
      | ok _ ↦ (do modify_client (λ c. record c { server_address = none }); pure (ok sock))
    ]

  open_dtls : M ReturnCode
  unfolding set_options connect_dtls
  open_dtls = do
    res ← ask (λ h. e.socket_result h dtls_1_2) (zsock_socket dtls_1_2)
    elim res [
      | err _ ↦ pure (err enonet)
      | ok sock ↦
          set_options (tls_sec_tag_list ∷ tls_hostname ∷ tls_dtls_cid ∷ so_keepopen ∷ []) sock
            (connect_dtls sock)
    ]

  -- thingsboard_socket_connect of socket_dtls.c
  unfoldable pub socket_connect_dtls : Configuration → M ReturnCode
  unfolding open_dtls
  socket_connect_dtls config = do
    address ← server_resolve (c_string config.server_hostname) config.server_port
    elim address [ err _ ↦ pure (err enonet) | ok a ↦ open_dtls ]

  -- thingsboard_socket_connect, by CONFIG_THINGSBOARD_DTLS
  unfoldable pub socket_connect : Configuration → M ReturnCode
  socket_connect config =
      if e.kconfig.dtls then socket_connect_dtls config else socket_connect_udp config
