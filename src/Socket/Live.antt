-- ===== src/Socket/Live.antt =====
-- Where the network works, a socket is opened.
use thingsboard_sdk.Base.{ℕ, ◌≡◌, false, List, [], ◌∷◌, Bytes, Bool, true, inl, inr, arith}
use thingsboard_sdk.Types.{Configuration, ReturnCode}
use thingsboard_sdk.Types.Cases.{Result-cases}
use thingsboard_sdk.Platform.{
  so_keepopen, tls_dtls_cid, tls_hostname, zsock_setsockopt, tls_sec_tag_list, dtls_1_2, Env,
  History, SocketOption, Protocol,
}
use thingsboard_sdk.World.{World, M}
use thingsboard_sdk.Fota.{is_err, is_zero}
use thingsboard_sdk.Socket.{
  ask, server_resolve, socket_connect_internal, bind_socket, socket_connect_udp, set_options,
  connect_dtls, open_dtls, socket_connect_dtls, socket_connect,
}

abbrev is_empty : List ℕ → Bool
is_empty [] = true
is_empty _ = false

-- Names are resolved, and sockets opened, bound, connected and given their options.
pub record NetworkWorks (e : Env) : Type 0 where
  pub getaddrinfo : (h : History) (s : Bytes) → is_zero (e.getaddrinfo_result h s) ≡ true
  pub addrinfo : (h : History) (s : Bytes) → is_empty (e.addrinfo h s) ≡ false
  pub socket : (h : History) (p : Protocol) → is_err (e.socket_result h p) ≡ false
  pub bind : (h : History) (s : ℕ) → is_err (e.bind_result h s) ≡ false
  pub connect : (h : History) (s : ℕ) → is_err (e.connect_result h s) ≡ false
  pub setsockopt :
      (h : History) (s : ℕ) (o : SocketOption) → is_err (e.setsockopt_result h s o) ≡ false

module _ (e : Env) (works : NetworkWorks e) where
  socket_connect_internal-ok : (w : World) → is_err (socket_connect_internal e w).1 ≡ false
  unfolding socket_connect_internal bind_socket
  socket_connect_internal-ok w = grind (arith, works.socket, works.bind)

  socket_connect_udp-ok :
      (c : Configuration) (w : World) → is_err (socket_connect_udp e c w).1 ≡ false
  unfolding socket_connect_udp server_resolve
  socket_connect_udp-ok c w =
      grind (arith, socket_connect_internal-ok, works.getaddrinfo, works.addrinfo)

  connect_dtls-ok : (s : ℕ) (w : World) → is_err (connect_dtls e s w).1 ≡ false
  unfolding connect_dtls
  connect_dtls-ok s w = grind (arith, works.connect)

  set_options-ok :
      (os : List SocketOption) (s : ℕ) (m : M ReturnCode)
      → ((v : World) → is_err (m v).1 ≡ false)
      → (w : World) → is_err (set_options e os s m w).1 ≡ false
  unfolding set_options
  set_options-ok [] s m h w = h w
  set_options-ok (o ∷ os) s m h w =
      let v = (ask (λ t. e.setsockopt_result t s o) (zsock_setsockopt s o) w).0 in
      ground (arith, works.setsockopt w.history s o, set_options-ok os s m h v)

  open_dtls-ok : (w : World) → is_err (open_dtls e w).1 ≡ false
  unfolding open_dtls
  open_dtls-ok w = elim (Result-cases (e.socket_result w.history dtls_1_2)) [
    | inl (s, p) ↦
        rw (p, open_dtls)
          (set_options-ok (tls_sec_tag_list ∷ tls_hostname ∷ tls_dtls_cid ∷ so_keepopen ∷ []) s
            (connect_dtls e s) (connect_dtls-ok s) _)
    | inr (x, p) ↦ ground (arith, p, works.socket w.history dtls_1_2)
  ]

  socket_connect_dtls-ok :
      (c : Configuration) (w : World) → is_err (socket_connect_dtls e c w).1 ≡ false
  unfolding socket_connect_dtls server_resolve
  socket_connect_dtls-ok c w = grind (arith, open_dtls-ok, works.getaddrinfo, works.addrinfo)

  pub socket_connect-ok : (c : Configuration) (w : World) → is_err (socket_connect e c w).1 ≡ false
  unfolding socket_connect
  socket_connect-ok c w = ground (arith, socket_connect_udp-ok c w, socket_connect_dtls-ok c w)
