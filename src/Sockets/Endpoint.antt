-- ===== src/Sockets/Endpoint.antt =====
-- The constructors and the destructor of `SocketEndpoint`.
use flash_reduce_dev.Common.{
  ℕ, zero, suc, ℤ, negsuc, is_zero, is_nonneg, Bool, true, false, List, [], ◌∷◌, if◌then◌else◌,
}
use flash_reduce_dev.Sockets.Kernel.{AddrInfo, Kernel}

-- `is_daemon` is the member `isDaemon_`.
pub record SocketEndpoint : Type 0 where
  pub sockfd : ℤ
  pub is_daemon : Bool

-- What is thrown, by its message.
pub data Failure : Type 0 where
  asprintf_failed couldnt_listen accept_failed getaddrinfo_failed couldnt_connect : Failure

pub data Result (A : Type 0) : Type 0 where
  returned : A → Result A
  thrown : Failure → Result A

module _ {K : Type 0} (k : Kernel K) where
  -- The loop over the addresses, left by `break` with a socket, with `sockfd` from before. A round
  -- gives the socket, or a negative number after which the loop goes on.
  unfoldable pub first_socket :
      (try : K → AddrInfo → K × ℤ) → K → (sockfd : ℤ) → List AddrInfo → K × ℤ
  first_socket try d sockfd [] = (d, sockfd)
  first_socket try d sockfd (t ∷ ts) =
      let (d', fd) = try d t in
      let rest = first_socket try d' fd ts in if is_nonneg fd then (d', fd) else rest

  unfoldable pub try_bind : K → AddrInfo → K × ℤ
  try_bind d t =
      let (d, fd) = k.socket d t.ai_family t.ai_socktype t.ai_protocol in
      if is_nonneg fd
      then (let (d, n) = k.bind (k.setsockopt d fd) fd t.ai_addr in
          if is_zero n then (d, fd) else (k.close d fd, negsuc 0))
      else (d, fd)

  unfoldable pub start_listening : K → (port : ℤ) → K × Result ℤ
  start_listening d port =
      let (d, n, service) = k.asprintf d port in
      if is_nonneg n
      then (let (d, n, res, list) = k.getaddrinfo d 0 service true in
          if is_nonneg n
          then (let (d, fd) = first_socket try_bind d (negsuc 0) list in
              let d = k.free (k.freeaddrinfo d res) service in
              if is_nonneg fd then (k.listen d fd 1, returned fd) else (d, thrown couldnt_listen))
          else (k.free d service, returned (negsuc 0)))
      else (d, thrown asprintf_failed)

  -- The server's constructor from `accept` on.
  unfoldable pub accept_one : K → (sockfd : ℤ) → K × Result SocketEndpoint
  accept_one d sockfd =
      let (d, connfd) = k.accept d sockfd in
      let d = k.close d sockfd in
      if is_nonneg connfd
      then (k.getpeername d connfd, returned (record { sockfd = connfd; is_daemon = true }))
      else (d, thrown accept_failed)

  -- After `startListening`, which the server's constructor does not check.
  unfoldable pub serve_with : K × Result ℤ → K × Result SocketEndpoint
  serve_with (d, returned sockfd) = accept_one d sockfd
  serve_with (d, thrown e) = (d, thrown e)

  unfoldable pub serve : K → (port : ℤ) → K × Result SocketEndpoint
  serve d port = serve_with (start_listening d port)

  unfoldable pub try_connect : K → AddrInfo → K × ℤ
  try_connect d t =
      let (d, fd) = k.socket d t.ai_family t.ai_socktype t.ai_protocol in
      if is_nonneg fd
      then (let (d, n) = k.connect d fd t.ai_addr in
          if is_zero n then (d, fd) else (k.close d fd, negsuc 0))
      else (d, fd)

  -- From the label `connect` on, with `left` retries left, 5 at first.
  unfoldable pub connecting : (left : ℕ) → K → (sockfd : ℤ) → List AddrInfo → K × ℤ
  connecting zero d sockfd list = first_socket try_connect d sockfd list
  connecting (suc left) d sockfd list =
      let (d', fd) = first_socket try_connect d sockfd list in
      let again = connecting left (k.sleep d' 1) fd list in if is_nonneg fd then (d', fd) else again

  unfoldable pub connect_to : K → (server_name : ℕ) → (port : ℤ) → K × Result SocketEndpoint
  connect_to d server_name port =
      let (d, n, service) = k.asprintf d port in
      if is_nonneg n
      then (let (d, n, res, list) = k.getaddrinfo d server_name service false in
          if is_nonneg n
          then (let (d, fd) = connecting 5 d (negsuc 0) list in
              let d = k.free (k.freeaddrinfo d res) service in
              if is_nonneg fd
              then (d, returned (record { sockfd = fd; is_daemon = false }))
              else (d, thrown couldnt_connect))
          else (k.free d service, thrown getaddrinfo_failed))
      else (d, thrown asprintf_failed)

  -- The destructor.
  unfoldable pub destroy : K → SocketEndpoint → K
  destroy d e = k.close d e.sockfd
