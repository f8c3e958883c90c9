-- ===== src/Sockets/Construction.antt =====
-- What the server's constructor of csrc/socket_endpoint.cc leaves, and the destructor after them.
use flash_reduce_dev.Common.{
  ℕ, ◌≡◌, refl, ap, ◌∙◌, inl, inr, ℤ, negsuc, is_nonneg, true, List, Bool-cases,
}
use flash_reduce_dev.Sockets.Kernel.{AddrInfo, Kernel, KernelLaws, Ledger, opened, closed}
use flash_reduce_dev.Sockets.Endpoint.{
  SocketEndpoint, Result, returned, thrown, first_socket, try_bind, start_listening, accept_one,
  serve_with, serve, destroy,
}
use flash_reduce_dev.Sockets.Ownership.{
  closed-second, opened-negative, Opens, close-Opens, try_bind-Opens, first_socket-Opens,
}
use flash_reduce_dev.Sockets.Names.{
  with_fds, release, unnamed_lem, named_lem, found_lem, unknown_lem,
}

module _ {K : Type 0} (k : Kernel K) (l : KernelLaws k) where
  -- What `startListening` leaves.
  abbrev Listens : Ledger → K × Result ℤ → Type 0
  Listens v (d', returned fd) = Opens k l v (d', fd)
  Listens v (d', thrown e) = l.view d' ≡ v

  start_listening-Listens : (d : K) (port : ℤ) → Listens (l.view d) (start_listening k d port)
  unfolding start_listening
  start_listening-Listens d port = elim (Bool-cases (is_nonneg printed.1)) [
    | inl named ↦ elim (Bool-cases (is_nonneg looked.1)) [
      | inl found ↦ elim (Bool-cases (is_nonneg bound.1)) [
        | inl some_fd ↦ rw (named, found, some_fd) (l.listen_lem _ bound.1 1 ∙ kept named found)
        | inr no_fd ↦
            rw (named, found, no_fd)
              (kept named found
                ∙ ap (with_fds (l.view d)) (opened-negative bound.1 (l.view d).fds no_fd))
      ]
      | inr unknown ↦
          rw (named, unknown)
            (unknown_lem k l (l.view d) printed.0 0 printed.2 true (named_lem k l d port named)
              unknown)
    ]
    | inr unnamed ↦ rw unnamed (unnamed_lem k l d port unnamed)
  ]
    where
      printed : K × ℤ × ℕ
      printed = k.asprintf d port

      looked : K × ℤ × ℕ × List AddrInfo
      looked = k.getaddrinfo printed.0 0 printed.2 true

      bound : K × ℤ
      bound = first_socket k (try_bind k) looked.0 (negsuc 0) looked.3

      -- With the blocks released, the socket is what is left.
      kept :
          is_nonneg printed.1 ≡ true
          → is_nonneg looked.1 ≡ true
          → l.view (k.free (k.freeaddrinfo bound.0 looked.2) printed.2)
            ≡ (record (l.view d) { fds = opened bound.1 (l.view d).fds })
      kept named found =
          release k l (record (l.view d) { fds = opened bound.1 (l.view d).fds }) bound.0 looked.2
            printed.2
            (first_socket-Opens k l (try_bind k) (try_bind-Opens k l) looked.0 (negsuc 0) looked.3
                refl
              ∙ ap (λ (w : Ledger). record w { fds = opened bound.1 w.fds })
                  (found_lem k l (l.view d) printed.0 0 printed.2 true (named_lem k l d port named)
                    found))

  -- What the server's constructor leaves: a connected endpoint and its descriptor, which the
  -- destructor gives back, or, when it throws, what there was before.
  abbrev pub Serves : Ledger → K × Result SocketEndpoint → Type 0
  Serves v (d', returned e) =
      Opens k l v (d', e.sockfd)
      × (is_nonneg e.sockfd ≡ true)
      × (e.is_daemon ≡ true)
      × (l.view (destroy k d' e) ≡ v)
  Serves v (d', thrown e) = l.view d' ≡ v

  accept_one-Serves :
      (v : Ledger) (d : K) (sockfd : ℤ) → Opens k l v (d, sockfd) → Serves v (accept_one k d sockfd)
  unfolding accept_one destroy
  accept_one-Serves v d sockfd h = elim (Bool-cases (is_nonneg accepted.1)) [
    | inl some_fd ↦ rw some_fd (owned, some_fd, refl, close-Opens k l v _ accepted.1 owned)
    | inr no_fd ↦ rw no_fd (left ∙ ap (with_fds v) (opened-negative accepted.1 v.fds no_fd))
  ]
    where
      accepted : K × ℤ
      accepted = k.accept d sockfd

      left : l.view (k.close accepted.0 sockfd) ≡ (record v { fds = opened accepted.1 v.fds })
      left =
          l.close_lem accepted.0 sockfd
          ∙ ap (λ (w : Ledger). record w { fds = closed sockfd w.fds })
              (l.accept_lem d sockfd
                ∙ ap (λ (w : Ledger). record w { fds = opened accepted.1 w.fds }) h)
          ∙ ap (with_fds v) (closed-second accepted.1 sockfd v.fds)

      owned : Opens k l v (k.getpeername (k.close accepted.0 sockfd) accepted.1, accepted.1)
      owned = l.getpeername_lem _ accepted.1 ∙ left

  serve_with-Serves : (v : Ledger) (r : K × Result ℤ) → Listens v r → Serves v (serve_with k r)
  unfolding serve_with
  serve_with-Serves v (d, returned fd) h = accept_one-Serves v d fd h
  serve_with-Serves v (d, thrown e) h = h

  -- The server's constructor either returns a daemon's endpoint, with one more open descriptor,
  -- which the destructor gives back, or throws. In both cases no other descriptor and no heap block
  -- is kept, whichever of its calls fail.
  pub serve-Serves : (d : K) (port : ℤ) → Serves (l.view d) (serve k d port)
  unfolding serve
  serve-Serves d port =
      serve_with-Serves (l.view d) (start_listening k d port) (start_listening-Listens d port)
