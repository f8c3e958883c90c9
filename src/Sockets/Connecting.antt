-- ===== src/Sockets/Connecting.antt =====
-- What the client's constructor of csrc/socket_endpoint.cc leaves, and how long it tries.
use flash_reduce_dev.Common.{
  ℕ, ◌+◌, ◌≤◌, ◌≡◌, refl, ap, ◌∙◌, inl, inr, ℤ, negsuc, is_nonneg, true, false, List, ◌∷◌,
  Bool-cases, arith,
}
use flash_reduce_dev.Sockets.Kernel.{AddrInfo, Kernel, KernelLaws, Ledger, opened}
use flash_reduce_dev.Sockets.Endpoint.{
  SocketEndpoint, Failure, asprintf_failed, couldnt_listen, accept_failed, getaddrinfo_failed,
  couldnt_connect, Result, returned, thrown, connecting, connect_to, destroy,
}
use flash_reduce_dev.Sockets.Ownership.{opened-negative, close-Opens, Connects, connecting-Connects}
use flash_reduce_dev.Sockets.Names.{release, unnamed_lem, named_lem, found_lem, unknown_lem}

-- The seconds that the constructor has slept when it throws.
abbrev pub waited : Failure → ℕ
waited asprintf_failed = 0
waited couldnt_listen = 0
waited accept_failed = 0
waited getaddrinfo_failed = 0
waited couldnt_connect = 5

ledger_ext : (v w : Ledger) → v.fds ≡ w.fds → v.blocks ≡ w.blocks → v.slept ≡ w.slept → v ≡ w
ledger_ext v w fds blocks slept = cc

module _ {K : Type 0} (k : Kernel K) (l : KernelLaws k) where
  -- What the client's constructor leaves.
  abbrev pub ConnectsTo : Ledger → K × Result SocketEndpoint → Type 0
  ConnectsTo v (d', returned e) =
      ((l.view d').fds ≡ opened e.sockfd v.fds)
      × ((l.view d').blocks ≡ v.blocks)
      × (is_nonneg e.sockfd ≡ true)
      × (e.is_daemon ≡ false)
      × ((l.view (destroy k d' e)).fds ≡ v.fds)
      × ((l.view d').slept ≤ v.slept + 5)
  ConnectsTo v (d', thrown f) =
      ((l.view d').fds ≡ v.fds)
      × ((l.view d').blocks ≡ v.blocks)
      × ((l.view d').slept ≡ v.slept + waited f)

  -- From the failure that leaves everything as it was.
  as_before :
      (v : Ledger) (d : K) (f : Failure) → waited f ≡ 0 → l.view d ≡ v → ConnectsTo v (d, thrown f)
  as_before v d f now h = (
    ap (λ (w : Ledger). w.fds) h,
    ap (λ (w : Ledger). w.blocks) h,
    omega (arith, now, ap (λ (w : Ledger). w.slept) h),
  )

  -- The client's constructor either returns an endpoint that is no daemon's, with one more open
  -- descriptor, which the destructor gives back, after at most five seconds of sleep, or throws with
  -- no descriptor kept, and when it is that no address could be connected to, it has slept for five
  -- seconds. No heap block is kept.
  pub connect_to-ConnectsTo :
      (d : K) (server_name : ℕ) (port : ℤ) → ConnectsTo (l.view d) (connect_to k d server_name port)
  unfolding connect_to destroy
  connect_to-ConnectsTo d server_name port = elim (Bool-cases (is_nonneg printed.1)) [
    | inl named ↦ elim (Bool-cases (is_nonneg looked.1)) [
      | inl found ↦ elim (Bool-cases (is_nonneg connected.1)) [
        | inl some_fd ↦
            rw (named, found, some_fd)
              (
                ap (λ (w : Ledger). w.fds) (after named found),
                ap (λ (w : Ledger). w.blocks) (after named found),
                some_fd,
                refl,
                ap (λ (w : Ledger). w.fds)
                    (close-Opens k l (record left { fds = (l.view d).fds }) final connected.1
                      (after named found)),
                omega (
                  arith,
                  ap (λ (w : Ledger). w.slept) (after named found),
                  slept named found,
                  connects.slept,
                ),
              )
        | inr no_fd ↦
            rw (named, found, no_fd)
              (
                ap (λ (w : Ledger). w.fds) (after named found)
                    ∙ opened-negative connected.1 (l.view d).fds no_fd,
                ap (λ (w : Ledger). w.blocks) (after named found),
                omega (
                  arith,
                  ap (λ (w : Ledger). w.slept) (after named found),
                  slept named found,
                  connects.gave_up no_fd,
                ),
              )
      ]
      | inr unknown ↦
          rw (named, unknown)
            (as_before (l.view d) (k.free looked.0 printed.2) getaddrinfo_failed refl (
              unknown_lem k l (l.view d) printed.0 server_name printed.2 false
                (named_lem k l d port named) unknown))
    ]
    | inr unnamed ↦
        rw unnamed
          (as_before (l.view d) printed.0 asprintf_failed refl (unnamed_lem k l d port unnamed))
  ]
    where
      printed : K × ℤ × ℕ
      printed = k.asprintf d port

      looked : K × ℤ × ℕ × List AddrInfo
      looked = k.getaddrinfo printed.0 server_name printed.2 false

      connected : K × ℤ
      connected = connecting k 5 looked.0 (negsuc 0) looked.3

      connects : Connects k l 5 (l.view looked.0) connected
      connects = connecting-Connects k l 5 looked.0 (negsuc 0) looked.3 refl

      final : K
      final = k.free (k.freeaddrinfo connected.0 looked.2) printed.2

      seen :
          is_nonneg printed.1 ≡ true
          → is_nonneg looked.1 ≡ true
          → l.view looked.0
            ≡ (record (l.view d) { blocks = looked.2 ∷ printed.2 ∷ (l.view d).blocks })
      seen named found =
          found_lem k l (l.view d) printed.0 server_name printed.2 false
            (named_lem k l d port named) found

      left : Ledger
      left = record (l.view d) {
        fds = opened connected.1 (l.view d).fds;
        slept = (l.view connected.0).slept;
      }

      after : is_nonneg printed.1 ≡ true → is_nonneg looked.1 ≡ true → l.view final ≡ left
      after named found = release k l left connected.0 looked.2 printed.2 (
          ledger_ext (l.view connected.0) _
            (connects.fds ∙ ap (λ (w : Ledger). opened connected.1 w.fds) (seen named found))
            (connects.blocks ∙ ap (λ (w : Ledger). w.blocks) (seen named found)) refl)

      slept :
          is_nonneg printed.1 ≡ true
          → is_nonneg looked.1 ≡ true
          → (l.view looked.0).slept ≡ (l.view d).slept
      slept named found = ap (λ (w : Ledger). w.slept) (seen named found)
