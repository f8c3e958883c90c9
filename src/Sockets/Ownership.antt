-- ===== src/Sockets/Ownership.antt =====
-- What the constructors of csrc/socket_endpoint.cc own when they return or throw.
use flash_reduce_dev.Common.{
  ℕ, zero, suc, ◌+◌, ◌≤◌, ◌≡◌, refl, sym, ap, subst, ◌∙◌, inl, inr, ℤ, pos, negsuc, is_zero,
  is_nonneg, true, false, ◌||◌, List, [], ◌∷◌, ◌==◌, Bool-cases, arith,
}
use flash_reduce_dev.Sockets.Kernel.{AddrInfo, Kernel, KernelLaws, Ledger, opened, closed}
use flash_reduce_dev.Sockets.Endpoint.{first_socket, try_bind, try_connect, connecting}

closed-opened : (fd : ℤ) (fds : List ℕ) → closed fd (opened fd fds) ≡ fds
closed-opened (pos n) fds = ground arith
closed-opened (negsuc n) fds = refl

pub opened-negative : (fd : ℤ) (fds : List ℕ) → is_nonneg fd ≡ false → opened fd fds ≡ fds
opened-negative (pos n) fds h = absurd (ground (arith, h))
opened-negative (negsuc n) fds h = refl

-- Closing the last but one of the descriptors leaves the last, also when the two are equal.
pub closed-second : (a b : ℤ) (fds : List ℕ) → closed b (opened a (opened b fds)) ≡ opened a fds
closed-second (pos m) (pos n) fds = ground arith
closed-second (negsuc m) (pos n) fds = ground arith
closed-second a (negsuc n) fds = refl

module _ {K : Type 0} (k : Kernel K) (l : KernelLaws k) where
  -- The descriptor that is returned is open in addition.
  abbrev pub Opens : Ledger → K × ℤ → Type 0
  Opens v (d', fd) = l.view d' ≡ (record v { fds = opened fd v.fds })

  pub close-Opens : (v : Ledger) (d : K) (fd : ℤ) → Opens v (d, fd) → l.view (k.close d fd) ≡ v
  close-Opens v d fd h =
      l.close_lem d fd
      ∙ ap (λ (w : Ledger). record w { fds = closed fd w.fds }) h
      ∙ ap (λ (x : List ℕ). record v { fds = x }) (closed-opened fd v.fds)

  pub try_bind-Opens : (d : K) (t : AddrInfo) → Opens (l.view d) (try_bind k d t)
  unfolding try_bind
  try_bind-Opens d t = elim (Bool-cases (is_nonneg fd)) [
    | inl some_fd ↦ elim (Bool-cases (is_zero (k.bind (k.setsockopt made.0 fd) fd t.ai_addr).1)) [
      | inl is_bound ↦ rw (some_fd, is_bound) bound
      | inr refused ↦ rw (some_fd, refused) (close-Opens (l.view d) _ fd bound)
    ]
    | inr no_fd ↦ rw no_fd (l.socket_lem d t.ai_family t.ai_socktype t.ai_protocol)
  ]
    where
      made : K × ℤ
      made = k.socket d t.ai_family t.ai_socktype t.ai_protocol

      fd : ℤ
      fd = made.1

      bound : Opens (l.view d) ((k.bind (k.setsockopt made.0 fd) fd t.ai_addr).0, fd)
      bound =
          l.bind_lem (k.setsockopt made.0 fd) fd t.ai_addr
          ∙ l.setsockopt_lem made.0 fd
          ∙ l.socket_lem d t.ai_family t.ai_socktype t.ai_protocol

  pub try_connect-Opens : (d : K) (t : AddrInfo) → Opens (l.view d) (try_connect k d t)
  unfolding try_connect
  try_connect-Opens d t = elim (Bool-cases (is_nonneg fd)) [
    | inl some_fd ↦ elim (Bool-cases (is_zero (k.connect made.0 fd t.ai_addr).1)) [
      | inl through ↦ rw (some_fd, through) connected
      | inr refused ↦ rw (some_fd, refused) (close-Opens (l.view d) _ fd connected)
    ]
    | inr no_fd ↦ rw no_fd (l.socket_lem d t.ai_family t.ai_socktype t.ai_protocol)
  ]
    where
      made : K × ℤ
      made = k.socket d t.ai_family t.ai_socktype t.ai_protocol

      fd : ℤ
      fd = made.1

      connected : Opens (l.view d) ((k.connect made.0 fd t.ai_addr).0, fd)
      connected =
          l.connect_lem made.0 fd t.ai_addr ∙ l.socket_lem d t.ai_family t.ai_socktype t.ai_protocol

  -- A round that gave no descriptor left things as they were.
  Opens-negative :
      (v : Ledger) (d : K) (fd : ℤ) → is_nonneg fd ≡ false → Opens v (d, fd) → l.view d ≡ v
  Opens-negative v d fd neg h =
      h ∙ ap (λ (x : List ℕ). record v { fds = x }) (opened-negative fd v.fds neg)

  pub first_socket-Opens :
      (try : K → AddrInfo → K × ℤ) (opens : (d : K) (t : AddrInfo) → Opens (l.view d) (try d t))
      (d : K) (sockfd : ℤ) (list : List AddrInfo)
      → is_nonneg sockfd ≡ false
      → Opens (l.view d) (first_socket k try d sockfd list)
  unfolding first_socket
  first_socket-Opens try opens d sockfd [] neg =
      ap (λ (x : List ℕ). record (l.view d) { fds = x })
        (sym (opened-negative sockfd (l.view d).fds neg))
  first_socket-Opens try opens d sockfd (t ∷ ts) neg = elim (Bool-cases (is_nonneg (try d t).1)) [
    | inl found ↦ rw found (opens d t)
    | inr missed ↦ rw missed (
        subst (λ (v : Ledger). Opens v (first_socket k try (try d t).0 (try d t).1 ts))
          (Opens-negative (l.view d) (try d t).0 (try d t).1 missed (opens d t))
          (first_socket-Opens try opens (try d t).0 (try d t).1 ts missed))
  ]

  -- After up to `left` retries, each after a second of sleep, all of them when there is no socket.
  pub record Connects (left : ℕ) (v : Ledger) (r : K × ℤ) : Type 0 where
    pub fds : (l.view r.0).fds ≡ opened r.1 v.fds
    pub blocks : (l.view r.0).blocks ≡ v.blocks
    pub slept : (l.view r.0).slept ≤ v.slept + left
    pub gave_up : is_nonneg r.1 ≡ false → (l.view r.0).slept ≡ v.slept + left

  at_once :
      (left : ℕ) (v : Ledger) (d : K) (fd : ℤ)
      → is_nonneg fd || (left == 0) ≡ true
      → Opens v (d, fd)
      → Connects left v (d, fd)
  at_once left v d fd h o = record {
    fds = ap (λ (w : Ledger). w.fds) o;
    blocks = ap (λ (w : Ledger). w.blocks) o;
    slept = omega (arith, ap (λ (w : Ledger). w.slept) o);
    gave_up = λ e. ground (arith, ap (λ (w : Ledger). w.slept) o, h, e);
  }

  pub connecting-Connects :
      (left : ℕ) (d : K) (sockfd : ℤ) (list : List AddrInfo)
      → is_nonneg sockfd ≡ false
      → Connects left (l.view d) (connecting k left d sockfd list)
  unfolding connecting
  connecting-Connects zero d sockfd list neg =
      let r = first_socket k (try_connect k) d sockfd list in
      at_once 0 (l.view d) r.0 r.1 (ground arith)
        (first_socket-Opens (try_connect k) try_connect-Opens d sockfd list neg)
  connecting-Connects (suc left) d sockfd list neg = elim (Bool-cases (is_nonneg r.1)) [
    | inl found ↦ rw found (at_once (suc left) (l.view d) r.0 r.1 (ground (arith, found)) opens)
    | inr missed ↦
        let c = connecting-Connects left (k.sleep r.0 1) r.1 list missed in
        rw missed (record {
          fds =
              c.fds
              ∙ ap (λ (w : Ledger). opened (connecting k left (k.sleep r.0 1) r.1 list).1 w.fds)
                  (rested missed);
          blocks = c.blocks ∙ ap (λ (w : Ledger). w.blocks) (rested missed);
          slept = omega (arith, c.slept, ap (λ (w : Ledger). w.slept) (rested missed));
          gave_up = λ e. omega (arith, c.gave_up e, ap (λ (w : Ledger). w.slept) (rested missed));
        })
  ]
    where
      r : K × ℤ
      r = first_socket k (try_connect k) d sockfd list

      opens : Opens (l.view d) r
      opens = first_socket-Opens (try_connect k) try_connect-Opens d sockfd list neg

      rested :
          is_nonneg r.1 ≡ false
          → l.view (k.sleep r.0 1) ≡ (record (l.view d) { slept = (l.view d).slept + 1 })
      rested missed =
          l.sleep_lem r.0 1
          ∙ ap (λ (w : Ledger). record w { slept = w.slept + 1 })
              (Opens-negative (l.view d) r.0 r.1 missed opens)
