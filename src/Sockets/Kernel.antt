-- ===== src/Sockets/Kernel.antt =====
-- The calls of the C library that csrc/socket_endpoint.cc makes.
use flash_reduce_dev.Common.{ℕ, ◌+◌, ◌≡◌, ℤ, pos, negsuc, Bool, List, [], ◌∷◌, ◌==◌, if◌then◌else◌}

pub record AddrInfo : Type 0 where
  pub ai_family : ℕ
  pub ai_socktype : ℕ
  pub ai_protocol : ℕ
  pub ai_addr : ℕ

-- The calls on an operating system in the state `K`. A number that a call returns is negative on
-- failure. `asprintf` also gives the block that it fills, `getaddrinfo` the head of its list and
-- the list. The results that the program does not look at are left out.
pub record Kernel (K : Type 0) : Type 0 where
  pub asprintf : K → (port : ℤ) → K × ℤ × ℕ
  pub getaddrinfo : K → (node service : ℕ) → (passive : Bool) → K × ℤ × ℕ × List AddrInfo
  pub freeaddrinfo : K → (res : ℕ) → K
  pub free : K → (block : ℕ) → K
  pub socket : K → (family socktype protocol : ℕ) → K × ℤ
  pub setsockopt : K → (fd : ℤ) → K
  pub bind : K → (fd : ℤ) → (addr : ℕ) → K × ℤ
  pub connect : K → (fd : ℤ) → (addr : ℕ) → K × ℤ
  pub listen : K → (fd : ℤ) → (backlog : ℕ) → K
  pub accept : K → (fd : ℤ) → K × ℤ
  pub getpeername : K → (fd : ℤ) → K
  pub close : K → (fd : ℤ) → K
  pub sleep : K → (seconds : ℕ) → K

-- The first entry equal to `x` goes.
abbrev pub without : ℕ → List ℕ → List ℕ
without x [] = []
without x (y ∷ ys) = let rest = without x ys in if y == x then ys else y ∷ rest

-- The open descriptors after a call that returns one, or a negative number.
abbrev pub opened : ℤ → List ℕ → List ℕ
opened (pos n) fds = n ∷ fds
opened (negsuc n) fds = fds

-- The open descriptors after `close`, which refuses a negative number.
abbrev pub closed : ℤ → List ℕ → List ℕ
closed (pos n) fds = without n fds
closed (negsuc n) fds = fds

-- The heap blocks after a call that returns one, unless its number is negative.
abbrev pub allocated : ℤ → ℕ → List ℕ → List ℕ
allocated (pos n) b blocks = b ∷ blocks
allocated (negsuc n) b blocks = blocks

-- The process's open descriptors and heap blocks, and the seconds that it has slept.
pub record Ledger : Type 0 where
  pub fds : List ℕ
  pub blocks : List ℕ
  pub slept : ℕ

-- What the manual says of the calls' effect on them.
pub record KernelLaws {K : Type 0} (k : Kernel K) : Type 0 where
  pub view : K → Ledger
  pub asprintf_lem :
      (d : K) (port : ℤ)
      → view (k.asprintf d port).0 ≡ (record (view d) {
        blocks = allocated (k.asprintf d port).1 (k.asprintf d port).2 (view d).blocks;
      })
  pub getaddrinfo_lem :
      (d : K) (node service : ℕ) (passive : Bool)
      → view (k.getaddrinfo d node service passive).0 ≡ (record (view d) {
        blocks =
            allocated
              (k.getaddrinfo d node service passive).1
              (k.getaddrinfo d node service passive).2
              (view d).blocks;
      })
  pub freeaddrinfo_lem :
      (d : K) (r : ℕ)
      → view (k.freeaddrinfo d r) ≡ (record (view d) { blocks = without r (view d).blocks })
  pub free_lem :
      (d : K) (b : ℕ) → view (k.free d b) ≡ (record (view d) { blocks = without b (view d).blocks })
  pub socket_lem :
      (d : K) (family socktype protocol : ℕ)
      → view (k.socket d family socktype protocol).0
        ≡ (record (view d) { fds = opened (k.socket d family socktype protocol).1 (view d).fds })
  pub setsockopt_lem : (d : K) (fd : ℤ) → view (k.setsockopt d fd) ≡ view d
  pub bind_lem : (d : K) (fd : ℤ) (a : ℕ) → view (k.bind d fd a).0 ≡ view d
  pub connect_lem : (d : K) (fd : ℤ) (a : ℕ) → view (k.connect d fd a).0 ≡ view d
  pub listen_lem : (d : K) (fd : ℤ) (backlog : ℕ) → view (k.listen d fd backlog) ≡ view d
  pub accept_lem :
      (d : K) (fd : ℤ)
      → view (k.accept d fd).0 ≡ (record (view d) { fds = opened (k.accept d fd).1 (view d).fds })
  pub getpeername_lem : (d : K) (fd : ℤ) → view (k.getpeername d fd) ≡ view d
  pub close_lem :
      (d : K) (fd : ℤ) → view (k.close d fd) ≡ (record (view d) { fds = closed fd (view d).fds })
  pub sleep_lem :
      (d : K) (t : ℕ) → view (k.sleep d t) ≡ (record (view d) { slept = (view d).slept + t })
