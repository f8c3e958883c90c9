-- ===== src/Sockets/Names.antt =====
-- The blocks that both constructors of csrc/socket_endpoint.cc allocate first and release at last.
use flash_reduce_dev.Common.{
  ℕ, ◌≡◌, refl, ap, ◌∙◌, ℤ, pos, negsuc, is_nonneg, Bool, true, false, List, ◌∷◌, arith,
}
use flash_reduce_dev.Sockets.Kernel.{Kernel, KernelLaws, Ledger, without, allocated}

freed : (a : ℕ) (xs : List ℕ) → without a (a ∷ xs) ≡ xs
freed a xs = ground arith

released : (a b : ℕ) (xs : List ℕ) → without b (without a (a ∷ b ∷ xs)) ≡ xs
released a b xs = ground arith

allocated-nonneg : (n : ℤ) (b : ℕ) (xs : List ℕ) → is_nonneg n ≡ true → allocated n b xs ≡ b ∷ xs
allocated-nonneg (pos n) b xs h = refl
allocated-nonneg (negsuc n) b xs h = absurd (ground (arith, h))

allocated-negative : (n : ℤ) (b : ℕ) (xs : List ℕ) → is_nonneg n ≡ false → allocated n b xs ≡ xs
allocated-negative (pos n) b xs h = absurd (ground (arith, h))
allocated-negative (negsuc n) b xs h = refl

abbrev pub with_blocks : Ledger → List ℕ → Ledger
with_blocks v xs = record v { blocks = xs }

abbrev pub with_fds : Ledger → List ℕ → Ledger
with_fds v xs = record v { fds = xs }

module _ {K : Type 0} (k : Kernel K) (l : KernelLaws k) where
  -- The two blocks that a constructor allocates go again.
  pub release :
      (v : Ledger) (d : K) (res service : ℕ)
      → l.view d ≡ (record v { blocks = res ∷ service ∷ v.blocks })
      → l.view (k.free (k.freeaddrinfo d res) service) ≡ v
  release v d res service h =
      l.free_lem (k.freeaddrinfo d res) service
      ∙ ap (λ (w : Ledger). record w { blocks = without service w.blocks })
          (l.freeaddrinfo_lem d res
            ∙ ap (λ (w : Ledger). record w { blocks = without res w.blocks }) h)
      ∙ ap (with_blocks v) (released res service v.blocks)

  pub unnamed_lem :
      (d : K) (port : ℤ)
      → is_nonneg (k.asprintf d port).1 ≡ false
      → l.view (k.asprintf d port).0 ≡ l.view d
  unnamed_lem d port e =
      l.asprintf_lem d port
      ∙ ap (with_blocks (l.view d)) (allocated-negative _ _ (l.view d).blocks e)

  pub named_lem :
      (d : K) (port : ℤ)
      → is_nonneg (k.asprintf d port).1 ≡ true
      → l.view (k.asprintf d port).0
        ≡ (record (l.view d) { blocks = (k.asprintf d port).2 ∷ (l.view d).blocks })
  named_lem d port e =
      l.asprintf_lem d port ∙ ap (with_blocks (l.view d)) (allocated-nonneg _ _ (l.view d).blocks e)

  -- The look-up of the addresses, with the block of the service name at hand.
  module _ (v : Ledger) (d : K) (node service : ℕ) (passive : Bool)
      (h : l.view d ≡ (record v { blocks = service ∷ v.blocks })) where
    looked_up : l.view (k.getaddrinfo d node service passive).0 ≡ (record v {
      blocks =
          allocated
            (k.getaddrinfo d node service passive).1
            (k.getaddrinfo d node service passive).2
            (service ∷ v.blocks);
    })
    looked_up =
        l.getaddrinfo_lem d node service passive
        ∙ ap
            (λ (w : Ledger). record w {
              blocks =
                  allocated (k.getaddrinfo d node service passive).1
                    (k.getaddrinfo d node service passive).2 w.blocks;
            })
            h

    pub found_lem :
        is_nonneg (k.getaddrinfo d node service passive).1 ≡ true
        → l.view (k.getaddrinfo d node service passive).0
          ≡ (record v { blocks = (k.getaddrinfo d node service passive).2 ∷ service ∷ v.blocks })
    found_lem e = looked_up ∙ ap (with_blocks v) (allocated-nonneg _ _ (service ∷ v.blocks) e)

    pub unknown_lem :
        is_nonneg (k.getaddrinfo d node service passive).1 ≡ false
        → l.view (k.free (k.getaddrinfo d node service passive).0 service) ≡ v
    unknown_lem e =
        l.free_lem (k.getaddrinfo d node service passive).0 service
        ∙ ap (λ (w : Ledger). record w { blocks = without service w.blocks })
            (looked_up ∙ ap (with_blocks v) (allocated-negative _ _ (service ∷ v.blocks) e))
        ∙ ap (with_blocks v) (freed service v.blocks)
