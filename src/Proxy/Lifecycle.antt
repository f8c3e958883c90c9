-- ===== src/Proxy/Lifecycle.antt =====
-- What `ProxyDestroy` of csrc/proxy.cc frees.
use flash_reduce_dev.Common.{
  ◌≡◌, ◌∙◌, refl, inl, inr, Bool, true, false, ◌||◌, List, [], ◌∷◌, if◌then◌else◌, Bool-cases,
}
use flash_reduce_dev.Proxy.State.{Ptr, Proxy}
use flash_reduce_dev.Proxy.Queue.{in_block}
use flash_reduce_dev.Proxy.Control.{free_pools, release_pools}

-- The address lies in one of the blocks.
abbrev pub in_pools : List Ptr → Ptr → Bool
in_pools [] x = false
in_pools (b ∷ bs) x = in_block b x || in_pools bs x

freed_before : (later : Bool) → (if later then false else false) ≡ false
freed_before true = refl
freed_before false = refl

free_pools_lem :
    (bs : List Ptr) (live : Ptr → Bool) (x : Ptr)
    → free_pools bs live x ≡ (if in_pools bs x then false else live x)
unfolding free_pools
free_pools_lem [] live x = refl
free_pools_lem (b ∷ bs) live x = elim (Bool-cases (in_block b x)) [
  | inl hit ↦ free_pools_lem bs _ x ∙ rw hit (freed_before (in_pools bs x))
  | inr miss ↦ free_pools_lem bs _ x ∙ rw miss refl
]

-- `ProxyDestroy` frees the entries of all blocks of the pool and nothing else, and forgets the
-- blocks.
pub release_pools-live :
    (s : Proxy) (x : Ptr)
    → ((release_pools s).live x ≡ (if in_pools s.pools x then false else s.live x))
      × ((release_pools s).pools ≡ [])
unfolding release_pools
release_pools-live s x = (free_pools_lem s.pools s.live x, refl)
