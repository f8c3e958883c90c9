-- ===== src/Proxy/Queue.antt =====
-- `allocateArgs` and `ProxyArgsAppend` of csrc/proxy.cc. Each is one
-- command: its body runs under the handler's mutex, but for the last line of `allocateArgs`, which
-- writes an entry that nothing else points to. `fresh` is the first element of the block that `malloc` returns.
use flash_reduce_dev.Common.{
  ℕ, zero, suc, ◌+◌, Bool, true, ◌&&◌, not, ◌∷◌, ◌==◌, if◌then◌else◌, ltb,
}
use flash_reduce_dev.Proxy.State.{
  Ptr, null, ProxyArgs, zeroed, ok, exited, Cmd, pure, ◌>>=◌, ◌>>◌, update, get, load, set_next,
  set_next_peer, load_tail, set_tail, set_ops, set_pool,
}

abbrev pub allocate_size : ℕ
allocate_size = 32

-- The element lies in the block that begins at `base`; pointers count elements.
abbrev pub in_block : Ptr → Ptr → Bool
in_block base a = not (ltb a base) && ltb a (base + allocate_size)

-- The loop over `i` with `k` rounds left, on the memory.
unfoldable pub link_elems : (base i k : ℕ) → (Ptr → ProxyArgs) → Ptr → ProxyArgs
link_elems base i zero node = node
link_elems base i (suc k) node = link_elems base (i + 1) k (
    if ltb (i + 1) allocate_size
    then update node (base + i) (record (node (base + i)) { next = base + i + 1 })
    else node)

-- `CALLOC` of a block, which `malloc` puts at `fresh`: its elements are zeroed; without memory the
-- program exits.
abbrev pub calloc : (fresh : Ptr) → Cmd (Unit {0})
calloc fresh s =
    if fresh == null
    then exited
    else ok tt (record s {
      node = λ a. if in_block fresh a then zeroed else s.node a;
      live = λ a. if in_block fresh a then true else s.live a;
    })

-- `CALLOC` and the loop: a zeroed block, linked in order.
unfoldable pub grow_pool : (fresh : Ptr) → Cmd (Unit {0})
grow_pool fresh = do
  calloc fresh
  λ s. ok tt (record s {
    node = link_elems fresh 0 allocate_size s.node;
    pool = fresh;
    pools = fresh ∷ s.pools;
  })

unfoldable pub take_elem : Cmd Ptr
take_elem = do
  s ← get
  n ← load s.pool
  set_pool n.next
  set_next s.pool null
  set_next_peer s.pool null
  pure s.pool

unfoldable pub allocate_args : (fresh : Ptr) → Cmd Ptr
allocate_args fresh = do s ← get; if s.pool == null then grow_pool fresh else pure tt; take_elem

-- The channel has no entry queued: `args` becomes an operation of the ring, right behind `ops`.
unfoldable pub append_op : Ptr → Cmd (Unit {0})
append_op args = do
  s ← get
  if s.ops == null
      then (do set_next args args; set_ops args)
      else (do o ← load s.ops; set_next args o.next; set_next s.ops args)

unfoldable pub proxy_args_append : Ptr → Cmd (Unit {0})
unfolding append_op
proxy_args_append args = do
  n ← load args
  t ← load_tail n.proxy_tail
  if t == null then append_op args else set_next_peer t args
  set_tail n.proxy_tail args
