-- ===== src/Benchmark/Objects.antt =====
-- The verbs objects and the buffer that `main` of examples/proxy_send_recv.cc creates and releases.
use flash_reduce_dev.Common.{ℕ, ◌+◌, ◌==◌, if◌then◌else◌, Outcome, done, check_failed, ◌>>=◌}
use flash_reduce_dev.Proxy.State.{Ptr, null}
use flash_reduce_dev.Rdma.QueuePair.{Gid}
use flash_reduce_dev.Rdma.Device.{Verbs, init_ibv_device}
use flash_reduce_dev.Benchmark.Setup.{QpInitAttr, init_attributes, buffer_size}

-- The calls on a library in the state `V`. A null pointer stands for a failed creation, a number
-- other than 0 for a failed query or release.
pub record Objects (V : Type 0) : Type 0 where
  pub query_port : V → (context : Ptr) → V × ℕ × ℕ
  pub query_gid : V → (context : Ptr) → V × ℕ × Gid
  pub alloc_pd : V → (context : Ptr) → V × Ptr
  pub malloc : V → (size : ℕ) → V × Ptr
  pub reg_mr : V → (pd buffer size access : ℕ) → V × Ptr
  pub create_cq : V → (context depth : ℕ) → V × Ptr
  pub create_qp : V → (pd : Ptr) → QpInitAttr → V × Ptr
  pub destroy_qp : V → Ptr → V × ℕ
  pub destroy_cq : V → Ptr → V × ℕ
  pub dereg_mr : V → Ptr → V × ℕ
  pub free : V → Ptr → V
  pub dealloc_pd : V → Ptr → V × ℕ
  pub close_device : V → Ptr → V × ℕ

-- `kCompletionQueueDepth`.
abbrev pub completion_queue_depth : ℕ
completion_queue_depth = 1024

-- `IBV_ACCESS_LOCAL_WRITE`, `IBV_ACCESS_REMOTE_WRITE` and `IBV_ACCESS_ZERO_BASED`.
abbrev pub access : ℕ
access = 1 + 2 + 32

-- The local variables of `main` that hold what was created, and what the queries told.
pub record Resources : Type 0 where
  pub context : Ptr
  pub lid : ℕ
  pub gid : Gid
  pub pd : Ptr
  pub buffer : Ptr
  pub mr : Ptr
  pub cq : Ptr
  pub qp : Ptr

module _ {V : Type 0} where
  -- `CHECK` of a result that has to be 0.
  unfoldable pub successful : {A : Type 0} → V × ℕ × A → Outcome (V × A)
  successful (d, ret, a) = if ret == 0 then done (d, a) else check_failed

  -- `CHECK` of a pointer.
  unfoldable pub non_null : V × Ptr → Outcome (V × Ptr)
  non_null (d, p) = if p == null then check_failed else done (d, p)

module _ {V : Type 0} (names : Verbs V) (v : Objects V) where
  -- Steps 1 to 5 behind the opening of the device.
  unfoldable pub create : V → (context : Ptr) → Outcome (V × Resources)
  create d context = do
    port ← successful (v.query_port d context)
    gid ← successful (v.query_gid port.0 context)
    pd ← non_null (v.alloc_pd gid.0 context)
    buffer ← non_null (v.malloc pd.0 buffer_size)
    mr ← non_null (v.reg_mr buffer.0 pd.1 buffer.1 buffer_size access)
    cq ← non_null (v.create_cq mr.0 context completion_queue_depth)
    qp ← non_null (v.create_qp cq.0 pd.1 (init_attributes cq.1))
    done (
      qp.0,
      record {
        context = context;
        lid = port.1;
        gid = gid.1;
        pd = pd.1;
        buffer = buffer.1;
        mr = mr.1;
        cq = cq.1;
        qp = qp.1;
      },
    )

  -- The end of `main`, which looks at no result.
  unfoldable pub release : V → Resources → V
  release d r =
      let d = (v.destroy_qp d r.qp).0 in
      let d = (v.destroy_cq d r.cq).0 in
      let d = (v.dereg_mr d r.mr).0 in
      let d = v.free d r.buffer in let d = (v.dealloc_pd d r.pd).0 in (v.close_device d r.context).0

  -- `main` from the opening of the device called `name` to the release. `between` is what it does
  -- in the meantime.
  unfoldable pub with_objects : (between : V → Resources → Outcome V) → V → (name : ℕ) → Outcome V
  with_objects between d name = do
    opened ← init_ibv_device names d null name
    created ← create opened.0 opened.2
    d ← between created.0 created.1
    done (release d created.1)
