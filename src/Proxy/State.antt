-- ===== src/Proxy/State.antt =====
-- The data of csrc/proxy.h: queue entries in memory, the handler, and commands over both.
use flash_reduce_dev.Common.{ℕ, ℤ, pos, Bool, true, false, List, ◌==◌, if◌then◌else◌}
use flash_reduce_dev.Rdma.WorkRequest.{RecvWr, SendWr, Sge, zero_recv_wr, zero_send_wr, zero_sge}

abbrev pub Ptr : Type 0
Ptr = ℕ

abbrev pub null : Ptr
null = 0

pub data ProxyOpState : Type 0 where
  op_none op_ready op_progress : ProxyOpState

abbrev pub is_none : ProxyOpState → Bool
is_none op_none = true
is_none op_ready = false
is_none op_progress = false

-- `cq` and `qp` are handles of the verbs library.
pub record RdmaEndpoint : Type 0 where
  pub cq : Ptr
  pub available_wqes : ℤ
  pub qp : Ptr
  pub recv_wr : RecvWr
  pub sge : Sge
  pub send_wr : SendWr

-- `progress` is a function pointer, `proxy_tail` the address of a channel's tail pointer.
pub record ProxyArgs : Type 0 where
  pub idle : Bool
  pub state : ProxyOpState
  pub progress : ℕ
  pub proxy_tail : Ptr
  pub next : Ptr
  pub next_peer : Ptr
  pub endpoint : RdmaEndpoint
  pub iterations : ℕ
  pub start_tick : ℕ
  pub end_tick : ℕ
  pub first_completion : Bool
  pub count : ℤ

abbrev pub zeroed : ProxyArgs
zeroed = record {
  idle = false;
  state = op_none;
  progress = 0;
  proxy_tail = null;
  next = null;
  next_peer = null;
  endpoint = record {
    cq = null;
    available_wqes = pos 0;
    qp = null;
    recv_wr = zero_recv_wr;
    sge = zero_sge;
    send_wr = zero_send_wr;
  };
  iterations = 0;
  start_tick = 0;
  end_tick = 0;
  first_completion = false;
  count = pos 0;
}

-- A handler with the memory that it points into: `node a` is the `ProxyArgs` at `a` where
-- `live a`, `tail k` the pointer that the channel variable at `k` holds. `pools` lists the blocks,
-- newest first, `thread` says whether `proxyThread` is set.
pub record Proxy : Type 0 where
  pub node : Ptr → ProxyArgs
  pub live : Ptr → Bool
  pub tail : Ptr → Ptr
  pub ops : Ptr
  pub pool : Ptr
  pub pools : List Ptr
  pub thread : Bool
  pub stop : Bool
  pub abort_flag : Bool

-- `fault` is an access through a null or dangling pointer, `exited` the `exit(1)` of `CALLOC`.
pub data Run (A : Type 0) : Type 0 where
  ok : A → Proxy → Run A
  fault : Run A
  exited : Run A

abbrev pub Cmd : Type 0 → Type 0
Cmd A = Proxy → Run A

abbrev pub pure : {A : Type 0} → A → Cmd A
pure = ok

abbrev pub and_then : {A B : Type 0} → Run A → (A → Cmd B) → Run B
and_then (ok a s) k = k a s
and_then fault k = fault
and_then exited k = exited

infixl 5 ◌>>=◌ ◌>>◌
abbrev pub ◌>>=◌ : {A B : Type 0} → Cmd A → (A → Cmd B) → Cmd B
m >>= k = λ s. and_then (m s) k

abbrev pub ◌>>◌ : {B : Type 0} → Cmd (Unit {0}) → Cmd B → Cmd B
m >> n = m >>= λ _. n

abbrev pub update {ℓ} : {A : Type ℓ} → (Ptr → A) → Ptr → A → Ptr → A
update f p v a = if a == p then v else f a

abbrev pub get : Cmd Proxy
get s = ok s s

-- `*p`
abbrev pub load : Ptr → Cmd ProxyArgs
load p s = if s.live p then ok (s.node p) s else fault

-- `*p = n`
abbrev pub store : Ptr → ProxyArgs → Cmd (Unit {0})
store p n s = if s.live p then ok tt (record s { node = update s.node p n }) else fault

-- `p->next = q`
abbrev pub set_next : Ptr → Ptr → Cmd (Unit {0})
set_next p q = do n ← load p; store p (record n { next = q })

-- `p->nextPeer = q`
abbrev pub set_next_peer : Ptr → Ptr → Cmd (Unit {0})
set_next_peer p q = do n ← load p; store p (record n { next_peer = q })

-- `*k` and `*k = q` for a channel's tail pointer
abbrev pub load_tail : Ptr → Cmd Ptr
load_tail k s = if k == null then fault else ok (s.tail k) s

abbrev pub set_tail : Ptr → Ptr → Cmd (Unit {0})
set_tail k q s = if k == null then fault else ok tt (record s { tail = update s.tail k q })

abbrev pub set_ops : Ptr → Cmd (Unit {0})
set_ops p s = ok tt (record s { ops = p })

abbrev pub set_pool : Ptr → Cmd (Unit {0})
set_pool p s = ok tt (record s { pool = p })

-- A run that ends without a fault, in a result and a memory that meet `P`.
abbrev pub Returns : {A : Type 0} → (A → Proxy → Type 0) → Run A → Type 0
Returns P (ok a s) = P a s
Returns P fault = ⊥
Returns P exited = ⊥

pub Returns-then :
    {A B : Type 0} (P : A → Proxy → Type 0) (Q : B → Proxy → Type 0) (r : Run A) (k : A → Cmd B)
    → Returns P r
    → ((a : A) (s : Proxy) → P a s → Returns Q (k a s))
    → Returns Q (and_then r k)
Returns-then P Q (ok a s) k h next = next a s h
Returns-then P Q fault k h next = h
Returns-then P Q exited k h next = h

pub Returns-weaken :
    {A : Type 0} (P Q : A → Proxy → Type 0) (r : Run A)
    → Returns P r
    → ((a : A) (s : Proxy) → P a s → Q a s)
    → Returns Q r
Returns-weaken P Q (ok a s) h imp = imp a s h
Returns-weaken P Q fault h imp = h
Returns-weaken P Q exited h imp = h
