-- ===== src/Benchmark/Live.antt =====
-- Which of the objects of examples/proxy_send_recv.cc are live, and what becomes of them in `main`.
use flash_reduce_dev.Common.{
  ℕ, ◌≡◌, ◌≢◌, Bool, true, false, ◌&&◌, ◌||◌, List, [], ◌∷◌, ◌==◌, if◌then◌else◌,
}
use flash_reduce_dev.Proxy.State.{Ptr, null}
use flash_reduce_dev.Rdma.Device.{Verbs}
use flash_reduce_dev.Benchmark.Setup.{QpInitAttr}
use flash_reduce_dev.Benchmark.Objects.{Objects}

pub data Kind : Type 0 where
  device_context : Kind
  protection_domain : Kind
  heap_block : Kind
  memory_region : Kind
  completion_queue : Kind
  queue_pair : Kind

abbrev pub rank : Kind → ℕ
rank Kind.device_context = 0
rank Kind.protection_domain = 1
rank Kind.heap_block = 2
rank Kind.memory_region = 3
rank Kind.completion_queue = 4
rank Kind.queue_pair = 5

-- A live object, with the objects that it is built on.
pub record Object : Type 0 where
  pub kind : Kind
  pub at : Ptr
  pub needs : List Ptr

abbrev pub listed : Ptr → List Ptr → Bool
listed p [] = false
listed p (q ∷ qs) = q == p || listed p qs

-- Some object is built on the one at `p`.
abbrev pub is_used : Ptr → List Object → Bool
is_used p [] = false
is_used p (o ∷ os) = listed p o.needs || is_used p os

-- Some object stands at `p`.
abbrev pub is_taken : Ptr → List Object → Bool
is_taken p [] = false
is_taken p (o ∷ os) = o.at == p || is_taken p os

-- Without the newest object of the kind at `p`.
abbrev pub without : Kind → Ptr → List Object → List Object
without k p [] = []
without k p (o ∷ os) =
    let rest = without k p os in if rank o.kind == rank k && o.at == p then os else o ∷ rest

-- A creation that succeeds gives a new object, at an address that no live object has or is built on.
pub record Creates {V : Type 0} (live : V → List Object) (kind : Kind) (needs : List Ptr) (d : V)
    (r : V × Ptr) : Type 0 where
  pub live_after : r.1 ≢ null → live r.0 ≡ record { kind = kind; at = r.1; needs = needs } ∷ live d
  pub unused : r.1 ≢ null → is_used r.1 (live d) ≡ false
  pub untaken : r.1 ≢ null → is_taken r.1 (live d) ≡ false

-- An object of the kind stands at `p`.
abbrev pub is_there : Kind → Ptr → List Object → Bool
is_there k p [] = false
is_there k p (o ∷ os) = (rank o.kind == rank k && o.at == p) || is_there k p os

-- A release takes an object away that is live and that nothing live is built on. Nothing is known
-- of any other, such as a second one of the same object.
abbrev pub Releases : {V : Type 0} → (V → List Object) → Kind → Ptr → V → V → Type 0
Releases live kind p d d' =
    is_there kind p (live d) ≡ true → is_used p (live d) ≡ false → live d' ≡ without kind p (live d)

-- What the manuals of the verbs library and of the heap say of the live objects.
pub record ObjectLaws {V : Type 0} (names : Verbs V) (v : Objects V) : Type 0 where
  pub live : V → List Object
  pub get_device_list-live : (d : V) → live (names.get_device_list d).0 ≡ live d
  pub free_device_list-live : (d : V) (l : ℕ) → live (names.free_device_list d l) ≡ live d
  pub open_device-Creates :
      (d : V) (device : ℕ) → Creates live Kind.device_context [] d (names.open_device d device)
  pub query_port-live : (d : V) (c : Ptr) → live (v.query_port d c).0 ≡ live d
  pub query_gid-live : (d : V) (c : Ptr) → live (v.query_gid d c).0 ≡ live d
  pub alloc_pd-Creates :
      (d : V) (c : Ptr) → Creates live Kind.protection_domain (c ∷ []) d (v.alloc_pd d c)
  pub malloc-Creates : (d : V) (size : ℕ) → Creates live Kind.heap_block [] d (v.malloc d size)
  pub reg_mr-Creates :
      (d : V) (pd buffer size flags : ℕ)
      → Creates live Kind.memory_region (pd ∷ buffer ∷ []) d (v.reg_mr d pd buffer size flags)
  pub create_cq-Creates :
      (d : V) (c depth : ℕ) → Creates live Kind.completion_queue (c ∷ []) d (v.create_cq d c depth)
  pub create_qp-Creates :
      (d : V) (pd : Ptr) (a : QpInitAttr)
      → Creates live Kind.queue_pair (pd ∷ a.send_cq ∷ a.recv_cq ∷ []) d (v.create_qp d pd a)
  pub destroy_qp-Releases :
      (d : V) (p : Ptr) → Releases live Kind.queue_pair p d (v.destroy_qp d p).0
  pub destroy_cq-Releases :
      (d : V) (p : Ptr) → Releases live Kind.completion_queue p d (v.destroy_cq d p).0
  pub dereg_mr-Releases :
      (d : V) (p : Ptr) → Releases live Kind.memory_region p d (v.dereg_mr d p).0
  pub free-Releases : (d : V) (p : Ptr) → Releases live Kind.heap_block p d (v.free d p)
  pub dealloc_pd-Releases :
      (d : V) (p : Ptr) → Releases live Kind.protection_domain p d (v.dealloc_pd d p).0
  pub close_device-Releases :
      (d : V) (p : Ptr) → Releases live Kind.device_context p d (v.close_device d p).0
