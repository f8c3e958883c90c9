-- ===== src/Benchmark/ReleasedExamples.antt =====
-- The theorem on the objects of `main`, applied to a library that keeps a list of them.
use flash_reduce_dev.Common.{
  ℕ, suc, ◌+◌, ◌<◌, ◌≡◌, refl, false, true, not, ◌&&◌, pos, List, [], ◌∷◌, ◌==◌, if◌then◌else◌,
  done, arith,
}
use flash_reduce_dev.Proxy.State.{Ptr}
use flash_reduce_dev.Rdma.Device.{Verbs, init_ibv_device, open_picked, pick_device}
use flash_reduce_dev.Benchmark.Objects.{
  Objects, with_objects, create, release, successful, non_null,
}
use flash_reduce_dev.Benchmark.Live.{
  Kind, Object, listed, is_used, is_taken, is_there, without, Creates, ObjectLaws,
}
use flash_reduce_dev.Benchmark.Stacked.{Settles}
use flash_reduce_dev.Benchmark.Released.{MainFails, with_objects-Settles}

abbrev total : List Ptr → ℕ
total [] = 0
total (p ∷ ps) = p + total ps

-- An address above all that the objects mention.
abbrev fresh : List Object → Ptr
fresh [] = 1
fresh (o ∷ os) = suc (o.at + total o.needs + fresh os)

abbrev added : Kind → List Ptr → List Object → List Object × Ptr
added k needs os = (record { kind = k; at = fresh os; needs = needs } ∷ os, fresh os)

-- A release of what is not live, or of what is in use, loses everything.
abbrev taken_away : Kind → Ptr → List Object → List Object
taken_away k p os = if is_there k p os && not (is_used p os) then without k p os else []

abbrev store_names : Verbs (List Object)
store_names = record {
  get_device_list = λ d. (d, 8, 41 ∷ 42 ∷ []);
  get_device_name = λ device. device + 100;
  strcmp = λ left right. if left == right then pos 0 else pos 1;
  open_device = λ d device. added Kind.device_context [] d;
  free_device_list = λ d list. d;
}

abbrev store : Objects (List Object)
store = record {
  query_port = λ d c. (d, 0, 5);
  query_gid = λ d c. (d, 0, record { subnet_prefix = 1; interface_id = 2 });
  alloc_pd = λ d c. added Kind.protection_domain (c ∷ []) d;
  malloc = λ d size. added Kind.heap_block [] d;
  reg_mr = λ d pd buffer size flags. added Kind.memory_region (pd ∷ buffer ∷ []) d;
  create_cq = λ d c depth. added Kind.completion_queue (c ∷ []) d;
  create_qp = λ d pd a. added Kind.queue_pair (pd ∷ a.send_cq ∷ a.recv_cq ∷ []) d;
  destroy_qp = λ d p. (taken_away Kind.queue_pair p d, 0);
  destroy_cq = λ d p. (taken_away Kind.completion_queue p d, 0);
  dereg_mr = λ d p. (taken_away Kind.memory_region p d, 0);
  free = λ d p. taken_away Kind.heap_block p d;
  dealloc_pd = λ d p. (taken_away Kind.protection_domain p d, 0);
  close_device = λ d p. (taken_away Kind.device_context p d, 0);
}

listed-total : (p : Ptr) (ps : List Ptr) → total ps < p → listed p ps ≡ false
listed-total p [] h = refl
listed-total p (q ∷ qs) h = ground (arith, listed-total p qs, h)

fresh-is_used : (p : Ptr) (os : List Object) → fresh os < suc p → is_used p os ≡ false
fresh-is_used p [] h = refl
fresh-is_used p (o ∷ os) h =
    rw (listed-total p o.needs (omega (arith, h)), fresh-is_used p os (omega (arith, h))) refl

fresh-is_taken : (p : Ptr) (os : List Object) → fresh os < suc p → is_taken p os ≡ false
fresh-is_taken p [] h = refl
fresh-is_taken p (o ∷ os) h = ground (arith, fresh-is_taken p os, h)

added-Creates :
    (k : Kind) (needs : List Ptr) (os : List Object)
    → Creates (λ (d : List Object). d) k needs os (added k needs os)
added-Creates k needs os = record {
  live_after = λ h. refl;
  unused = λ h. fresh-is_used _ os (omega arith);
  untaken = λ h. fresh-is_taken _ os (omega arith);
}

taken_away-without :
    (k : Kind) (p : Ptr) (os : List Object)
    → is_there k p os ≡ true
    → is_used p os ≡ false
    → taken_away k p os ≡ without k p os
taken_away-without k p os there h = rw (there, h) refl

abbrev store_laws : ObjectLaws store_names store
store_laws = record {
  live = λ d. d;
  get_device_list-live = λ d. refl;
  free_device_list-live = λ d list. refl;
  open_device-Creates = λ d device. added-Creates Kind.device_context [] d;
  query_port-live = λ d c. refl;
  query_gid-live = λ d c. refl;
  alloc_pd-Creates = λ d c. added-Creates Kind.protection_domain (c ∷ []) d;
  malloc-Creates = λ d size. added-Creates Kind.heap_block [] d;
  reg_mr-Creates = λ d pd buffer size flags. added-Creates Kind.memory_region (pd ∷ buffer ∷ []) d;
  create_cq-Creates = λ d c depth. added-Creates Kind.completion_queue (c ∷ []) d;
  create_qp-Creates = λ d pd a. added-Creates Kind.queue_pair (pd ∷ a.send_cq ∷ a.recv_cq ∷ []) d;
  destroy_qp-Releases = λ d p. taken_away-without Kind.queue_pair p d;
  destroy_cq-Releases = λ d p. taken_away-without Kind.completion_queue p d;
  dereg_mr-Releases = λ d p. taken_away-without Kind.memory_region p d;
  free-Releases = λ d p. taken_away-without Kind.heap_block p d;
  dealloc_pd-Releases = λ d p. taken_away-without Kind.protection_domain p d;
  close_device-Releases = λ d p. taken_away-without Kind.device_context p d;
}

-- A block of another owner.
abbrev others : List Object
others = record { kind = Kind.heap_block; at = 7; needs = [] } ∷ []

with_objects-Settles_example :
    Settles
      (MainFails store_names store (λ d r. done d) others 42)
      (λ d'. d' ≡ others)
      (with_objects store_names store (λ d r. done d) others 142)
with_objects-Settles_example =
    with_objects-Settles store_names store store_laws (λ d r. done d) others 142 42 (41 ∷ []) []
      (λ e. absurd (omega (arith, e))) refl (refl, tt) refl (λ e. absurd (omega (arith, e)))
      (λ d r. refl)

-- The library never fails, and `main` releases what it has created.
store_released : with_objects store_names store (λ d r. done d) others 142 ≡ done others
unfolding with_objects init_ibv_device open_picked pick_device create release successful non_null
store_released = refl
