-- ===== src/Benchmark/Released.antt =====
-- The objects of `main` of examples/proxy_send_recv.cc, from the first to the last line.
use flash_reduce_dev.Common.{
  ℕ, ◌≡◌, ◌≢◌, ◌∙◌, ap, sym, inl, inr, true, List, [], ◌∷◌, ◌++◌, ◌==◌, Outcome, arith, All, ne→==,
  Bool-cases, ==→eq, is_zero, ◌⊎◌, refl, check_failed, ◌>>=◌,
}
use flash_reduce_dev.Proxy.State.{Ptr, null}
use flash_reduce_dev.Rdma.QueuePair.{Gid}
use flash_reduce_dev.Rdma.Device.{Verbs, init_ibv_device, open_picked, Unlike, pick_device-first}
use flash_reduce_dev.Benchmark.Setup.{init_attributes, buffer_size}
use flash_reduce_dev.Benchmark.Objects.{
  Objects, Resources, create, release, with_objects, access, completion_queue_depth,
}
use flash_reduce_dev.Benchmark.Live.{Kind, Object, ObjectLaws}
use flash_reduce_dev.Benchmark.Stacked.{
  IsNew, is_set, pop, Settles, Settles-then, Settles-failed, successful-then, non_null-then,
  Creates-live, Creates-IsNew,
}

-- What `create` makes of the state `d` when no call fails.
module _ {V : Type 0} (v : Objects V) (d : V) (context : Ptr) where
  abbrev ported : V × ℕ × ℕ
  ported = v.query_port d context

  abbrev known : V × ℕ × Gid
  known = v.query_gid ported.0 context

  abbrev owned : V × Ptr
  owned = v.alloc_pd known.0 context

  abbrev given : V × Ptr
  given = v.malloc owned.0 buffer_size

  abbrev registered : V × Ptr
  registered = v.reg_mr given.0 owned.1 given.1 buffer_size access

  abbrev queued : V × Ptr
  queued = v.create_cq registered.0 context completion_queue_depth

  abbrev paired : V × Ptr
  paired = v.create_qp queued.0 owned.1 (init_attributes queued.1)

  abbrev made : Resources
  made = record {
    context = context;
    lid = ported.2;
    gid = known.2;
    pd = owned.1;
    buffer = given.1;
    mr = registered.1;
    cq = queued.1;
    qp = paired.1;
  }

  -- One of these calls fails.
  abbrev pub CreateFails : Type 0
  CreateFails =
      (ported.1 ≢ 0)
      ⊎ (known.1 ≢ 0)
      ⊎ (owned.1 ≡ null)
      ⊎ (given.1 ≡ null)
      ⊎ (registered.1 ≡ null)
      ⊎ (queued.1 ≡ null)
      ⊎ (paired.1 ≡ null)

-- The opening of the device `dev`, one of these calls, or what `main` does behind them fails.
abbrev pub MainFails :
    {V : Type 0} (names : Verbs V) (v : Objects V) (between : V → Resources → Outcome V)
    → V
    → (dev : ℕ) → Type 0
MainFails names v between d dev =
    let found = names.get_device_list d in
    let opened = names.open_device found.0 dev in
    let freed = names.free_device_list opened.0 found.1 in
    (opened.1 ≡ null)
    ⊎ CreateFails v freed opened.1
    ⊎ (between (paired v freed opened.1).0 (made v freed opened.1) ≡ check_failed)

module _ {V : Type 0} (names : Verbs V) (v : Objects V) (l : ObjectLaws names v) where
  abbrev context_on : Ptr → List Object → List Object
  context_on c os = record { kind = Kind.device_context; at = c; needs = [] } ∷ os

  abbrev pd_on : Resources → List Object → List Object
  pd_on r os =
      record { kind = Kind.protection_domain; at = r.pd; needs = r.context ∷ [] }
      ∷ context_on r.context os

  abbrev buffer_on : Resources → List Object → List Object
  buffer_on r os = record { kind = Kind.heap_block; at = r.buffer; needs = [] } ∷ pd_on r os

  abbrev mr_on : Resources → List Object → List Object
  mr_on r os =
      record { kind = Kind.memory_region; at = r.mr; needs = r.pd ∷ r.buffer ∷ [] } ∷ buffer_on r os

  abbrev cq_on : Resources → List Object → List Object
  cq_on r os =
      record { kind = Kind.completion_queue; at = r.cq; needs = r.context ∷ [] } ∷ mr_on r os

  -- The six objects, each new on those that were created before it.
  record Built (os : List Object) (d : V) (r : Resources) : Type 0 where
    context : IsNew (record { kind = Kind.device_context; at = r.context; needs = [] }) os
    pd :
        IsNew
          (record { kind = Kind.protection_domain; at = r.pd; needs = r.context ∷ [] })
          (context_on r.context os)
    buffer : IsNew (record { kind = Kind.heap_block; at = r.buffer; needs = [] }) (pd_on r os)
    mr :
        IsNew
          (record { kind = Kind.memory_region; at = r.mr; needs = r.pd ∷ r.buffer ∷ [] })
          (buffer_on r os)
    cq :
        IsNew
          (record { kind = Kind.completion_queue; at = r.cq; needs = r.context ∷ [] })
          (mr_on r os)
    qp :
        IsNew
          (record { kind = Kind.queue_pair; at = r.qp; needs = r.pd ∷ r.cq ∷ r.cq ∷ [] })
          (cq_on r os)
    all :
        l.live d
        ≡ record { kind = Kind.queue_pair; at = r.qp; needs = r.pd ∷ r.cq ∷ r.cq ∷ [] } ∷ cq_on r os

  release-live :
      (os : List Object) (d : V) (r : Resources) → Built os d r → l.live (release names v d r) ≡ os
  unfolding release
  release-live os d r b =
      let e = pop l.live Kind.queue_pair r.qp _ _ d _ b.qp b.all (l.destroy_qp-Releases d r.qp) in
      let e = pop l.live Kind.completion_queue r.cq _ _ _ _ b.cq e (l.destroy_cq-Releases _ r.cq) in
      let e = pop l.live Kind.memory_region r.mr _ _ _ _ b.mr e (l.dereg_mr-Releases _ r.mr) in
      let e = pop l.live Kind.heap_block r.buffer _ _ _ _ b.buffer e (l.free-Releases _ r.buffer) in
      let e =
        pop l.live Kind.protection_domain r.pd _ _ _ _ b.pd e (l.dealloc_pd-Releases _ r.pd) in
      pop l.live Kind.device_context r.context _ _ _ _ b.context e
        (l.close_device-Releases _ r.context)

  create-Built :
      (os : List Object) (d : V) (c : Ptr)
      → l.live d ≡ context_on c os
      → IsNew (record { kind = Kind.device_context; at = c; needs = [] }) os
      → Settles
          (CreateFails v d c)
          (λ p. (p ≡ ((paired v d c).0, made v d c)) × Built os p.0 p.1)
          (create names v d c)
  unfolding create
  create-Built os d c e new =
      let os1 = context_on c os in
      let r = made v d c in
      let e1 = l.query_gid-live (ported v d c).0 c ∙ l.query_port-live d c ∙ e in
      let c1 = l.alloc_pd-Creates (known v d c).0 c in
      let c2 = l.malloc-Creates (owned v d c).0 buffer_size in
      let c3 = l.reg_mr-Creates (given v d c).0 r.pd r.buffer buffer_size access in
      let c4 = l.create_cq-Creates (registered v d c).0 c completion_queue_depth in
      let c5 = l.create_qp-Creates (queued v d c).0 r.pd (init_attributes r.cq) in
      successful-then _ _ (ported v d c) _ inl (
        successful-then _ _ (known v d c) _ (λ f. inr (inl f))
          (non_null-then _ _ (owned v d c) _ (λ f. inr (inr (inl f)))
            λ set1.
              non_null-then _ _ (given v d c) _ (λ f. inr (inr (inr (inl f))))
                λ set2.
                  non_null-then _ _ (registered v d c) _ (λ f. inr (inr (inr (inr (inl f)))))
                    λ set3.
                      non_null-then _ _ (queued v d c) _ (λ f. inr (inr (inr (inr (inr (inl f))))))
                        λ set4.
                          non_null-then _ _ (paired v d c) _
                            (λ f. inr (inr (inr (inr (inr (inr f))))))
                            λ set5.
                              let e2 = Creates-live l.live _ _ _ _ _ e1 c1 set1 in
                              let e3 = Creates-live l.live _ _ _ _ _ e2 c2 set2 in
                              let e4 = Creates-live l.live _ _ _ _ _ e3 c3 set3 in
                              let e5 = Creates-live l.live _ _ _ _ _ e4 c4 set4 in
                              (
                                refl,
                                record {
                                  context = new;
                                  pd = Creates-IsNew l.live _ _ _ _ _ e1 c1 set1 (ground arith, tt);
                                  buffer = Creates-IsNew l.live _ _ _ _ _ e2 c2 set2 tt;
                                  mr =
                                      Creates-IsNew l.live _ _ _ _ _ e3 c3 set3
                                        (ground arith, (ground arith, tt));
                                  cq = Creates-IsNew l.live _ _ _ _ _ e4 c4 set4 (ground arith, tt);
                                  qp =
                                      Creates-IsNew l.live _ _ _ _ _ e5 c5 set5
                                        (ground arith, (ground arith, (ground arith, tt)));
                                  all = Creates-live l.live _ _ _ _ _ e5 c5 set5;
                                },
                              )))

  open_picked-then :
      (F : Type 0) (Q : V → Type 0) (d : V) (list device : ℕ) (f : V × ℕ × Ptr → Outcome V)
      → device ≢ 0
      → ((names.open_device d device).1 ≡ null → F)
      → ((names.open_device d device).1 ≢ null
          → Settles F Q (
              f (
                names.free_device_list (names.open_device d device).0 list,
                device,
                (names.open_device d device).1,
              )))
      → Settles F Q (open_picked names d list device >>= f)
  unfolding open_picked
  open_picked-then F Q d list device f real fails next =
      rw (ne→== device 0 real) (elim (Bool-cases ((names.open_device d device).1 == 0)) [
        | inl hit ↦ rw hit (fails (==→eq _ 0 hit))
        | inr miss ↦ rw miss (next (is_set _ miss))
      ])

  -- `main`, on a list of devices of which one has the name, leaves the live objects as they were,
  -- when what it does in between does so or fails a check: the context, the domain, the buffer, the
  -- region, the completion queue and the queue pair that it creates are each released while they
  -- are live, none while another is built on it, and none a second time, of which nothing would be
  -- known. It ends in a failed check instead only if the opening of the device, one of the queries
  -- and creations, or what it does in between has failed in this run.
  pub with_objects-Settles :
      (between : V → Resources → Outcome V) (d : V) (name dev : ℕ) (front back : List ℕ)
      → (names.get_device_list d).1 ≢ 0
      → (names.get_device_list d).2 ≡ front ++ dev ∷ back
      → All (Unlike names name) front
      → is_zero (names.strcmp (names.get_device_name dev) name) ≡ true
      → dev ≢ 0
      → ((d' : V) (r : Resources) → Settles Unit (λ d''. l.live d'' ≡ l.live d') (between d' r))
      → Settles
          (MainFails names v between d dev)
          (λ d'. l.live d' ≡ l.live d)
          (with_objects names v between d name)
  unfolding with_objects init_ibv_device
  with_objects-Settles between d name dev front back some_list on_list unlike like real keeps =
      let found = names.get_device_list d in
      let opened = names.open_device found.0 dev in
      let freed = names.free_device_list opened.0 found.1 in
      let creates = l.open_device-Creates found.0 dev in
      let same = l.get_device_list-live d in
      let F = MainFails names v between d dev in
      rw
        (
          ne→== (names.get_device_list d).1 0 some_list,
          on_list,
          pick_device-first names 0 front dev back name unlike like,
        )
        (open_picked-then F _ found.0 found.1 dev _ real inl λ set.
          Settles-then (CreateFails v freed opened.1) F _ _ (create names v freed opened.1) _
            (create-Built (l.live d) freed opened.1
              (l.free_device_list-live opened.0 found.1
                ∙ Creates-live l.live _ _ _ _ _ same creates set)
              (Creates-IsNew l.live _ _ _ _ _ same creates set tt))
            (λ f. inr (inl f))
            λ created (e, built).
              Settles-then (between created.0 created.1 ≡ check_failed) F _ _
                (between created.0 created.1) _
                (Settles-failed (λ d2. l.live d2 ≡ l.live created.0) (between created.0 created.1)
                  (keeps created.0 created.1))
                (λ f. inr (inr (ap (λ p. between p.0 p.1) (sym e) ∙ f)))
                λ d' same'. release-live (l.live d) d' created.1 (record {
                  context = built.context;
                  pd = built.pd;
                  buffer = built.buffer;
                  mr = built.mr;
                  cq = built.cq;
                  qp = built.qp;
                  all = same' ∙ built.all;
                }))
