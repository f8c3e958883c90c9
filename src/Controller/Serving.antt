-- ===== src/Controller/Serving.antt =====
-- One step of a call of `Broadcast` of controller/controller.py.
use flash_reduce_dev.Common.{
  ℕ, ◌+◌, ◌<◌, ◌≡◌, ◌∙◌, refl, sym, ap, subst, inl, inr, Bool, true, false, Bool-cases, ◌==◌, none,
  some, List, [], ◌∷◌, All, get_elem?, set, replicate, length-set, length-replicate,
  get_elem?-replicate, get_elem?-set, arith, eq→==, ==→eq, ==→ne,
}
use flash_reduce_dev.Messages.BroadcastCall.{BroadcastRequest}
use flash_reduce_dev.Controller.Barrier.{put}
use flash_reduce_dev.Controller.Broadcast.{
  Operation, Stage, mark, give, await, handle, broadcast_turn, read_value,
}
use flash_reduce_dev.Controller.Round.{
  IsComplete, all_true-false, clean_up-IsComplete, Fits, IsGoing, Going, Fits-put, Fits-marked,
  Fits-given, room, flag_up, value_there,
}

module _ (root v : ℕ) where
  module _ (n e : ℕ) (f : ℕ → Bool) (stages : ℕ → Stage) (r : ℕ) (r_in : r < n) where
    mark-Going :
        (o : Operation)
        → IsGoing root v n o f stages
        → o.value ≡ some v
        → f o.event ≡ true
        → (let (stage, b) = mark r 0 (record { operations = o ∷ []; next_event = e; is_set = f }) in
            Going root v n b (put stages r stage))
    mark-Going o g has set_up = rw (room root v n f stages o g r r_in) (record {
      o = record o { bitmap = set o.bitmap r true };
      alone = refl;
      going = record {
        size = length-set o.bitmap r true ∙ g.size;
        given = inr (has, set_up);
        fits =
            Fits-put root v o (record o { bitmap = set o.bitmap r true }) n stages r
              (Stage.reading 0) g.fits (Fits-marked root v o r)
              (refl, has, get_elem?-set o.bitmap r true (omega (arith, g.size, r_in)));
      };
    })

  module _ {U : Type 0} (n e : ℕ) (f : ℕ → Bool) (stages : ℕ → Stage) (q : BroadcastRequest U)
      (r_in : q.rank < n) (agreed : q.root ≡ root) (says : q.rank ≡ root → q.value ≡ v) where
    put_self : (x : ℕ) → put f x true x ≡ true
    put_self x = rw (eq→== x x refl) refl

    stay :
        (o : Operation)
        → IsGoing root v n o f stages
        → (stage : Stage) → Fits root v o q.rank stage
        → Going root v n
            (record { operations = o ∷ []; next_event = e; is_set = f })
            (put stages q.rank stage)
    stay o g stage fit = record {
      o = o;
      alone = refl;
      going = record {
        size = g.size;
        given = g.given;
        fits = Fits-put root v o o n stages q.rank stage g.fits (λ k s h x. x) fit;
      };
    }

    handle-Going :
        (o : Operation)
        → IsGoing root v n o f stages
        → get_elem? o.bitmap q.rank ≡ some false
        → (let (stage, b) =
              handle q 0 (record { operations = o ∷ []; next_event = e; is_set = f }) (some o) in
            Going root v n b (put stages q.rank stage))
    handle-Going o g mine = elim (Bool-cases (q.rank == q.root)) [
      | inl top ↦ rw top (
          subst
            (λ x.
              let (stage, b) =
                mark q.rank 0
                  (give x 0 o (record { operations = o ∷ []; next_event = e; is_set = f })) in
              Going root v n b (put stages q.rank stage))
            (sym (says (==→eq q.rank q.root top ∙ agreed)))
            (mark-Going n e (put f o.event true) stages q.rank r_in (record o { value = some v })
              (record {
                size = g.size;
                given = inr (refl, put_self o.event);
                fits = λ k l. Fits-given root v o k (stages k) (g.fits k l);
              })
              refl (put_self o.event)))
      | inr low ↦ rw low (elim g.given [
        | inl no_value ↦
            subst
              (λ x.
                let (stage, b) =
                  await q.rank 0 o (record { operations = o ∷ []; next_event = e; is_set = f }) x in
                Going root v n b (put stages q.rank stage))
              (sym no_value.0)
              (stay o g (Stage.waiting o.event 0)
                (refl, refl, (λ h. ==→ne q.rank q.root low (h ∙ sym agreed)), mine))
        | inr has ↦
            subst
              (λ x.
                let (stage, b) =
                  await q.rank 0 o (record { operations = o ∷ []; next_event = e; is_set = f }) x in
                Going root v n b (put stages q.rank stage))
              (sym has.0) (mark-Going n e f stages q.rank r_in o g has.0 has.1)
      ])
    ]

    -- One step of the call of a rank while the operation goes on.
    pub turn-Going :
        (o : Operation) (stage : Stage)
        → IsGoing root v n o f stages
        → Fits root v o q.rank stage
        → (let (stage', b) =
              broadcast_turn q (record { operations = o ∷ []; next_event = e; is_set = f }) stage in
            Going root v n b (put stages q.rank stage'))
    unfolding broadcast_turn
    turn-Going o Stage.calling g fit =
        rw (all_true-false o.bitmap q.rank fit) (rw fit (handle-Going o g fit))
    turn-Going o (Stage.waiting event idx) g fit = elim (Bool-cases (f event)) [
      | inl up ↦ rw up (
          stay o g (Stage.marking idx)
            (fit.1, value_there root v n f stages o g (ap f (sym fit.0) ∙ up), fit.3))
      | inr down ↦ rw down (stay o g (Stage.waiting event idx) fit)
    ]
    turn-Going o (Stage.marking idx) g fit =
        subst
          (λ i.
            let (stage', b) =
              mark q.rank i (record { operations = o ∷ []; next_event = e; is_set = f }) in
            Going root v n b (put stages q.rank stage'))
          (sym fit.0)
          (mark-Going n e f stages q.rank r_in o g fit.1 (flag_up root v n f stages o g fit.1))
    turn-Going o (Stage.reading idx) g fit =
        subst
          (λ i.
            Going root v n (record { operations = o ∷ []; next_event = e; is_set = f })
              (put stages q.rank (read_value (get_elem? (o ∷ []) i))))
          (sym fit.0) (stay o g (Stage.returned o.value) (fit.1, fit.1, fit.2))
    turn-Going o (Stage.returned value) g fit = stay o g (Stage.returned value) fit
    turn-Going o Stage.index_error g fit = absurd fit

  -- The first call, which finds nothing or completed operations only.
  pub turn-opened :
      {U : Type 0} (n e : ℕ) (f : ℕ → Bool) (stages : ℕ → Stage) (q : BroadcastRequest U)
      → q.rank < n
      → q.root ≡ root
      → (q.rank ≡ root → q.value ≡ v)
      → (ops : List Operation) → All IsComplete ops
      → q.num_workers ≡ n
      → ((k : ℕ) → k < n → stages k ≡ Stage.calling)
      → (let (stage', b) =
            broadcast_turn q
              (record { operations = ops; next_event = e; is_set = f })
              Stage.calling in
          Going root v n b (put stages q.rank stage'))
  unfolding broadcast_turn
  turn-opened n e f stages q r_in agreed says ops all asked fresh =
      rw (clean_up-IsComplete ops all) (
        handle-Going n (e + 1) (put f e false) stages q r_in agreed says o
          (record {
            size = length-replicate q.num_workers false ∙ asked;
            given = inl (refl, rw (eq→== e e refl) refl);
            fits = λ k l. subst (Fits root v o k) (sym (fresh k l)) (bits k l);
          })
          (bits q.rank r_in))
    where
      o : Operation
      o = record { bitmap = replicate q.num_workers false; value = none; event = e }

      bits : (k : ℕ) → k < n → get_elem? o.bitmap k ≡ some false
      bits k l = get_elem?-replicate q.num_workers k false (omega (arith, l, asked))
