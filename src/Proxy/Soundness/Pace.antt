-- ===== src/Proxy/Soundness/Pace.antt =====
-- Progress functions of csrc/proxy.cc that finish their operations after some calls.
use flash_reduce_dev.Common.{
  ℕ, suc, ◌+◌, ◌<◌, ◌≤◌, ◌≡◌, ◌⊎◌, ◌∙◌, refl, sym, ap, inl, inr, Bool, true, false, if◌then◌else◌,
  arith, Bool-cases, true≢false,
}
use flash_reduce_dev.Proxy.State.{Ptr, op_none, is_none, ProxyArgs}
use flash_reduce_dev.Proxy.Memory.{but_next}
use flash_reduce_dev.Proxy.Soundness.Worker.{worked}
use flash_reduce_dev.Proxy.Soundness.Weight.{cost}

-- A call on a good entry that is not finished finishes it, or leaves a good one that takes fewer
-- calls. Neither depends on the entry's place in the ring.
pub record Pace (progress : ℕ → ProxyArgs → ProxyArgs) : Type 0 where
  pub left : ProxyArgs → ℕ
  pub good : ProxyArgs → Bool
  pub left_same : (n m : ProxyArgs) → but_next n ≡ but_next m → left n ≡ left m
  pub good_same : (n m : ProxyArgs) → but_next n ≡ but_next m → good n ≡ good m
  pub closer :
      (f : ℕ) (n : ProxyArgs)
      → good n ≡ true
      → is_none n.state ≡ false
      → let m = progress f (record n { idle = false }) in
        (is_none m.state ≡ true) ⊎ ((good m ≡ true) × (left m < left n))

-- Progress functions that differ from one turn of the thread to the next, `progress k` being those
-- of the turn after which `k` are left: each call finishes a good entry or leaves a good one that
-- takes fewer calls, whatever turn it is made in.
pub record Paces (progress : ℕ → ℕ → ProxyArgs → ProxyArgs) : Type 0 where
  pub left : ProxyArgs → ℕ
  pub good : ProxyArgs → Bool
  pub left_same : (n m : ProxyArgs) → but_next n ≡ but_next m → left n ≡ left m
  pub good_same : (n m : ProxyArgs) → but_next n ≡ but_next m → good n ≡ good m
  pub closer :
      (k f : ℕ) (n : ProxyArgs)
      → good n ≡ true
      → is_none n.state ≡ false
      → let m = progress k f (record n { idle = false }) in
        (is_none m.state ≡ true) ⊎ ((good m ≡ true) × (left m < left n))

-- Those of one turn.
abbrev pub pace_at :
    {progress : ℕ → ℕ → ProxyArgs → ProxyArgs} → Paces progress → (k : ℕ) → Pace (progress k)
pace_at p k = record {
  left = p.left;
  good = p.good;
  left_same = p.left_same;
  good_same = p.good_same;
  closer = p.closer k;
}

-- Every entry that is not finished is good.
abbrev pub AreGood :
    {progress : ℕ → ℕ → ProxyArgs → ProxyArgs} → Paces progress → (Ptr → ProxyArgs) → Type 0
AreGood p node = (x : Ptr) → is_none (node x).state ≡ false → p.good (node x) ≡ true

cost_flag :
    (b b' : Bool) (l l' : ℕ)
    → b ≡ b'
    → l ≡ l'
    → (if b then 0 else suc l) ≡ (if b' then 0 else suc l')
cost_flag b b' l l' e e' = rw (e, e') refl

-- Progress functions that finish at their first call.
abbrev pub at_once :
    {progress : ℕ → ProxyArgs → ProxyArgs}
    → ((f : ℕ) (n : ProxyArgs) → (progress f n).state ≡ op_none)
    → Pace progress
at_once finishes = record {
  left = λ n. 0;
  good = λ n. true;
  left_same = λ n m e. refl;
  good_same = λ n m e. refl;
  closer = λ f n good busy. inl (ap is_none (finishes f (record n { idle = false })));
}

abbrev pub always_at_once :
    {progress : ℕ → ℕ → ProxyArgs → ProxyArgs}
    → ((k f : ℕ) (n : ProxyArgs) → (progress k f n).state ≡ op_none)
    → Paces progress
always_at_once finishes = record {
  left = λ n. 0;
  good = λ n. true;
  left_same = λ n m e. refl;
  good_same = λ n m e. refl;
  closer = λ k f n good busy. inl (ap is_none (finishes k f (record n { idle = false })));
}

finished_cost : (b : Bool) (l k : ℕ) → b ≡ true → (if b then 0 else suc l) ≤ k
finished_cost b l k e = rw e (omega arith)

cheaper_cost :
    (b b' : Bool) (l l' : ℕ)
    → b ≡ false
    → (b' ≡ true) ⊎ (l' < l)
    → (if b' then 0 else suc l') + 1 ≤ (if b then 0 else suc l)
cheaper_cost b b' l l' busy (inl e) = rw (busy, e) (omega arith)
cheaper_cost b true l l' busy (inr less) = rw busy (omega arith)
cheaper_cost b false l l' busy (inr less) = rw busy (omega (arith, less))

module _ {progress : ℕ → ProxyArgs → ProxyArgs} (p : Pace progress) where
  -- Every entry that is not finished is good.
  abbrev pub AllGood : (Ptr → ProxyArgs) → Type 0
  AllGood node = (x : Ptr) → is_none (node x).state ≡ false → p.good (node x) ≡ true

  pub cost_same : (n m : ProxyArgs) → but_next n ≡ but_next m → cost p.left n ≡ cost p.left m
  cost_same n m e =
      cost_flag (is_none n.state) (is_none m.state) (p.left n) (p.left m)
        (ap (λ (k : ProxyArgs). is_none k.state) e) (p.left_same n m e)

  pub AllGood-same :
      (node node' : Ptr → ProxyArgs)
      → ((x : Ptr) → but_next (node' x) ≡ but_next (node x))
      → AllGood node
      → AllGood node'
  AllGood-same node node' same good x busy =
      p.good_same (node' x) (node x) (same x)
      ∙ good x (sym (ap (λ (k : ProxyArgs). is_none k.state) (same x)) ∙ busy)

  -- What the thread's call leaves of an entry: a finished one is finished, and any other is
  -- cheaper.
  pub record Called (n m : ProxyArgs) : Type 0 where
    pub done : is_none n.state ≡ true → is_none m.state ≡ true
    pub dear : cost p.left m ≤ cost p.left n
    pub cheaper : is_none n.state ≡ false → cost p.left m + 1 ≤ cost p.left n
    pub fine : is_none m.state ≡ false → p.good m ≡ true

  pub worked-Called :
      (n : ProxyArgs) → (is_none n.state ≡ false → p.good n ≡ true) → Called n (worked progress n)
  unfolding worked
  worked-Called n good = elim (Bool-cases (is_none n.state)) [
    | inl done ↦ rw done (record {
      done = λ h. done;
      dear = finished_cost (is_none n.state) _ _ done;
      cheaper = λ h. absurd (true≢false (sym done ∙ h));
      fine = λ h. absurd (true≢false (sym done ∙ h));
    })
    | inr busy ↦
        let c = p.closer n.progress n (good busy) busy in
        let m = progress n.progress (record n { idle = false }) in
        let less =
          cheaper_cost (is_none n.state) (is_none m.state) (p.left n) (p.left m) busy
            (elim c [ inl e ↦ inl e | inr e ↦ inr e.1 ]) in
        rw busy (record {
          done = λ h. absurd (true≢false (sym h ∙ busy));
          dear = omega (arith, less);
          cheaper = λ h. less;
          fine = λ h. elim c [ inl e ↦ absurd (true≢false (sym e ∙ h)) | inr e ↦ e.0 ];
        })
  ]
