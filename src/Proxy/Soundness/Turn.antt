-- ===== src/Proxy/Soundness/Turn.antt =====
-- The ring read from any of its operations.
use flash_reduce_dev.Common.{
  ℕ, ◌+◌, ◌<◌, ◌≡◌, refl, subst, sym, ap, inl, inr, List, [], ◌∷◌, ◌++◌, ◌==◌, count, length,
  length-append, arith, Bool-cases, ==→eq,
}
use flash_reduce_dev.Proxy.State.{Ptr, Proxy}
use flash_reduce_dev.Proxy.Channels.{Chan, jobs, heads, members}
use flash_reduce_dev.Proxy.Invariant.{IsRing}
use flash_reduce_dev.Proxy.Rotate.{rotate, rotate-IsRing, count-members-append}

append_assoc : (xs ys zs : List Chan) → (xs ++ ys) ++ zs ≡ xs ++ (ys ++ zs)
append_assoc [] ys zs = refl
append_assoc (x ∷ xs) ys zs = ap (λ (l : List Chan). x ∷ l) (append_assoc xs ys zs)

append-nil : (xs : List Chan) → xs ++ [] ≡ xs
append-nil [] = refl
append-nil (x ∷ xs) = ap (λ (l : List Chan). x ∷ l) (append-nil xs)

length-members-append :
    (r q : List Chan) → length (members (r ++ q)) ≡ length (members r) + length (members q)
length-members-append [] q = omega arith
length-members-append (c ∷ r) q = omega (
  arith,
  length-append (jobs c) (members r),
  length-append (jobs c) (members (r ++ q)),
  length-members-append r q,
)

-- The sum of `g` over a list.
abbrev pub total : (g : Ptr → ℕ) → List Ptr → ℕ
total g [] = 0
total g (x ∷ xs) = g x + total g xs

total-append : (g : Ptr → ℕ) (xs ys : List Ptr) → total g (xs ++ ys) ≡ total g xs + total g ys
total-append g [] ys = omega arith
total-append g (x ∷ xs) ys = omega (arith, total-append g xs ys)

total-members-append :
    (g : Ptr → ℕ) (r q : List Chan)
    → total g (members (r ++ q)) ≡ total g (members r) + total g (members q)
total-members-append g [] q = omega arith
total-members-append g (c ∷ r) q = omega (
  arith,
  total-append g (jobs c) (members r),
  total-append g (jobs c) (members (r ++ q)),
  total-members-append g r q,
)

module _ (s : Proxy) (free : List Ptr) where
  turn-IsRing : (r q : List Chan) → IsRing s (r ++ q) free → IsRing s (q ++ r) free
  unfolding rotate
  turn-IsRing [] q v = subst (λ l. IsRing s l free) (sym (append-nil q)) v
  turn-IsRing (c ∷ r) q v =
      subst (λ l. IsRing s l free) (append_assoc q (c ∷ []) r)
        (turn-IsRing r (q ++ c ∷ []) (
          subst (λ l. IsRing s l free) (append_assoc r q (c ∷ []))
            (rotate-IsRing s c (r ++ q) free v)))

-- The ring `c ∷ cs` holds the channels of `r`, and its first operation is `p`.
pub record TurnedTo (s : Proxy) (r : List Chan) (free : List Ptr) (p : Ptr) : Type 0 where
  pub head_chan : Chan
  pub others : List Chan
  pub at : p ≡ head_chan.head
  pub ring : IsRing s (head_chan ∷ others) free
  pub same : (x : Ptr) → count x (members (head_chan ∷ others)) ≡ count x (members r)
  pub size : length (members (head_chan ∷ others)) ≡ length (members r)
  pub totals : (g : Ptr → ℕ) → total g (members (head_chan ∷ others)) ≡ total g (members r)

record SplitAt (r : List Chan) (p : Ptr) : Type 0 where
  before : List Chan
  chan_at : Chan
  behind : List Chan
  at : p ≡ chan_at.head
  whole : r ≡ before ++ chan_at ∷ behind

split_at : (r : List Chan) (p : Ptr) → 0 < count p (heads r) → SplitAt r p
split_at [] p h = absurd (omega arith)
split_at (c ∷ cs) p h = elim (Bool-cases (c.head == p)) [
  | inl hit ↦ record {
    before = [];
    chan_at = c;
    behind = cs;
    at = sym (==→eq c.head p hit);
    whole = refl;
  }
  | inr miss ↦
      let q = split_at cs p (ground (arith, miss)) in
      record {
        before = c ∷ q.before;
        chan_at = q.chan_at;
        behind = q.behind;
        at = q.at;
        whole = ap (λ (l : List Chan). c ∷ l) q.whole;
      }
]

pub turn_to :
    (s : Proxy) (r : List Chan) (free : List Ptr) (p : Ptr)
    → 0 < count p (heads r)
    → IsRing s r free
    → TurnedTo s r free p
turn_to s r free p h v =
    let q = split_at r p h in
    record {
      head_chan = q.chan_at;
      others = q.behind ++ q.before;
      at = q.at;
      ring =
          turn-IsRing s free q.before (q.chan_at ∷ q.behind)
            (subst (λ l. IsRing s l free) q.whole v);
      same = λ x. omega (
        arith,
        ap (λ l. count x (members l)) q.whole,
        count-members-append x q.before (q.chan_at ∷ q.behind),
        count-members-append x (q.chan_at ∷ q.behind) q.before,
      );
      size = omega (
        arith,
        ap (λ l. length (members l)) q.whole,
        length-members-append q.before (q.chan_at ∷ q.behind),
        length-members-append (q.chan_at ∷ q.behind) q.before,
      );
      totals = λ g. omega (
        arith,
        ap (λ l. total g (members l)) q.whole,
        total-members-append g q.before (q.chan_at ∷ q.behind),
        total-members-append g (q.chan_at ∷ q.behind) q.before,
      );
    }
