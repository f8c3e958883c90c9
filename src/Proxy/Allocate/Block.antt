-- ===== src/Proxy/Allocate/Block.antt =====
-- A new block of entries, linked in order.
use flash_reduce_dev.Common.{
  ℕ, zero, suc, ◌+◌, ◌<◌, ◌≤◌, ◌≡◌, ◌∙◌, refl, ap, sym, ==→eq, inl, inr, true, false, List, [], ◌∷◌,
  ◌==◌, if◌then◌else◌, ltb, count, arith, Bool-cases, not, ◌&&◌, zero_or_pos, ne→==, Bool,
}
use flash_reduce_dev.Proxy.State.{Ptr, ProxyArgs, update}
use flash_reduce_dev.Proxy.Queue.{allocate_size, link_elems}

-- The addresses from `b` on, `n` of them.
unfoldable pub block : Ptr → ℕ → List Ptr
block b zero = []
block b (suc n) = b ∷ block (b + 1) n

pub block-range : (x b n : ℕ) → 0 < count x (block b n) → (b ≤ x) × (x < b + n)
unfolding block
block-range x b zero h = absurd (omega arith)
block-range x b (suc n) h = elim (Bool-cases (b == x)) [
  | inl hit ↦ ground (arith, hit)
  | inr miss ↦
      let (lo, hi) = block-range x (b + 1) n (ground (arith, miss)) in (omega arith, omega arith)
]

pub count-block-le : (x b n : ℕ) → count x (block b n) ≤ 1
unfolding block
count-block-le x b zero = omega arith
count-block-le x b (suc n) = elim (zero_or_pos (count x (block (b + 1) n))) [
  | inl none_left ↦ ground (arith, none_left)
  | inr more ↦
      let (lo, hi) = block-range x (b + 1) n more in
      rw (ne→== b x (λ e. absurd (omega arith))) (omega (arith, count-block-le x (b + 1) n))
]

pub count-block_first :
    (x b n : ℕ) → count x (block b (suc n)) ≡ count x (b ∷ []) + count x (block (b + 1) n)
unfolding block
count-block_first x b n = omega arith

-- The entries that the loop links from round `i` on.
abbrev pub touched : (base i : ℕ) → Ptr → Bool
touched base i a = not (ltb a (base + i)) && ltb (a + 1) (base + allocate_size)

abbrev pub set_link : (ProxyArgs → Ptr → ProxyArgs)
set_link n q = record n { next = q }

touched-later : (base i a : ℕ) → (a == base + i) ≡ true → touched base (i + 1) a ≡ false
touched-later base i a h = ground (arith, h)

touched-now : (base i a : ℕ) → (a == base + i) ≡ true → touched base i a ≡ ltb (i + 1) allocate_size
touched-now base i a h = ground (arith, h)

touched-other : (base i a : ℕ) → (a == base + i) ≡ false → touched base (i + 1) a ≡ touched base i a
touched-other base i a h = ground (arith, h)

-- What one round adds.
module _ (base i : ℕ) (node : Ptr → ProxyArgs) (a : Ptr) where
  abbrev linked_once : Ptr → ProxyArgs
  linked_once =
      if ltb (i + 1) allocate_size
      then update node (base + i) (record (node (base + i)) { next = base + i + 1 })
      else node

  link_step :
      (if touched base (i + 1) a then set_link (linked_once a) (a + 1) else linked_once a)
      ≡ (if touched base i a then set_link (node a) (a + 1) else node a)
  link_step = elim (Bool-cases (a == base + i)) [
    | inl hit ↦
        rw (touched-later base i a hit, touched-now base i a hit)
          (elim (Bool-cases (ltb (i + 1) allocate_size)) [
            | inl more ↦
                rw (more, hit)
                  (ap (λ (x : Ptr). set_link (node x) (x + 1)) (sym (==→eq a (base + i) hit)))
            | inr end ↦ rw end refl
          ])
    | inr miss ↦ rw (touched-other base i a miss) (elim (Bool-cases (ltb (i + 1) allocate_size)) [
      | inl more ↦ rw (more, miss) refl
      | inr end ↦ rw end refl
    ])
  ]

pub link_elems_lem :
    (base i k : ℕ) (node : Ptr → ProxyArgs) (a : Ptr)
    → i + k ≡ allocate_size
    → link_elems base i k node a ≡ (if touched base i a then set_link (node a) (a + 1) else node a)
unfolding link_elems
link_elems_lem base i zero node a e = rw (untouched) refl
  where
    untouched : touched base i a ≡ false
    untouched = ground arith
link_elems_lem base i (suc k) node a e =
    link_elems_lem base (i + 1) k _ a (omega arith) ∙ link_step base i node a
