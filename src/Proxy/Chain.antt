-- ===== src/Proxy/Chain.antt =====
-- Chains of entries of csrc/proxy.cc, through `next` or `nextPeer`, as lists of pointers.
use flash_reduce_dev.Common.{
  ◌+◌, ◌<◌, ◌≡◌, ◌≢◌, refl, inl, inr, true, List, [], ◌∷◌, ◌++◌, ◌==◌, if◌then◌else◌, count, arith,
  Bool-cases, ◌∙◌,
}
use flash_reduce_dev.Proxy.State.{Ptr}

abbrev pub first : Ptr → List Ptr → Ptr
first z [] = z
first z (x ∷ xs) = x

abbrev pub last : Ptr → List Ptr → Ptr
last x [] = x
last x (y ∷ ys) = last y ys

-- From each entry of the list `f` leads to the following one, and from the last to `z`.
abbrev pub Linked : (Ptr → Ptr) → Ptr → List Ptr → Type 0
Linked f z [] = Unit
Linked f z (x ∷ xs) = (f x ≡ first z xs) × Linked f z xs

-- `g` is `f` but perhaps at `p`.
abbrev pub SameBut : Ptr → (Ptr → Ptr) → (Ptr → Ptr) → Type 0
SameBut p f g = (a : Ptr) → a ≢ p → g a ≡ f a

-- An entry of a list differs from what does not occur in it.
pub ne_of_count : (a b : Ptr) (xs : List Ptr) → 0 < count a xs → count b xs ≡ 0 → a ≢ b
ne_of_count a b xs h k e = absurd (ground arith)

pub ne_of_no_head : (a x : Ptr) (xs : List Ptr) → count a (x ∷ xs) ≡ 0 → a ≢ x
ne_of_no_head a x xs h e = absurd (ground arith)

pub Linked-frame :
    (xs : List Ptr) (f g : Ptr → Ptr) (z : Ptr)
    → ((a : Ptr) → 0 < count a xs → g a ≡ f a)
    → Linked f z xs
    → Linked g z xs
Linked-frame [] f g z same l = tt
Linked-frame (x ∷ xs) f g z same l =
    (ground (arith, same x), Linked-frame xs f g z (λ a h. same a (omega arith)) l.1)

pub Linked-SameBut :
    (xs : List Ptr) (f g : Ptr → Ptr) (p z : Ptr)
    → SameBut p f g
    → count p xs ≡ 0
    → Linked f z xs
    → Linked g z xs
Linked-SameBut xs f g p z same out l =
    Linked-frame xs f g z (λ a h. same a (ne_of_count a p xs h out)) l

pub Linked-append :
    (xs ys : List Ptr) (f : Ptr → Ptr) (z : Ptr)
    → Linked f (first z ys) xs
    → Linked f z ys
    → Linked f z (xs ++ ys)
Linked-append [] ys f z l m = m
Linked-append (x ∷ []) ys f z l m = (l.0, m)
Linked-append (x ∷ y ∷ xs) ys f z l m = (l.0, Linked-append (y ∷ xs) ys f z l.1 m)

pub count-last : (x : Ptr) (xs : List Ptr) → 0 < count (last x xs) (x ∷ xs)
count-last x [] = ground arith
count-last x (y ∷ ys) = ground (arith, count-last y ys)

-- What occurs once, and in the tail, is not the head.
pub once_below :
    (x a : Ptr) (xs : List Ptr) → count a (x ∷ xs) ≡ 1 → 0 < count a xs → (x ≢ a) × (count a xs ≡ 1)
once_below x a xs once h = (λ e. absurd (ground arith), ground arith)

-- A new last entry, hung behind the old one.
pub Linked-snoc :
    (x : Ptr) (xs : List Ptr) (f g : Ptr → Ptr) (a z : Ptr)
    → count (last x xs) (x ∷ xs) ≡ 1
    → SameBut (last x xs) f g
    → g (last x xs) ≡ a
    → g a ≡ z
    → Linked f z (x ∷ xs)
    → Linked g z (x ∷ xs ++ a ∷ [])
Linked-snoc x [] f g a z once same to end l = (to, (end, tt))
Linked-snoc x (y ∷ ys) f g a z once same to end l =
    let (apart, below) = once_below x (last y ys) (y ∷ ys) once (count-last y ys) in
    (same x apart ∙ l.0, Linked-snoc y ys f g a z below same to end l.1)

unfoldable pub insert_after : (o a : Ptr) → List Ptr → List Ptr
insert_after o a [] = []
insert_after o a (x ∷ xs) = if x == o then x ∷ a ∷ xs else x ∷ insert_after o a xs

pub first-insert_after : (o a z : Ptr) (xs : List Ptr) → first z (insert_after o a xs) ≡ first z xs
unfolding insert_after
first-insert_after o a z [] = refl
first-insert_after o a z (x ∷ xs) = ground arith

pub Linked-insert_after :
    (xs : List Ptr) (f g : Ptr → Ptr) (o a z : Ptr)
    → count o xs ≡ 1
    → count a xs ≡ 0
    → ((x : Ptr) → x ≢ o → x ≢ a → g x ≡ f x)
    → g o ≡ a
    → g a ≡ f o
    → Linked f z xs
    → Linked g z (insert_after o a xs)
unfolding insert_after
Linked-insert_after [] f g o a z once out same to back l = tt
Linked-insert_after (x ∷ xs) f g o a z once out same to back l = elim (Bool-cases (x == o)) [
  | inl hit ↦ rw hit (ground (arith, hit), (ground (arith, hit), rest hit))
  | inr miss ↦ rw miss (
    ground (arith, miss, same x, first-insert_after o a z xs),
    Linked-insert_after xs f g o a z (ground (arith, miss)) (ground arith) same to back l.1,
  )
]
  where
    rest : (x == o) ≡ true → Linked g z xs
    rest hit =
        Linked-frame xs f g z
          (λ y h.
            same y (ne_of_count y o xs h (ground (arith, hit)))
              (ne_of_count y a xs h (ground (arith, hit))))
          l.1

pub count-insert_after :
    (x o a : Ptr) (xs : List Ptr)
    → 0 < count o xs
    → count x (insert_after o a xs) ≡ count x xs + count x (a ∷ [])
unfolding insert_after
count-insert_after x o a [] h = absurd (omega arith)
count-insert_after x o a (y ∷ ys) h = ground (arith, count-insert_after x o a ys)
