-- ===== src/Common/Lists.antt =====
-- Lists measured by native numbers, predicates on their entries, and how often a number occurs.
use Prim.Native.Nat.{ℕ, zero, suc, ◌+◌, ◌≤◌, ◌<◌}
use mathlib.Core.Path.{◌≡◌, refl, ap, subst}
use mathlib.Core.Logic.{◌≢◌, ◌⊎◌, inl, inr}
use mathlib.Core.Option.{Option, none, some}
use mathlib.Core.List.{List, [], ◌∷◌, ◌++◌}
use native.Mathlib.Omega.{arith}
use flash_reduce_dev.Common.Tests.{◌==◌, if◌then◌else◌, Bool-cases, ==→eq}

module _ {ℓ} {A : Type ℓ} where
  abbrev pub length : List A → ℕ
  length [] = 0
  length (x ∷ xs) = suc (length xs)

  pub length-append : (xs ys : List A) → length (xs ++ ys) ≡ length xs + length ys
  length-append [] ys = omega arith
  length-append (x ∷ xs) ys = omega (arith, length-append xs ys)

  abbrev pub All {κ} : (A → Type κ) → List A → Type κ
  All P [] = Unit
  All P (x ∷ xs) = P x × All P xs

  pub All-append {κ} : (P : A → Type κ) (xs ys : List A) → All P xs → All P ys → All P (xs ++ ys)
  All-append P [] ys h k = k
  All-append P (x ∷ xs) ys h k = (h.0, All-append P xs ys h.1 k)

  pub All-append_left {κ} : (P : A → Type κ) (xs ys : List A) → All P (xs ++ ys) → All P xs
  All-append_left P [] ys h = tt
  All-append_left P (x ∷ xs) ys h = (h.0, All-append_left P xs ys h.1)

  pub All-append_right {κ} : (P : A → Type κ) (xs ys : List A) → All P (xs ++ ys) → All P ys
  All-append_right P [] ys h = h
  All-append_right P (x ∷ xs) ys h = All-append_right P xs ys h.1

  -- Another element in the place of one.
  pub All-replace {κ} :
      (P : A → Type κ) (front : List A) (x y : A) (back : List A)
      → All P (front ++ x ∷ back)
      → P y
      → All P (front ++ y ∷ back)
  All-replace P [] x y back h new = (new, h.1)
  All-replace P (z ∷ front) x y back h new = (h.0, All-replace P front x y back h.1 new)

  pub All-map {κ ρ} :
      (P : A → Type κ) (Q : A → Type ρ) (xs : List A) → ((x : A) → P x → Q x) → All P xs → All Q xs
  All-map P Q [] f h = tt
  All-map P Q (x ∷ xs) f h = (f x h.0, All-map P Q xs f h.1)

  pub All-both {κ ρ} :
      (P : A → Type κ) (Q : A → Type ρ) (xs : List A)
      → All P xs
      → All Q xs
      → All (λ x. P x × Q x) xs
  All-both P Q [] h k = tt
  All-both P Q (x ∷ xs) h k = ((h.0, k.0), All-both P Q xs h.1 k.1)

  abbrev pub Any : (A → Type 0) → List A → Type 0
  Any P [] = ⊥
  Any P (x ∷ xs) = P x ⊎ Any P xs

  abbrev pub get_elem? : List A → ℕ → Option A
  get_elem? [] i = none
  get_elem? (x ∷ xs) zero = some x
  get_elem? (x ∷ xs) (suc i) = get_elem? xs i

  -- `xs[i] = y`, where `i` is in range.
  abbrev pub set : List A → ℕ → A → List A
  set [] i y = []
  set (x ∷ xs) zero y = y ∷ xs
  set (x ∷ xs) (suc i) y = x ∷ set xs i y

  abbrev pub replicate : ℕ → A → List A
  replicate zero x = []
  replicate (suc n) x = x ∷ replicate n x

  pub length-set : (xs : List A) (i : ℕ) (y : A) → length (set xs i y) ≡ length xs
  length-set [] i y = refl
  length-set (x ∷ xs) zero y = refl
  length-set (x ∷ xs) (suc i) y = ap suc (length-set xs i y)

  pub length-replicate : (n : ℕ) (x : A) → length (replicate n x) ≡ n
  length-replicate zero x = refl
  length-replicate (suc n) x = ap suc (length-replicate n x)

  pub get_elem?-replicate : (n i : ℕ) (x : A) → i < n → get_elem? (replicate n x) i ≡ some x
  get_elem?-replicate zero i x h = absurd (omega (arith, h))
  get_elem?-replicate (suc n) zero x h = refl
  get_elem?-replicate (suc n) (suc i) x h = get_elem?-replicate n i x (omega (arith, h))

  pub get_elem?-set :
      (xs : List A) (i : ℕ) (y : A) → i < length xs → get_elem? (set xs i y) i ≡ some y
  get_elem?-set [] i y h = absurd (omega (arith, h))
  get_elem?-set (x ∷ xs) zero y h = refl
  get_elem?-set (x ∷ xs) (suc i) y h = get_elem?-set xs i y (omega (arith, h))

  pub get_elem?-set_other :
      (xs : List A) (i k : ℕ) (y : A) → k ≢ i → get_elem? (set xs i y) k ≡ get_elem? xs k
  get_elem?-set_other [] i k y h = refl
  get_elem?-set_other (x ∷ xs) zero zero y h = absurd (h refl)
  get_elem?-set_other (x ∷ xs) zero (suc k) y h = refl
  get_elem?-set_other (x ∷ xs) (suc i) zero y h = refl
  get_elem?-set_other (x ∷ xs) (suc i) (suc k) y h =
      get_elem?-set_other xs i k y (λ e. h (ap suc e))

-- How often `p` occurs.
abbrev pub count : (p : ℕ) → List ℕ → ℕ
count p [] = 0
count p (q ∷ rest) = (if q == p then 1 else 0) + count p rest

pub count-append :
    (p : ℕ) (front back : List ℕ) → count p (front ++ back) ≡ count p front + count p back
count-append p [] back = omega arith
count-append p (q ∷ front) back = omega (arith, count-append p front back)

-- A number that two lists do not hold joins the first: still nothing occurs twice in both.
pub count-add_fresh :
    (x a : ℕ) (xs ys : List ℕ)
    → count a xs + count a ys ≡ 0
    → count x xs + count x ys ≤ 1
    → count x xs + count x (a ∷ []) + count x ys ≤ 1
count-add_fresh x a xs ys out h = elim (Bool-cases (a == x)) [
  | inl hit ↦ rw hit (omega (arith, subst (λ z. count z xs + count z ys ≡ 0) (==→eq a x hit) out))
  | inr miss ↦ rw miss (omega arith)
]

pub count_self : (x : ℕ) (xs : List ℕ) → 0 < count x (x ∷ xs)
count_self x xs = ground arith
