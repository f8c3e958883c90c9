-- ===== src/Messages/Wire.antt =====
-- What csrc/flashreduce.pb.cc uses of the protobuf runtime, as an interface, and the conditional
-- writes that the generated code repeats for each field. Fields are the numbers that they hold.
use flash_reduce_dev.Common.{
  ℕ, ◌+◌, ◌<◌, ◌≡◌, inl, inr, Bool, not, List, ◌++◌, ◌==◌, if◌then◌else◌, length, length-append,
  arith, Bool-cases,
}

-- `WriteUInt32ToArray` and `WriteUInt64ToArray` as the bytes that they add, `UInt32SizePlusOne` and
-- `UInt64SizePlusOne`, and the operations on a set `U` of unknown fields.
pub record Wire (U : Type 0) : Type 0 where
  pub write_u32 : (field value : ℕ) → List ℕ
  pub write_u64 : (field value : ℕ) → List ℕ
  pub size_u32 : (value : ℕ) → ℕ
  pub size_u64 : (value : ℕ) → ℕ
  pub no_unknown : U
  pub have_unknown : U → Bool
  pub write_unknown : U → List ℕ
  pub size_unknown : U → ℕ
  pub merge_unknown : U → U → U

-- What the runtime documents: a tag of a field number below 16 takes one byte, the sizes are those of
-- the encodings, and unknown fields are appended by a merge.
pub record WireLaws {U : Type 0} (w : Wire U) : Type 0 where
  pub length-write_u32 : (f v : ℕ) → f < 16 → length (w.write_u32 f v) ≡ w.size_u32 v
  pub length-write_u64 : (f v : ℕ) → f < 16 → length (w.write_u64 f v) ≡ w.size_u64 v
  pub length-write_unknown : (u : U) → length (w.write_unknown u) ≡ w.size_unknown u
  pub merge_no_unknown : (u : U) → w.merge_unknown w.no_unknown u ≡ u
  pub merge_unknown_assoc :
      (a b c : U)
      → w.merge_unknown (w.merge_unknown a b) c ≡ w.merge_unknown a (w.merge_unknown b c)

-- The field of a merge: a zero leaves the old value.
unfoldable pub pick : (from to : ℕ) → ℕ
pick from to = if not (from == 0) then from else to

pub pick-zero : (v : ℕ) → pick v 0 ≡ v
unfolding pick
pick-zero v = ground arith

pub pick-pick : (a b c : ℕ) → pick c (pick b a) ≡ pick (pick c b) a
unfolding pick
pick-pick a b c = ground arith

module _ {U : Type 0} (w : Wire U) where
  unfoldable pub put_u32 : (field value : ℕ) → List ℕ → List ℕ
  put_u32 f v target = if not (v == 0) then target ++ w.write_u32 f v else target

  unfoldable pub put_u64 : (field value : ℕ) → List ℕ → List ℕ
  put_u64 f v target = if not (v == 0) then target ++ w.write_u64 f v else target

  unfoldable pub put_unknown : U → List ℕ → List ℕ
  put_unknown u target = if w.have_unknown u then target ++ w.write_unknown u else target

  unfoldable pub add_u32 : (value total : ℕ) → ℕ
  add_u32 v total = if not (v == 0) then total + w.size_u32 v else total

  unfoldable pub add_u64 : (value total : ℕ) → ℕ
  add_u64 v total = if not (v == 0) then total + w.size_u64 v else total

  -- `MaybeComputeUnknownFieldsSize`
  unfoldable pub add_unknown : (u : U) (total : ℕ) → ℕ
  add_unknown u total = if w.have_unknown u then total + w.size_unknown u else total

  -- Two fields' sizes may be added in either order.
  pub add_u32-sum : (v n : ℕ) → add_u32 v n ≡ n + add_u32 v 0
  unfolding add_u32
  add_u32-sum v n = elim (Bool-cases (v == 0)) [
    | inl z ↦ rw z (omega arith)
    | inr p ↦ rw p (omega arith)
  ]

  pub add_u64-sum : (v n : ℕ) → add_u64 v n ≡ n + add_u64 v 0
  unfolding add_u64
  add_u64-sum v n = elim (Bool-cases (v == 0)) [
    | inl z ↦ rw z (omega arith)
    | inr p ↦ rw p (omega arith)
  ]

module _ {U : Type 0} {w : Wire U} (l : WireLaws w) (t : List ℕ) (n : ℕ) where
  pub length-put_u32 : (f v : ℕ) → f < 16 → length t ≡ n → length (put_u32 w f v t) ≡ add_u32 w v n
  unfolding put_u32 add_u32
  length-put_u32 f v small e = elim (Bool-cases (v == 0)) [
    | inl z ↦ rw z e
    | inr p ↦ rw p (omega (arith, length-append t (w.write_u32 f v), l.length-write_u32 f v small))
  ]

  pub length-put_u64 : (f v : ℕ) → f < 16 → length t ≡ n → length (put_u64 w f v t) ≡ add_u64 w v n
  unfolding put_u64 add_u64
  length-put_u64 f v small e = elim (Bool-cases (v == 0)) [
    | inl z ↦ rw z e
    | inr p ↦ rw p (omega (arith, length-append t (w.write_u64 f v), l.length-write_u64 f v small))
  ]

  pub length-put_unknown : (u : U) → length t ≡ n → length (put_unknown w u t) ≡ add_unknown w u n
  unfolding put_unknown add_unknown
  length-put_unknown u e = elim (Bool-cases (w.have_unknown u)) [
    | inl h ↦ rw h (omega (arith, length-append t (w.write_unknown u), l.length-write_unknown u))
    | inr none_there ↦ rw none_there e
  ]
