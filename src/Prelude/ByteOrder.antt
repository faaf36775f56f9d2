-- ===== src/Prelude/ByteOrder.antt =====
-- Go's order of strings: byte by byte.
use mathlib.Core.Path.{◌≡◌}
use mathlib.Core.Bool.{Bool, true, false, ◌||◌}
use mathlib.Core.List.{[], ◌∷◌}
use native.Mathlib.Omega.{arith}
use openiotrsp.Prelude.Tests.{ltb, if◌then◌else◌}
use openiotrsp.Prelude.Equality.{Bytes, bytes_eq}
use openiotrsp.Prelude.Sort.{IsOrder}

-- `a > b`
unfoldable pub bytes_gt : Bytes → Bytes → Bool
bytes_gt [] b = false
bytes_gt (x ∷ a) [] = true
bytes_gt (x ∷ a) (y ∷ b) =
    let rest = bytes_gt a b in if ltb y x then true else if ltb x y then false else rest

bytes_gt_asym : (a b : Bytes) → bytes_gt a b ≡ true → bytes_gt b a ≡ false
unfolding bytes_gt
bytes_gt_asym [] [] h = ground arith
bytes_gt_asym [] (y ∷ b) h = ground arith
bytes_gt_asym (x ∷ a) [] h = ground arith
bytes_gt_asym (x ∷ a) (y ∷ b) h = ground (arith, bytes_gt_asym a b)

bytes_gt_trans : (a b c : Bytes) → bytes_gt a b ≡ true → bytes_gt b c ≡ true → bytes_gt a c ≡ true
unfolding bytes_gt
bytes_gt_trans [] b c h i = ground arith
bytes_gt_trans (x ∷ a) [] c h i = ground arith
bytes_gt_trans (x ∷ a) (y ∷ b) [] h i = ground arith
bytes_gt_trans (x ∷ a) (y ∷ b) (z ∷ c) h i = ground (arith, bytes_gt_trans a b c)

bytes_gt_weak : (a b c : Bytes) → bytes_gt a b ≡ false → bytes_gt b c ≡ false → bytes_gt a c ≡ false
unfolding bytes_gt
bytes_gt_weak [] b c h i = ground arith
bytes_gt_weak (x ∷ a) [] c h i = ground arith
bytes_gt_weak (x ∷ a) (y ∷ b) [] h i = ground arith
bytes_gt_weak (x ∷ a) (y ∷ b) (z ∷ c) h i = ground (arith, bytes_gt_weak a b c)

-- Two different strings are in order one way or the other.
pub bytes_gt_total : (a b : Bytes) → bytes_eq a b ≡ false → (bytes_gt a b || bytes_gt b a) ≡ true
unfolding bytes_gt bytes_eq
bytes_gt_total [] [] h = ground arith
bytes_gt_total [] (y ∷ b) h = ground arith
bytes_gt_total (x ∷ a) [] h = ground arith
bytes_gt_total (x ∷ a) (y ∷ b) h = ground (arith, bytes_gt_total a b)

pub bytes_gt-IsOrder {ℓ} :
    {A : Type ℓ} (key : A → Bytes) → IsOrder (λ (a b : A). bytes_gt (key a) (key b))
bytes_gt-IsOrder key = record {
  asym = λ a b. bytes_gt_asym (key a) (key b);
  trans = λ a b c. bytes_gt_trans (key a) (key b) (key c);
  weak = λ a b c. bytes_gt_weak (key a) (key b) (key c);
}
