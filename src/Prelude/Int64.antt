-- ===== src/Prelude/Int64.antt =====
-- Go's `int64` as its bit pattern, a number below 2^64.
use Prim.Native.Nat.{ℕ, ◌+◌, ◌%◌, ◌^◌, ◌<◌}
use mathlib.Core.Path.{◌≡◌}
use mathlib.Core.Logic.{◌≢◌}
use mathlib.Core.Bool.{◌||◌, Bool, true}
use native.Mathlib.Omega.{arith}
use openiotrsp.Prelude.Tests.{ltb}
use openiotrsp.Prelude.Sort.{IsOrder}

abbrev pub Int64 : Type 0
Int64 = ℕ

-- The place of a bit pattern in the signed order.
unfoldable pub rank : Int64 → ℕ
rank x = (x + 2 ^ 63) % 2 ^ 64

-- `a > b`
unfoldable pub gt64 : Int64 → Int64 → Bool
unfolding rank
gt64 a b = ltb (rank b) (rank a)

-- `x++`
unfoldable pub inc64 : Int64 → Int64
inc64 x = (x + 1) % 2 ^ 64

pub inc64-eq : (x : Int64) → x < 2 ^ 63 → inc64 x ≡ x + 1
unfolding inc64
inc64-eq x h = omega arith

pub lt_of_gt64 : (a b : Int64) → a < 2 ^ 63 → b < 2 ^ 63 → gt64 b a ≡ true → a < b
unfolding gt64
lt_of_gt64 a b h i k = ground arith

-- The order of a signed key.
pub gt64-IsOrder {ℓ} : {A : Type ℓ} (key : A → Int64) → IsOrder (λ (a b : A). gt64 (key a) (key b))
unfolding gt64
gt64-IsOrder key = record {
  asym = λ a b h. ground arith;
  trans = λ a b c h i. ground arith;
  weak = λ a b c h i. ground arith;
}

-- Different numbers are in order one way or the other.
pub gt64_total : (a b : Int64) → a < 2 ^ 63 → b < 2 ^ 63 → a ≢ b → (gt64 a b || gt64 b a) ≡ true
unfolding gt64
gt64_total a b h k n = ground arith
