-- ===== src/Prelude/Members.antt =====
-- Membership as data, through permutations, maps and cuts.
use Prim.Native.Nat.{ℕ, zero, suc, ◌≤◌}
use mathlib.Core.Path.{◌≡◌, refl, ap, ◌∙◌, sym, subst}
use mathlib.Core.Logic.{◌⊎◌, inl, inr}
use mathlib.Core.List.{List, [], ◌∷◌, Permᴰ, Memᴰ, map}
use native.Mathlib.Omega.{arith}
use openiotrsp.Prelude.Lists.{All, length, take}
use openiotrsp.Prelude.Pairs.{AllPairs}

module _ {ℓ} {A : Type ℓ} where
  pub mem-permᴰ : {xs ys : List A} (x : A) → Permᴰ xs ys → Memᴰ x xs → Memᴰ x ys
  mem-permᴰ x Permᴰ.nil m = m
  mem-permᴰ x (Permᴰ.cons e p) (Memᴰ.head f) = Memᴰ.head (f ∙ e)
  mem-permᴰ x (Permᴰ.cons e p) (Memᴰ.tail m) = Memᴰ.tail (mem-permᴰ x p m)
  mem-permᴰ x (Permᴰ.swap e f) (Memᴰ.head g) = Memᴰ.tail (Memᴰ.head (g ∙ e))
  mem-permᴰ x (Permᴰ.swap e f) (Memᴰ.tail (Memᴰ.head g)) = Memᴰ.head (g ∙ f)
  mem-permᴰ x (Permᴰ.swap e f) (Memᴰ.tail (Memᴰ.tail m)) = Memᴰ.tail (Memᴰ.tail m)
  mem-permᴰ x (Permᴰ.trans p q) m = mem-permᴰ x q (mem-permᴰ x p m)

  pub All-Memᴰ {κ} : (P : A → Type κ) {x : A} (xs : List A) → All P xs → Memᴰ x xs → P x
  All-Memᴰ P [] a m = elim m [ ]
  All-Memᴰ P (y ∷ xs) a (Memᴰ.head e) = subst P (sym e) a.0
  All-Memᴰ P (y ∷ xs) a (Memᴰ.tail m) = All-Memᴰ P xs a.1 m

  pub All-take {κ} : (P : A → Type κ) (n : ℕ) (xs : List A) → All P xs → All P (take n xs)
  All-take P zero xs a = tt
  All-take P (suc n) [] a = tt
  All-take P (suc n) (x ∷ xs) a = (a.0, All-take P n xs a.1)

  pub AllPairs-take {κ} :
      (R : A → A → Type κ) (n : ℕ) (xs : List A) → AllPairs R xs → AllPairs R (take n xs)
  AllPairs-take R zero xs a = tt
  AllPairs-take R (suc n) [] a = tt
  AllPairs-take R (suc n) (x ∷ xs) a = (All-take (R x) n xs a.0, AllPairs-take R n xs a.1)

  pub length-take-le : (n : ℕ) (xs : List A) → length (take n xs) ≤ n
  length-take-le zero xs = omega arith
  length-take-le (suc n) [] = omega arith
  length-take-le (suc n) (x ∷ xs) = omega (arith, length-take-le n xs)

  -- A member of an ordered list is kept by a cut, or stands after everything that is kept.
  pub mem-take {κ} :
      (R : A → A → Type κ) (n : ℕ) (xs : List A) {x : A}
      → AllPairs R xs
      → Memᴰ x xs
      → Memᴰ x (take n xs) ⊎ ((length (take n xs) ≡ n) × All (λ a. R a x) (take n xs))
  mem-take R zero xs a m = inr (refl, tt)
  mem-take R (suc n) [] a m = elim m [ ]
  mem-take R (suc n) (y ∷ xs) a (Memᴰ.head e) = inl (Memᴰ.head e)
  mem-take R (suc n) (y ∷ xs) a (Memᴰ.tail m) = elim (mem-take R n xs a.1 m) [
    | inl kept ↦ inl (Memᴰ.tail kept)
    | inr (full, before) ↦ inr (ap suc full, (All-Memᴰ (R y) xs a.0 m, before))
  ]

module _ {ℓ κ} {A : Type ℓ} {B : Type κ} where
  pub Memᴰ-map : (f : A → B) (xs : List A) {x : A} → Memᴰ x xs → Memᴰ (f x) (map f xs)
  Memᴰ-map f [] m = elim m [ ]
  Memᴰ-map f (y ∷ xs) (Memᴰ.head e) = Memᴰ.head (ap f e)
  Memᴰ-map f (y ∷ xs) (Memᴰ.tail m) = Memᴰ.tail (Memᴰ-map f xs m)

  pub All-of_map {μ} :
      (P : B → Type μ) (f : A → B) (xs : List A) → All (λ x. P (f x)) xs → All P (map f xs)
  All-of_map P f [] a = tt
  All-of_map P f (x ∷ xs) a = (a.0, All-of_map P f xs a.1)

  pub AllPairs-of_map {μ} :
      (R : B → B → Type μ) (f : A → B) (xs : List A)
      → AllPairs (λ x y. R (f x) (f y)) xs
      → AllPairs R (map f xs)
  AllPairs-of_map R f [] a = tt
  AllPairs-of_map R f (x ∷ xs) a = (All-of_map (R (f x)) f xs a.0, AllPairs-of_map R f xs a.1)
