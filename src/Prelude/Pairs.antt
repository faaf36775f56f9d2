-- ===== src/Prelude/Pairs.antt =====
-- A relation between each member of a list and the members after it.
use mathlib.Core.Path.{refl, subst, subst₂}
use mathlib.Core.List.{List, [], ◌∷◌, ◌++◌, reverse, reverse-cons, Permᴰ, Memᴰ}
use openiotrsp.Prelude.Lists.{All}

module _ {ℓ κ} {A : Type ℓ} where
  abbrev pub AllPairs : (A → A → Type κ) → List A → Type κ
  AllPairs R [] = Unit {κ}
  AllPairs R (x ∷ xs) = All (R x) xs × AllPairs R xs

  pub All-append : (P : A → Type κ) (xs ys : List A) → All P xs → All P ys → All P (xs ++ ys)
  All-append P [] ys a b = b
  All-append P (x ∷ xs) ys a b = (a.0, All-append P xs ys a.1 b)

  pub All-reverse : (P : A → Type κ) (xs : List A) → All P xs → All P (reverse xs)
  All-reverse P [] a = tt
  All-reverse P (x ∷ xs) a =
      rw (reverse-cons x xs) (All-append P (reverse xs) (x ∷ []) (All-reverse P xs a.1) (a.0, tt))

  pub All-of_Mem : (P : A → Type κ) (xs : List A) → ((x : A) → Memᴰ x xs → P x) → All P xs
  All-of_Mem P [] h = tt
  All-of_Mem P (x ∷ xs) h = (h x (Memᴰ.head refl), All-of_Mem P xs (λ y m. h y (Memᴰ.tail m)))

  pub All-permᴰ : (P : A → Type κ) {xs ys : List A} → Permᴰ xs ys → All P xs → All P ys
  All-permᴰ P Permᴰ.nil a = a
  All-permᴰ P (Permᴰ.cons e p) a = ((rw e at a.0), All-permᴰ P p a.1)
  All-permᴰ P (Permᴰ.swap e f) a = ((rw f at a.1.0), ((rw e at a.0), a.1.1))
  All-permᴰ P (Permᴰ.trans p q) a = All-permᴰ P q (All-permᴰ P p a)

  AllPairs-snoc :
      (R : A → A → Type κ) (xs : List A) (y : A)
      → AllPairs R xs
      → All (λ x. R x y) xs
      → AllPairs R (xs ++ y ∷ [])
  AllPairs-snoc R [] y a b = (tt, tt)
  AllPairs-snoc R (x ∷ xs) y a b =
      (All-append (R x) xs (y ∷ []) a.0 (b.0, tt), AllPairs-snoc R xs y a.1 b.1)

  pub AllPairs-reverse :
      (R : A → A → Type κ) (xs : List A) → AllPairs (λ a b. R b a) xs → AllPairs R (reverse xs)
  AllPairs-reverse R [] a = tt
  AllPairs-reverse R (x ∷ xs) a =
      rw (reverse-cons x xs) (
        AllPairs-snoc R (reverse xs) x (AllPairs-reverse R xs a.1)
          (All-reverse (λ y. R y x) xs a.0))

  -- A symmetric relation does not depend on the order.
  pub AllPairs-permᴰ :
      (R : A → A → Type κ)
      → ((a b : A) → R a b → R b a)
      → {xs ys : List A} → Permᴰ xs ys
      → AllPairs R xs
      → AllPairs R ys
  AllPairs-permᴰ R s Permᴰ.nil a = a
  AllPairs-permᴰ R s (Permᴰ.cons {a = x} {b = y} {l₂ = ys} e p) a =
      (subst (λ z. All (R z) ys) e (All-permᴰ (R x) p a.0), AllPairs-permᴰ R s p a.1)
  AllPairs-permᴰ R s (Permᴰ.swap {a = x} {b = y} {l = l} e f) a =
      subst₂ (λ z w. AllPairs R (w ∷ z ∷ l)) e f ((s x y a.0.0, a.1.0), (a.0.1, a.1.1))
  AllPairs-permᴰ R s (Permᴰ.trans p q) a = AllPairs-permᴰ R s q (AllPairs-permᴰ R s p a)

  All-combine :
      (P T : A → Type κ) (R S : A → A → Type κ) (a : A) (xs : List A)
      → ((b : A) → P b → R a b → S a b → T b)
      → All P xs
      → All (R a) xs
      → All (S a) xs
      → All T xs
  All-combine P T R S a [] h p r s = tt
  All-combine P T R S a (x ∷ xs) h p r s = (h x p.0 r.0 s.0, All-combine P T R S a xs h p.1 r.1 s.1)

  -- What a fact about each member and two relations between the pairs imply together.
  pub AllPairs-combine :
      (P : A → Type κ) (R S T : A → A → Type κ) (xs : List A)
      → ((a b : A) → P a → P b → R a b → S a b → T a b)
      → All P xs
      → AllPairs R xs
      → AllPairs S xs
      → AllPairs T xs
  AllPairs-combine P R S T [] h p r s = tt
  AllPairs-combine P R S T (x ∷ xs) h p r s = (
    All-combine P (T x) R S x xs (λ b q. h x b p.0 q) p.1 r.0 s.0,
    AllPairs-combine P R S T xs h p.1 r.1 s.1,
  )
