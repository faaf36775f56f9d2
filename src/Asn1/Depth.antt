-- ===== src/Asn1/Depth.antt =====
-- About the searches through a whole object (asn1/result.go, esipa/eid_resolve.go,
-- esipa/eid_recover.go).
use openiotrsp.Common.{
  ℕ, zero, suc, ◌<◌, ◌≡◌, refl, ap, some, none, List, [], ◌∷◌, Option, All, arith,
}
use openiotrsp.Asn1.Codec.{first_some}
use openiotrsp.Asn1.Tlv.{Bertlv}

pub first_some_agrees :
    {A B : Type 0} (f g : A → Option B) (l : List A)
    → All (λ x. f x ≡ g x) l
    → first_some f l ≡ first_some g l
first_some_agrees f g [] h = refl
first_some_agrees f g (x ∷ l) h =
    rw (first_some, h.0)
      (ap (λ (r : Option _). elim (g x) [ some y ↦ some y | none ↦ r ])
        (first_some_agrees f g l h.1))

module _ {Tlv : Type 0} (lib : Bertlv Tlv) where
  -- What is asked of the height: that of a child is smaller.
  abbrev pub Shrinks : Type 0
  Shrinks = (o : Tlv) → All (λ c. lib.height c < lib.height o) (lib.children o)

  -- A search to a depth that, a step deeper, asks for the children only to that depth.
  abbrev pub Deepens : {B : Type 0} → (ℕ → Tlv → Option B) → Type 0
  Deepens f =
      (d e : ℕ) (o : Tlv) → All (λ c. f d c ≡ f e c) (lib.children o) → f (suc d) o ≡ f (suc e) o

  children_agree :
      {B : Type 0} (f : ℕ → Tlv → Option B) (d e n : ℕ) (l : List Tlv)
      → ((o : Tlv) → lib.height o < d → lib.height o < e → f d o ≡ f e o)
      → All (λ c. lib.height c < n) l
      → n < suc d
      → n < suc e
      → All (λ c. f d c ≡ f e c) l
  children_agree f d e n [] agree h p q = tt
  children_agree f d e n (c ∷ l) agree h p q =
      (agree c (omega (arith, h.0)) (omega (arith, h.0)), children_agree f d e n l agree h.1 p q)

  pub depths_agree :
      {B : Type 0} (f : ℕ → Tlv → Option B)
      → Deepens f
      → Shrinks
      → (d e : ℕ) (o : Tlv) → lib.height o < d
      → lib.height o < e
      → f d o ≡ f e o
  depths_agree f step shrinks zero e o p q = ground (arith, p)
  depths_agree f step shrinks (suc d) zero o p q = ground (arith, q)
  depths_agree f step shrinks (suc d) (suc e) o p q = step d e o (
      children_agree f d e (lib.height o) (lib.children o) (depths_agree f step shrinks d e)
        (shrinks o) p q)
