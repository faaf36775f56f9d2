-- ===== src/Prelude/Dict/Entries.antt =====
-- Loops over the entries of a map, in the order in which they are visited.
use mathlib.Core.Path.{◌≡◌, refl, ap, subst, subst₂}
use mathlib.Core.Bool.{Bool, true, false}
use mathlib.Core.Logic.{inl, inr}
use mathlib.Core.Option.{Option, none, some}
use mathlib.Core.List.{List, [], ◌∷◌, ◌++◌, Permᴰ, Memᴰ}
use mathlib.Core.List.Permᴰ
use native.Mathlib.Omega.{arith}
use openiotrsp.Prelude.Tests.{if◌then◌else◌, Bool-cases, Option-cases}
use openiotrsp.Prelude.Lists.{All}
use openiotrsp.Prelude.Pairs.{AllPairs}
use openiotrsp.Prelude.Equality.{Comparable, ◌==◌, beq_refl}
use openiotrsp.Prelude.Dict.{Dict, lookup, HasDistinctKeys}

module _ {ℓ κ} {K : Type ℓ} {V : Type κ} where
  -- `for k, v := range m { if p(k, v) { out = append(out, v) } }`
  unfoldable pub values_where : (K → V → Bool) → Dict K V → List V
  values_where p [] = []
  values_where p ((k, v) ∷ m) = if p k v then v ∷ values_where p m else values_where p m

  -- `for k, v := range m { if p(k, v) { return k, v } }`
  unfoldable pub first_where : (K → V → Bool) → Dict K V → Option (K × V)
  first_where p [] = none
  first_where p ((k, v) ∷ m) = if p k v then some (k, v) else first_where p m

  pub first_where-holds :
      (p : K → V → Bool) (m : Dict K V) (k : K) (v : V)
      → first_where p m ≡ some (k, v)
      → p k v ≡ true
  unfolding first_where
  first_where-holds p [] k v h = cc
  first_where-holds p ((j, w) ∷ m) k v h = elim (Bool-cases (p j w)) [
    | inl t ↦ cc
    | inr f ↦ first_where-holds p m k v (ground arith)
  ]

  keep-permᴰ :
      (p : K → V → Bool) (a : K × V) {xs ys : List V}
      → Permᴰ xs ys
      → Permᴰ (if p a.0 a.1 then a.1 ∷ xs else xs) (if p a.0 a.1 then a.1 ∷ ys else ys)
  keep-permᴰ p a q = elim (Bool-cases (p a.0 a.1)) [
    | inl t ↦ rw t (Permᴰ.cons refl q)
    | inr f ↦ rw f q
  ]

  values_where-split :
      (p : K → V → Bool) (a b : K × V) (m : Dict K V)
      → values_where p (a ∷ b ∷ m) ≡ values_where p (a ∷ b ∷ []) ++ values_where p m
  unfolding values_where
  values_where-split p a b m = ground arith

  keep_swap :
      (p : K → V → Bool) (a b : K × V) (xs : List V)
      → Permᴰ (values_where p (a ∷ b ∷ []) ++ xs) (values_where p (b ∷ a ∷ []) ++ xs)
  unfolding values_where
  keep_swap p a b xs = elim (Bool-cases (p a.0 a.1)) [
    | inl t ↦ elim (Bool-cases (p b.0 b.1)) [
      | inl u ↦ rw (t, u) (Permᴰ.swap refl refl)
      | inr u ↦ rw (t, u) (Permᴰ.refl _)
    ]
    | inr t ↦ rw t (Permᴰ.refl _)
  ]

  -- Another visiting order gives the same values in another order.
  pub values_where-permᴰ :
      (p : K → V → Bool) {m n : Dict K V} → Permᴰ m n → Permᴰ (values_where p m) (values_where p n)
  unfolding values_where
  values_where-permᴰ p Permᴰ.nil = Permᴰ.nil
  values_where-permᴰ p (Permᴰ.cons {a = a} {l₁ = m} {l₂ = n} e q) =
      subst (λ b. Permᴰ (values_where p (a ∷ m)) (values_where p (b ∷ n))) e
        (keep-permᴰ p a (values_where-permᴰ p q))
  values_where-permᴰ p (Permᴰ.swap {a = a} {b = b} {l = l} e f) =
      subst₂ (λ x y. Permᴰ (values_where p (a ∷ b ∷ l)) (values_where p (y ∷ x ∷ l))) e f
        (rw (values_where-split p a b l, values_where-split p b a l)
          (keep_swap p a b (values_where p l)))
  values_where-permᴰ p (Permᴰ.trans q r) =
      Permᴰ.trans (values_where-permᴰ p q) (values_where-permᴰ p r)

module _ {ℓ κ} {K : Type ℓ} {V : Type κ} ⦃e : Comparable K⦄ where
  pub lookup_tail :
      (k j : K) (v w : V) (m : Dict K V)
      → HasDistinctKeys ((j, w) ∷ m)
      → lookup k m ≡ some v
      → lookup k ((j, w) ∷ m) ≡ some v
  unfolding lookup
  lookup_tail k j v w m d h = ground (arith, e.same_iff j k)

  pub lookup_head : (k : K) (v : V) (m : Dict K V) → lookup k ((k, v) ∷ m) ≡ some v
  unfolding lookup
  lookup_head k v m = rw (beq_refl k)

  key_ne :
      (j k : K) (v : V) (m : Dict K V) → lookup j m ≡ none → lookup k m ≡ some v → (j == k) ≡ false
  key_ne j k v m d l = ground (arith, e.same_iff j k)

  pub All-values_where {μ} :
      (p : K → V → Bool) (Q : V → Type μ) (m : Dict K V)
      → HasDistinctKeys m
      → ((k : K) (v : V) → lookup k m ≡ some v → p k v ≡ true → Q v)
      → All Q (values_where p m)
  unfolding values_where
  All-values_where p Q [] d h = tt
  All-values_where p Q ((j, w) ∷ m) d h =
      let rest = All-values_where p Q m d.1 (λ k v l. h k v (lookup_tail k j v w m d l)) in
      elim (Bool-cases (p j w)) [
        | inl t ↦ rw t (h j w (lookup_head j w m) t, rest)
        | inr f ↦ rw f rest
      ]

  pub AllPairs-values_where {μ} :
      (p : K → V → Bool) (R : V → V → Type μ) (m : Dict K V)
      → HasDistinctKeys m
      → ((k : K) (v : V) (j : K) (w : V)
          → lookup k m ≡ some v
          → lookup j m ≡ some w
          → (k == j) ≡ false
          → p k v ≡ true
          → p j w ≡ true
          → R v w)
      → AllPairs R (values_where p m)
  unfolding values_where
  AllPairs-values_where p R [] d h = tt
  AllPairs-values_where p R ((j, w) ∷ m) d h =
      let up = λ (k : K) (v : V) (l : lookup k m ≡ some v). lookup_tail k j v w m d l in
      let rest =
        AllPairs-values_where p R m d.1
          (λ k v i u l l' n t t'. h k v i u (up k v l) (up i u l') n t t') in
      elim (Bool-cases (p j w)) [
        | inl t ↦ rw t (
          All-values_where p (R w) m d.1
              (λ k v l t'. h j w k v (lookup_head j w m) (up k v l) (key_ne j k v m d.0 l) t t'),
          rest,
        )
        | inr f ↦ rw f rest
      ]

  mem_later :
      (p : K → V → Bool) (v : V) (j : K) (w : V) (vs : List V)
      → Memᴰ v vs
      → Memᴰ v (if p j w then w ∷ vs else vs)
  mem_later p v j w vs m = elim (Bool-cases (p j w)) [ inl t ↦ rw t (Memᴰ.tail m) | inr f ↦ rw f m ]

  mem_here :
      (p : K → V → Bool) (k : K) (v : V) (j : K) (w : V) (m : Dict K V)
      → v ≡ w
      → j ≡ k
      → p k v ≡ true
      → Memᴰ v (values_where p ((j, w) ∷ m))
  unfolding values_where
  mem_here p k v j w m ew ek t = let t' : p j w ≡ true = cc in rw t' (Memᴰ.head ew)

  pub mem-values_where :
      (p : K → V → Bool) (k : K) (v : V) (m : Dict K V)
      → lookup k m ≡ some v
      → p k v ≡ true
      → Memᴰ v (values_where p m)
  unfolding values_where lookup
  mem-values_where p k v [] l t = cc
  mem-values_where p k v ((j, w) ∷ m) l t = elim (Bool-cases (j == k)) [
    | inl same ↦ mem_here p k v j w m (ground arith) (ground (arith, e.same_iff j k)) t
    | inr other ↦ mem_later p v j w (values_where p m) (mem-values_where p k v m (ground arith) t)
  ]

  pub lookup-first_where :
      (p : K → V → Bool) (m : Dict K V) (k : K) (v : V)
      → HasDistinctKeys m
      → first_where p m ≡ some (k, v)
      → lookup k m ≡ some v
  unfolding first_where
  lookup-first_where p [] k v d h = cc
  lookup-first_where p ((j, w) ∷ m) k v d h = elim (Bool-cases (p j w)) [
    | inl t ↦ cc (lookup_head j w m)
    | inr f ↦ lookup_tail k j v w m d (lookup-first_where p m k v d.1 (ground arith))
  ]

  pub first_where-none :
      (p : K → V → Bool) (m : Dict K V) (k : K) (v : V)
      → first_where p m ≡ none
      → lookup k m ≡ some v
      → p k v ≡ false
  unfolding first_where lookup
  first_where-none p [] k v h l = cc
  first_where-none p ((j, w) ∷ m) k v h l = ground (arith, e.same_iff j k, first_where-none p m k v)

  -- A search whose test only one key passes finds that key.
  pub first_where_unique :
      (p : K → V → Bool) (m : Dict K V) (k : K) (v : V)
      → HasDistinctKeys m
      → lookup k m ≡ some v
      → p k v ≡ true
      → ((j : K) (w : V) → lookup j m ≡ some w → p j w ≡ true → j ≡ k)
      → first_where p m ≡ some (k, v)
  first_where_unique p m k v d l t only = elim (Option-cases (first_where p m)) [
    | inl missed ↦ absurd (ground (arith, first_where-none p m k v missed l, t))
    | inr ((j, w), hit) ↦
        let there = lookup-first_where p m j w d hit in
        let same = only j w there (first_where-holds p m j w hit) in cc (ap (λ i. lookup i m) same)
  ]
