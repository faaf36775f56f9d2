-- ===== src/Prelude/Sort.antt =====
-- The insertion sort that the in-memory store writes out four times, over any test `gt`.
use mathlib.Core.Path.{◌≡◌, refl, ap, ◌∙◌, sym}
use mathlib.Core.Bool.{Bool, true, false, ◌||◌}
use mathlib.Core.List.{List, [], ◌∷◌, ◌++◌, reverse, Permᴰ}
use mathlib.Core.List.Permᴰ
use native.Mathlib.Omega.{arith}
use openiotrsp.Prelude.Tests.{if◌then◌else◌, Bool-cases}
use openiotrsp.Prelude.Lists.{All}
use openiotrsp.Prelude.Pairs.{AllPairs, AllPairs-reverse, AllPairs-permᴰ}
use mathlib.Core.Logic.{inl, inr}

-- What the laws need of the test: `>` of a key, where distinct elements may share the key.
pub record IsOrder {ℓ} {A : Type ℓ} (gt : A → A → Bool) : Type ℓ where
  pub asym : (a b : A) → gt a b ≡ true → gt b a ≡ false
  pub trans : (a b c : A) → gt a b ≡ true → gt b c ≡ true → gt a c ≡ true
  pub weak : (a b c : A) → gt a b ≡ false → gt b c ≡ false → gt a c ≡ false

module _ {ℓ} {A : Type ℓ} (gt : A → A → Bool) where
  -- The inner loop: `done` is the prefix before `x`, its last element first.
  unfoldable pub sink : A → List A → List A
  sink x [] = x ∷ []
  sink x (y ∷ done) = if gt y x then y ∷ sink x done else x ∷ y ∷ done

  -- The outer loop.
  unfoldable pub sort_loop : List A → List A → List A
  unfolding sink
  sort_loop done [] = done
  sort_loop done (x ∷ rest) = sort_loop (sink x done) rest

  unfoldable pub insertion_sort : List A → List A
  unfolding sort_loop
  insertion_sort items = reverse (sort_loop [] items)

  -- No element is greater than one that stands after it.
  abbrev pub IsSorted : List A → Type 0
  IsSorted = AllPairs (λ a b. gt a b ≡ false)

  -- Any two elements differ in their keys.
  abbrev pub HasDistinct : List A → Type 0
  HasDistinct = AllPairs (λ a b. (gt a b || gt b a) ≡ true)

  sink-permᴰ : (x : A) (done : List A) → Permᴰ (sink x done) (x ∷ done)
  unfolding sink
  sink-permᴰ x [] = Permᴰ.refl (x ∷ [])
  sink-permᴰ x (y ∷ done) = elim (Bool-cases (gt y x)) [
    | inl h ↦ rw h (Permᴰ.trans (Permᴰ.cons refl (sink-permᴰ x done)) (Permᴰ.swap refl refl))
    | inr h ↦ rw h (Permᴰ.refl (x ∷ y ∷ done))
  ]

  sort_loop-permᴰ : (done rest : List A) → Permᴰ (sort_loop done rest) (rest ++ done)
  unfolding sort_loop
  sort_loop-permᴰ done [] = Permᴰ.refl done
  sort_loop-permᴰ done (x ∷ rest) =
      Permᴰ.trans (sort_loop-permᴰ (sink x done) rest)
        (Permᴰ.trans (Permᴰ.append_left rest (sink-permᴰ x done)) (Permᴰ.middle x rest done))

  -- The sort keeps every element.
  pub insertion_sort-permᴰ : (items : List A) → Permᴰ (insertion_sort items) items
  unfolding insertion_sort
  insertion_sort-permᴰ items =
      Permᴰ.trans (Permᴰ.reverse (sort_loop [] items))
        (Permᴰ.trans (sort_loop-permᴰ [] items) (Permᴰ.append-nil items))

  module _ (order : IsOrder gt) where
    All-sink : (P : A → Type 0) (x : A) (done : List A) → P x → All P done → All P (sink x done)
    unfolding sink
    All-sink P x [] h a = (h, tt)
    All-sink P x (y ∷ done) h a = ground (arith, All-sink P x done h a.1)

    abbrev IsFalling : List A → Type 0
    IsFalling = AllPairs (λ a b. gt b a ≡ false)

    below_head :
        (x y : A) (done : List A)
        → gt y x ≡ false
        → All (λ b. gt b y ≡ false) done
        → All (λ b. gt b x ≡ false) done
    below_head x y [] h a = tt
    below_head x y (z ∷ done) h a = (order.weak z y x a.0 h, below_head x y done h a.1)

    sink-IsFalling : (x : A) (done : List A) → IsFalling done → IsFalling (sink x done)
    unfolding sink
    sink-IsFalling x [] f = (tt, tt)
    sink-IsFalling x (y ∷ done) f = elim (Bool-cases (gt y x)) [
      | inl h ↦
          rw h (
            All-sink (λ b. gt b y ≡ false) x done (order.asym y x h) f.0,
            sink-IsFalling x done f.1,
          )
      | inr h ↦ rw h ((h, below_head x y done h f.0), f)
    ]

    sort_loop-IsFalling : (done rest : List A) → IsFalling done → IsFalling (sort_loop done rest)
    unfolding sort_loop
    sort_loop-IsFalling done [] f = f
    sort_loop-IsFalling done (x ∷ rest) f =
        sort_loop-IsFalling (sink x done) rest (sink-IsFalling x done f)

    pub insertion_sort-IsSorted : (items : List A) → IsSorted (insertion_sort items)
    unfolding insertion_sort
    insertion_sort-IsSorted items =
        AllPairs-reverse (λ a b. gt a b ≡ false) (sort_loop [] items)
          (sort_loop-IsFalling [] items tt)

    sink_comm_lt :
        (x y : A) (done : List A) → gt y x ≡ true → sink x (sink y done) ≡ sink y (sink x done)
    unfolding sink
    sink_comm_lt x y [] h = ground (arith, order.asym y x h)
    sink_comm_lt x y (z ∷ done) h =
        ground (arith, order.asym y x h, order.trans z y x, sink_comm_lt x y done h)

    sink_comm :
        (x y : A) (done : List A)
        → (gt x y || gt y x) ≡ true
        → sink x (sink y done) ≡ sink y (sink x done)
    sink_comm x y done h = elim (Bool-cases (gt y x)) [
      | inl g ↦ sink_comm_lt x y done g
      | inr g ↦ sym (sink_comm_lt y x done (ground arith))
    ]

    sort_loop_perm :
        {xs ys : List A}
        → Permᴰ xs ys
        → HasDistinct xs
        → (done : List A) → sort_loop done xs ≡ sort_loop done ys
    unfolding sort_loop
    sort_loop_perm Permᴰ.nil d done = refl
    sort_loop_perm (Permᴰ.cons {b = y} e p) d done = rw e (sort_loop_perm p d.1 (sink y done))
    sort_loop_perm (Permᴰ.swap {a = x} {b = y} {l = l} e f) d done =
        rw (← e, ← f) (ap (λ r. sort_loop r l) (sink_comm y x done (ground (arith, d.0.0))))
    sort_loop_perm (Permᴰ.trans p q) d done =
        sort_loop_perm p d done
        ∙ sort_loop_perm q (AllPairs-permᴰ _ (λ a b h. ground arith) p d) done

    -- With distinct keys the result does not depend on the order of the input.
    pub insertion_sort_perm :
        {xs ys : List A} → Permᴰ xs ys → HasDistinct xs → insertion_sort xs ≡ insertion_sort ys
    unfolding insertion_sort
    insertion_sort_perm p d = ap reverse (sort_loop_perm p d [])
