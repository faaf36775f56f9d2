-- ===== src/Asn1/Search.antt =====
-- Searches through an object in which each object comes before its children.
use openiotrsp.Common.{
  ℕ, zero, suc, ◌<◌, ◌≡◌, refl, ap, ◌⊎◌, inl, inr, List, [], ◌∷◌, ◌++◌, Option, some, none, All,
  arith,
}
use mathlib.Core.List.{Memᴰ}
use openiotrsp.Asn1.Codec.{first_some}
use openiotrsp.Asn1.Depth.{Shrinks}
use openiotrsp.Asn1.Tlv.{Bertlv}

module _ {Tlv : Type 0} (lib : Bertlv Tlv) where
  -- An object itself, or one at any depth inside it.
  pub data Within : Tlv → Tlv → Type 0 where
    itself : (o : Tlv) → Within o o
    inside :
        (o child inner : Tlv) → Memᴰ child (lib.children o) → Within child inner → Within o inner

  module _ (Holds : Tlv → Type 0) where
    -- Neither the object nor what is inside it is searched for.
    abbrev pub Lacks : Tlv → Type 0
    Lacks o = (inner : Tlv) → Within o inner → Holds inner → ⊥

    -- What is searched for comes first: the object itself, or what comes first inside its first
    -- child that has any.
    pub data IsFirst : Tlv → Tlv → Type 0 where
      at_top : (o : Tlv) → Holds o → IsFirst o o
      deeper :
          (o child found : Tlv) (before later : List Tlv)
          → (Holds o → ⊥)
          → lib.children o ≡ before ++ child ∷ later
          → All Lacks before
          → IsFirst child found
          → IsFirst o found

    module _ {B : Type 0} (value : Tlv → B) where
      abbrev pub Finds : Tlv → Option B → Type 0
      Finds o (some b) = (found : Tlv) × IsFirst o found × (b ≡ value found)
      Finds o none = Lacks o

      abbrev Among : List Tlv → Option B → Type 0
      Among l (some b) =
          (before : List Tlv) × (child : Tlv) × (later : List Tlv) × (found : Tlv) × (l
            ≡ before ++ child ∷ later)
          × All Lacks before
          × IsFirst child found
          × (b ≡ value found)
      Among l none = All Lacks l

      step-Among :
          (child : Tlv) (l : List Tlv) (own rest : Option B)
          → Finds child own
          → Among l rest
          → Among (child ∷ l) (elim own [ some y ↦ some y | none ↦ rest ])
      step-Among child l (some b) rest (found, first, same) r =
          ([], child, l, found, refl, tt, first, same)
      step-Among child l none none lacks r = (lacks, r)
      step-Among child l none (some b) lacks
            (before, other, later, found, split, passed, first, same) =
          (
            child ∷ before,
            other,
            later,
            found,
            ap (λ k. child ∷ k) split,
            (lacks, passed),
            first,
            same,
          )

      each-Among :
          (f : Tlv → Option B) (l : List Tlv)
          → All (λ c. Finds c (f c)) l
          → Among l (first_some f l)
      each-Among f [] h = tt
      each-Among f (child ∷ l) h =
          step-Among child l (f child) (first_some f l) h.0 (each-Among f l h.1)

      member-Lacks : (child : Tlv) (l : List Tlv) → Memᴰ child l → All Lacks l → Lacks child
      member-Lacks child [] m h = elim m [ ]
      member-Lacks child (c ∷ l) m h = elim m [
        | Memᴰ.head e ↦ rw e h.0
        | Memᴰ.tail n ↦ member-Lacks child l n h.1
      ]

      children-Lacks : (o : Tlv) → (Holds o → ⊥) → All Lacks (lib.children o) → Lacks o
      children-Lacks o unlike h inner (itself _) k = unlike k
      children-Lacks o unlike h inner (inside _ child _ m deep) k =
          member-Lacks child (lib.children o) m h inner deep k

      from-Among : (o : Tlv) (r : Option B) → (Holds o → ⊥) → Among (lib.children o) r → Finds o r
      from-Among o (some b) unlike (before, child, later, found, split, passed, first, same) =
          (found, deeper o child found before later unlike split passed first, same)
      from-Among o none unlike h = children-Lacks o unlike h

      module _ (f : ℕ → Tlv → Option B) (decide : (o : Tlv) → Holds o ⊎ (Holds o → ⊥))
          (at : (d : ℕ) (o : Tlv) → Holds o → f (suc d) o ≡ some (value o))
          (past : (d : ℕ) (o : Tlv)
            → (Holds o → ⊥)
            → f (suc d) o ≡ first_some (f d) (lib.children o))
          (shrinks : Shrinks lib) where
        each_found :
            (d n : ℕ) (l : List Tlv)
            → ((o : Tlv) → lib.height o < d → Finds o (f d o))
            → All (λ c. lib.height c < n) l
            → n < suc d
            → All (λ c. Finds c (f d c)) l
        each_found d n [] search h p = tt
        each_found d n (c ∷ l) search h p =
            (search c (omega (arith, h.0)), each_found d n l search h.1 p)

        pub search_lem : (d : ℕ) (o : Tlv) → lib.height o < d → Finds o (f d o)
        search_lem zero o p = absurd (ground (arith, p))
        search_lem (suc d) o p = elim (decide o) [
          | inl holds ↦ rw (at d o holds) (o, at_top o holds, refl)
          | inr unlike ↦ rw (past d o unlike) (
              from-Among o (first_some (f d) (lib.children o)) unlike (
                each-Among (f d) (lib.children o)
                  (each_found d (lib.height o) (lib.children o) (search_lem d) (shrinks o) p)))
        ]
