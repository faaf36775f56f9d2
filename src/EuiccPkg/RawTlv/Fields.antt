-- ===== src/EuiccPkg/RawTlv/Fields.antt =====
-- About the fields of the signed data of a package result (euiccpkg/raw_tlv.go).
use openiotrsp.Common.{if◌then◌else◌}
use openiotrsp.Common.{
  ◌≡◌, refl, subst, ◌≢◌, ◌⊎◌, inl, inr, true, false, not, ◌||◌, List, [], ◌∷◌, ◌++◌, some, none,
  Option, arith, Bool-cases, Bytes, eq_nat, eq_bytes, bytes_eq_iff,
}
use openiotrsp.EuiccPkg.RawTlv.{TlvSpan, tag_is, after_prefix, ends_with_results, ends_with_code}

-- The fields of signed data: the eIM, the counter and perhaps the transaction, then the sequence
-- number and the results, or the code of an error.
pub record HasFields (fields : List TlvSpan) : Type 0 where
  pub eim : TlvSpan
  pub counter : TlvSpan
  pub middle : List TlvSpan
  pub last : List TlvSpan
  pub split : fields ≡ eim ∷ counter ∷ middle ++ last
  pub eim_tagged : eim.tag ≡ 0x80 ∷ []
  pub counter_tagged : counter.tag ≡ 0x81 ∷ []
  pub transaction :
      (middle ≡ []) ⊎ ((field : TlvSpan) × (middle ≡ field ∷ []) × (field.tag ≡ 0x82 ∷ []))
  pub ending :
      ((sequence : TlvSpan) × (results : TlvSpan) × (last ≡ sequence ∷ results ∷ [])
        × (sequence.tag ≡ 0x83 ∷ [])
        × (results.tag ≡ 0x30 ∷ []))
      ⊎ ((code : TlvSpan) × (last ≡ code ∷ []) × (code.tag ≡ 0x02 ∷ []))

pub tag_is_inv : (span : TlvSpan) (tag : Bytes) → tag_is span tag ≡ true → span.tag ≡ tag
tag_is_inv span tag h = (bytes_eq_iff span.tag tag).0 (ground (arith, h))

pub tag_is_not : (span : TlvSpan) (tag : Bytes) → tag_is span tag ≡ false → span.tag ≢ tag
tag_is_not span tag h = λ e. ground (arith, h, (bytes_eq_iff span.tag tag).1 e)

abbrev Ending : List TlvSpan → Type 0
Ending last =
    ((sequence : TlvSpan) × (results : TlvSpan) × (last ≡ sequence ∷ results ∷ [])
      × (sequence.tag ≡ 0x83 ∷ [])
      × (results.tag ≡ 0x30 ∷ []))
    ⊎ ((code : TlvSpan) × (last ≡ code ∷ []) × (code.tag ≡ 0x02 ∷ []))

ending_lem :
    (last : List TlvSpan)
    → (ends_with_results (some last) || ends_with_code (some last)) ≡ true
    → Ending last
unfolding ends_with_results ends_with_code
ending_lem [] h = absurd (ground (arith, h))
ending_lem (code ∷ []) h = inr (code, refl, tag_is_inv code (0x02 ∷ []) (ground (arith, h)))
ending_lem (sequence ∷ results ∷ []) h = inl (
  sequence,
  results,
  refl,
  tag_is_inv sequence (0x83 ∷ []) (ground (arith, h)),
  tag_is_inv results (0x30 ∷ []) (ground (arith, h)),
)
ending_lem (x ∷ y ∷ z ∷ rest) h = absurd (ground (arith, h))

abbrev pub Ends : Option (List TlvSpan) → Type 0
Ends found = (ends_with_results found || ends_with_code found) ≡ true

nothing-Ends : Ends none → ⊥
unfolding ends_with_results ends_with_code
nothing-Ends h = ground (arith, h)

abbrev third_skipped : TlvSpan → List TlvSpan → Option (List TlvSpan)
third_skipped third rest =
    if not (tag_is third (0x82 ∷ []))
    then some (third ∷ rest)
    else elim rest [ [] ↦ none | next ∷ later ↦ some (next ∷ later) ]

-- The third field and the ones after it.
third_lem :
    (first second third : TlvSpan) (rest : List TlvSpan)
    → first.tag ≡ 0x80 ∷ []
    → second.tag ≡ 0x81 ∷ []
    → Ends (third_skipped third rest)
    → HasFields (first ∷ second ∷ third ∷ rest)
third_lem first second third rest a b h = elim (Bool-cases (tag_is third (0x82 ∷ []))) [
  | inr other ↦ record {
    eim = first;
    counter = second;
    middle = [];
    last = third ∷ rest;
    split = refl;
    eim_tagged = a;
    counter_tagged = b;
    transaction = inl refl;
    ending = ending_lem (third ∷ rest) (subst Ends (the_rest other) h);
  }
  | inl tagged ↦ record {
    eim = first;
    counter = second;
    middle = third ∷ [];
    last = rest;
    split = refl;
    eim_tagged = a;
    counter_tagged = b;
    transaction = inr (third, refl, tag_is_inv third (0x82 ∷ []) tagged);
    ending = ending_lem rest (subst Ends (rest_there tagged rest h) h);
  }
]
  where
    the_rest : tag_is third (0x82 ∷ []) ≡ false → third_skipped third rest ≡ some (third ∷ rest)
    the_rest other = rw other refl

    rest_there :
        tag_is third (0x82 ∷ []) ≡ true
        → (later : List TlvSpan) → Ends (third_skipped third later)
        → third_skipped third later ≡ some later
    rest_there tagged [] k = absurd (nothing-Ends (subst Ends (rw tagged refl) k))
    rest_there tagged (next ∷ later) k = rw tagged refl

pub fields_lem : (fields : List TlvSpan) → Ends (after_prefix fields) → HasFields fields
unfolding after_prefix
fields_lem [] h = absurd (nothing-Ends h)
fields_lem (first ∷ []) h = absurd (nothing-Ends h)
fields_lem (first ∷ second ∷ []) h = absurd (nothing-Ends h)
fields_lem (first ∷ second ∷ third ∷ rest) h = elim (Bool-cases (tag_is first (0x80 ∷ []))) [
  | inr other ↦ absurd (nothing-Ends (subst Ends (rw other refl) h))
  | inl a ↦ elim (Bool-cases (tag_is second (0x81 ∷ []))) [
    | inr other ↦ absurd (nothing-Ends (subst Ends (rw (a, other) refl) h))
    | inl b ↦
        third_lem first second third rest (tag_is_inv first (0x80 ∷ []) a)
          (tag_is_inv second (0x81 ∷ []) b) (subst Ends (rw (a, b) refl) h)
  ]
]
