-- ===== src/EuiccPkg/RawTlv/Extraction.antt =====
-- About what is taken for the signed data of a package result (euiccpkg/raw_tlv.go).
use openiotrsp.Common.{if◌then◌else◌, ascii, invalid_input, on_ok}
use openiotrsp.Common.{
  ◌≡◌, refl, ap, ◌∙◌, subst, ◌≢◌, ◌⊎◌, inl, inr, true, false, not, ◌||◌, List, [], ◌∷◌, ◌++◌, arith,
  Bool-cases, length, ◌==◌, Bytes, eq_nat, eq_bytes, bytes_eq_iff, on_ok_keeps, Result, ok, err,
}
use openiotrsp.EuiccPkg.RawTlv.{
  TlvSpan, slice, parse_tlv_span, child_spans, only_child_span, signed_part, selected_part,
  raw_signed_data_from_result_der, tag_is, validate_result_signed_data, last_span, after_prefix,
  ends_with_results, ends_with_code,
}
use openiotrsp.EuiccPkg.RawTlv.Spans.{InBounds, child_spans-Tiles}
use openiotrsp.EuiccPkg.RawTlv.Fields.{HasFields, tag_is_inv, tag_is_not, fields_lem}

-- A SEQUENCE of the fields of signed data.
pub record IsSignedData (bytes : Bytes) (data_span : TlvSpan) : Type 0 where
  pub tagged : data_span.tag ≡ 0x30 ∷ []
  pub fields : List TlvSpan
  pub children : child_spans bytes data_span ≡ ok fields
  pub shape : HasFields fields

-- The choice has two children, the signed data and the signature, and the part is the first.
pub record IsSigned (bytes : Bytes) (selected : TlvSpan) (part : Bytes) : Type 0 where
  pub data_span : TlvSpan
  pub signature : TlvSpan
  pub children : child_spans bytes selected ≡ ok (data_span ∷ signature ∷ [])
  pub place : InBounds bytes selected.value_start data_span
  pub signature_tagged : signature.tag ≡ 0x5f ∷ 0x37 ∷ []
  pub signed_data : IsSignedData bytes data_span
  pub same : part ≡ slice data_span.tag_start data_span.span_end bytes

-- The choice's last child is no signature.
pub record LacksSignature (bytes : Bytes) (selected : TlvSpan) : Type 0 where
  pub before : List TlvSpan
  pub last : TlvSpan
  pub children : child_spans bytes selected ≡ ok (before ++ last ∷ [])
  pub untagged : last.tag ≢ 0x5f ∷ 0x37 ∷ []

abbrev pub IsSelected : TlvSpan → Type 0
IsSelected selected =
    (selected.tag ≡ 0x30 ∷ []) ⊎ (selected.tag ≡ 0xa0 ∷ []) ⊎ (selected.tag ≡ 0xa1 ∷ [])

-- What is taken out of a choice.
abbrev pub Taken : Bytes → TlvSpan → Bytes → Type 0
Taken bytes selected part =
    ((IsSelected selected → ⊥) × (part ≡ []))
    ⊎ (IsSelected selected × LacksSignature bytes selected × (part ≡ []))
    ⊎ (IsSelected selected × IsSigned bytes selected part)

-- The bytes are one result, around one choice.
pub record IsExtracted (bytes part : Bytes) : Type 0 where
  pub root : TlvSpan
  pub whole : parse_tlv_span bytes 0 ≡ ok root
  pub complete : root.span_end ≡ length bytes
  pub root_tagged : root.tag ≡ 0xbf ∷ 0x51 ∷ []
  pub selected : TlvSpan
  pub chosen : parse_tlv_span bytes root.value_start ≡ ok selected
  pub sole : selected.span_end ≡ root.value_end
  pub taken : Taken bytes selected part

last_lem :
    (first : TlvSpan) (rest : List TlvSpan)
    → (before : List TlvSpan) × (first ∷ rest ≡ before ++ last_span first rest ∷ [])
unfolding last_span
last_lem first [] = ([], refl)
last_lem first (next ∷ later) =
    let (before, e) = last_lem next later in (first ∷ before, ap (λ l. first ∷ l) e)

abbrev Reads : Bytes → TlvSpan → Result (Unit {0}) → Type 0
Reads bytes data_span (ok _) = IsSignedData bytes data_span
Reads bytes data_span (err e) = Unit {0}

signed_data_lem :
    (bytes : Bytes) (data_span : TlvSpan)
    → validate_result_signed_data bytes data_span ≡ ok tt
    → IsSignedData bytes data_span
unfolding validate_result_signed_data
signed_data_lem bytes data_span h =
    subst (Reads bytes data_span) h (elim (Bool-cases (tag_is data_span (0x30 ∷ []))) [
      | inr other ↦ rw other tt
      | inl tagged ↦ rw tagged (
          on_ok_keeps (Reads bytes data_span) (child_spans bytes data_span) _ (λ e. tt)
            (λ fields found.
              elim (Bool-cases
                (ends_with_results (after_prefix fields) || ends_with_code (after_prefix fields))) [
                  | inr other ↦ rw other tt
                  | inl shaped ↦ rw shaped (record {
                    tagged = tag_is_inv data_span (0x30 ∷ []) tagged;
                    fields = fields;
                    children = found;
                    shape = fields_lem fields shaped;
                  })
                ]))
    ])

module _ (bytes : Bytes) (selected : TlvSpan) where
  abbrev Cut : Result Bytes → Type 0
  Cut (ok part) = Taken bytes selected part
  Cut (err e) = Unit {0}

  -- Where the last child is a signature.
  two_children-Cut :
      (first : TlvSpan) (rest : List TlvSpan)
      → IsSelected selected
      → child_spans bytes selected ≡ ok (first ∷ rest)
      → (last_span first rest).tag ≡ 0x5f ∷ 0x37 ∷ []
      → Cut (
          if not (length rest == 1)
          then err (invalid_input (ascii "signed result requires signed data and signature"))
          else on_ok
              (validate_result_signed_data bytes first)
              (λ _. ok (slice first.tag_start first.span_end bytes)))
  unfolding last_span
  two_children-Cut first [] choice h tagged = tt
  two_children-Cut first (signature ∷ []) choice h tagged =
      on_ok_keeps Cut (validate_result_signed_data bytes first) _ (λ e. tt)
        (λ _ valid. inr (
          inr (
            choice,
            record {
              data_span = first;
              signature = signature;
              children = h;
              place = (child_spans-Tiles bytes selected (first ∷ signature ∷ []) h).1;
              signature_tagged = tagged;
              signed_data = signed_data_lem bytes first valid;
              same = refl;
            },
          )))
  two_children-Cut first (x ∷ y ∷ rest) choice h tagged =
      let long : (length (x ∷ y ∷ rest) == 1) ≡ false = ground arith in rw long tt

  signed_part-Cut :
      (spans : List TlvSpan)
      → IsSelected selected
      → child_spans bytes selected ≡ ok spans
      → Cut (signed_part bytes spans)
  unfolding signed_part
  signed_part-Cut [] choice h = tt
  signed_part-Cut (first ∷ rest) choice h =
      elim (Bool-cases (tag_is (last_span first rest) (0x5f ∷ 0x37 ∷ []))) [
        | inr other ↦
            let (before, e) = last_lem first rest in
            rw other (
              inr (
                inl (
                  choice,
                  record {
                    before = before;
                    last = last_span first rest;
                    children = h ∙ ap ok e;
                    untagged = tag_is_not (last_span first rest) (0x5f ∷ 0x37 ∷ []) other;
                  },
                  refl,
                )))
        | inl signed ↦ rw signed (
            two_children-Cut first rest choice h
              (tag_is_inv (last_span first rest) (0x5f ∷ 0x37 ∷ []) signed))
      ]

  is_selected :
      (tag_is selected (0x30 ∷ []) || tag_is selected (0xa0 ∷ []) || tag_is selected (0xa1 ∷ []))
        ≡ true
      → IsSelected selected
  is_selected h = ground (
    arith,
    h,
    bytes_eq_iff selected.tag (0x30 ∷ []),
    bytes_eq_iff selected.tag (0xa0 ∷ []),
    bytes_eq_iff selected.tag (0xa1 ∷ []),
  )

  not_selected :
      (tag_is selected (0x30 ∷ []) || tag_is selected (0xa0 ∷ []) || tag_is selected (0xa1 ∷ []))
        ≡ false
      → IsSelected selected
      → ⊥
  not_selected h c = ground (
    arith,
    h,
    c,
    bytes_eq_iff selected.tag (0x30 ∷ []),
    bytes_eq_iff selected.tag (0xa0 ∷ []),
    bytes_eq_iff selected.tag (0xa1 ∷ []),
  )

  selected_part-Cut : Cut (selected_part bytes selected)
  unfolding selected_part
  selected_part-Cut = elim (Bool-cases (tag_is selected (0xa2 ∷ []))) [
    | inl unsigned ↦
        rw unsigned (inl (λ c. ground (arith, c, tag_is_inv selected (0xa2 ∷ []) unsigned), refl))
    | inr other ↦
        rw other
          (elim (Bool-cases (
            tag_is selected (0x30 ∷ [])
            || tag_is selected (0xa0 ∷ [])
            || tag_is selected (0xa1 ∷ []))) [
              | inr neither ↦ rw neither (inl (not_selected neither, refl))
              | inl choice ↦ rw choice (
                  on_ok_keeps Cut (child_spans bytes selected) _ (λ e. tt)
                    (λ spans found. signed_part-Cut spans (is_selected choice) found))
            ])
  ]

abbrev Extracts : Bytes → Result Bytes → Type 0
Extracts bytes (ok part) = IsExtracted bytes part
Extracts bytes (err e) = Unit {0}

abbrev Sole : Bytes → TlvSpan → Result TlvSpan → Type 0
Sole bytes parent (ok child) =
    (parse_tlv_span bytes parent.value_start ≡ ok child) × (child.span_end ≡ parent.value_end)
Sole bytes parent (err e) = Unit {0}

only_child_lem :
    (bytes : Bytes) (parent child : TlvSpan)
    → only_child_span bytes parent ≡ ok child
    → (parse_tlv_span bytes parent.value_start ≡ ok child) × (child.span_end ≡ parent.value_end)
unfolding only_child_span
only_child_lem bytes parent child h = subst (Sole bytes parent) h (
    on_ok_keeps (Sole bytes parent) (parse_tlv_span bytes parent.value_start) _ (λ e. tt)
      (λ found parsed. elim (Bool-cases (found.span_end == parent.value_end)) [
        | inr other ↦ rw other tt
        | inl reached ↦ rw reached (parsed, ground (arith, reached))
      ]))

extracted :
    (bytes : Bytes) (root selected : TlvSpan) (r : Result Bytes)
    → ((part : Bytes) → Taken bytes selected part → IsExtracted bytes part)
    → Cut bytes selected r
    → Extracts bytes r
extracted bytes root selected (ok part) f cut = f part cut
extracted bytes root selected (err e) f cut = tt

raw-Extracts : (bytes : Bytes) → Extracts bytes (raw_signed_data_from_result_der bytes)
unfolding raw_signed_data_from_result_der only_child_span
raw-Extracts bytes =
    on_ok_keeps (Extracts bytes) (parse_tlv_span bytes 0) _ (λ e. tt)
      (λ root whole. elim (Bool-cases (root.span_end == length bytes)) [
        | inr shorter ↦ rw shorter tt
        | inl complete ↦ rw complete (elim (Bool-cases (tag_is root (0xbf ∷ 0x51 ∷ []))) [
          | inr other ↦ rw other tt
          | inl tagged ↦ rw tagged (
              on_ok_keeps (Extracts bytes) (only_child_span bytes root) _ (λ e. tt)
                (λ selected chosen.
                  let (found, sole) = only_child_lem bytes root selected chosen in
                  extracted bytes root selected (selected_part bytes selected)
                    (λ part taken. record {
                      root = root;
                      whole = whole;
                      complete = ground (arith, complete);
                      root_tagged = tag_is_inv root (0xbf ∷ 0x51 ∷ []) tagged;
                      selected = selected;
                      chosen = found;
                      sole = sole;
                      taken = taken;
                    })
                    (selected_part-Cut bytes selected)))
        ])
      ])

-- The raw signed data that rawSignedDataFromResultDER returns is taken from bytes that are one
-- BF51 object around one selected choice. It is nothing where the choice is none of the three
-- signed ones or where its last child is no signature. Otherwise the choice has just two children,
-- a SEQUENCE and a signature, and the raw signed data is the bytes of the SEQUENCE, tag and length
-- included, which starts where the choice's value does and has the fields of signed result data or
-- of a signed error.
pub raw_signed_data-IsExtracted :
    (bytes part : Bytes) → raw_signed_data_from_result_der bytes ≡ ok part → IsExtracted bytes part
raw_signed_data-IsExtracted bytes part h = subst (Extracts bytes) h (raw-Extracts bytes)
