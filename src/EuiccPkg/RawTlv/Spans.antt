-- ===== src/EuiccPkg/RawTlv/Spans.antt =====
-- About where the spans of a package result lie (euiccpkg/raw_tlv.go).
use openiotrsp.Common.{
  ℕ, zero, suc, ◌+◌, ◌-◌, ◌≤◌, ◌<◌, ◌≡◌, refl, subst, inl, inr, List, [], ◌∷◌, arith, ltb, leb,
  Bool-cases, length, drop, Bytes, eq_nat, eq_bytes, on_ok_keeps, Result, ok, err,
}
use openiotrsp.EuiccPkg.RawTlv.{
  TlvSpan, high_tag, tag_end, value_place, span_at, parse_tlv_span, child_loop, child_spans,
}

-- A span that starts at the offset, has a tag, a length and a value, and ends within the bytes.
pub record InBounds (bytes : Bytes) (offset : ℕ) (span : TlvSpan) : Type 0 where
  pub starts : span.tag_start ≡ offset
  pub headed : offset + 2 ≤ span.value_start
  pub valued : span.value_start ≤ span.value_end
  pub ends : span.span_end ≡ span.value_end
  pub within : span.span_end ≤ length bytes

abbrev Placed : Bytes → ℕ → Result TlvSpan → Type 0
Placed bytes offset (ok span) = InBounds bytes offset span
Placed bytes offset (err e) = Unit {0}

high_tag_later : (rest : Bytes) (offset stop : ℕ) → high_tag rest offset ≡ ok stop → offset < stop
unfolding high_tag
high_tag_later [] offset stop h = ground (arith, h)
high_tag_later (b ∷ rest) offset stop h = ground (arith, h, high_tag_later rest (offset + 1) stop)

tag_end_later : (bytes : Bytes) (offset stop : ℕ) → tag_end bytes offset ≡ ok stop → offset < stop
unfolding tag_end
tag_end_later bytes offset stop h =
    ground (arith, h, high_tag_later (drop (offset + 1) bytes) (offset + 1) stop)

value_place_later :
    (bytes : Bytes) (offset : ℕ) (place : ℕ × ℕ)
    → value_place bytes offset ≡ ok place
    → offset < place.0
unfolding value_place
value_place_later bytes offset place h = ground (arith, h)

span_at-Placed :
    (bytes : Bytes) (offset tag_stop : ℕ) (place : ℕ × ℕ)
    → offset + 2 ≤ place.0
    → Placed bytes offset (span_at bytes offset tag_stop place)
unfolding span_at
span_at-Placed bytes offset tag_stop place h =
    elim (Bool-cases (ltb (length bytes) (place.0 + place.1))) [
      | inl beyond ↦ rw beyond tt
      | inr fits ↦ rw fits (record {
        starts = refl;
        headed = h;
        valued = omega arith;
        ends = refl;
        within = ground (arith, fits);
      })
    ]

parse_tlv_span-Placed :
    (bytes : Bytes) (offset : ℕ) → Placed bytes offset (parse_tlv_span bytes offset)
unfolding parse_tlv_span
parse_tlv_span-Placed bytes offset = elim (Bool-cases (leb (length bytes) offset)) [
  | inl beyond ↦ rw beyond tt
  | inr there ↦ rw there (
      on_ok_keeps (Placed bytes offset) (tag_end bytes offset) _ (λ e. tt)
        (λ tag_stop et.
          on_ok_keeps (Placed bytes offset) (value_place bytes tag_stop) _ (λ e. tt)
            (λ place ep. span_at-Placed bytes offset tag_stop place (
              omega (
                arith,
                tag_end_later bytes offset tag_stop et,
                value_place_later bytes tag_stop place ep,
              )))))
]

-- A span that parseTLVSpan returns starts at the offset and ends within the bytes: a tag and a
-- length of at least one byte each, and then the value.
pub parse_tlv_span-InBounds :
    (bytes : Bytes) (offset : ℕ) (span : TlvSpan)
    → parse_tlv_span bytes offset ≡ ok span
    → InBounds bytes offset span
parse_tlv_span-InBounds bytes offset span h =
    subst (Placed bytes offset) h (parse_tlv_span-Placed bytes offset)

-- Spans that follow one another without a gap from the offset until the end is reached.
abbrev pub Tiles : Bytes → ℕ → ℕ → List TlvSpan → Type 0
Tiles bytes value_end offset [] = value_end ≤ offset
Tiles bytes value_end offset (span ∷ spans) =
    (offset < value_end) × InBounds bytes offset span × Tiles bytes value_end span.span_end spans

abbrev Tiled : Bytes → ℕ → ℕ → Result (List TlvSpan) → Type 0
Tiled bytes value_end offset (ok spans) = Tiles bytes value_end offset spans
Tiled bytes value_end offset (err e) = Unit {0}

child_loop-Tiled :
    (fuel : ℕ) (bytes : Bytes) (value_end offset : ℕ)
    → value_end ≤ offset + fuel
    → Tiled bytes value_end offset (child_loop fuel bytes value_end offset)
unfolding child_loop
child_loop-Tiled zero bytes value_end offset h = omega arith
child_loop-Tiled (suc fuel) bytes value_end offset h = elim (Bool-cases (leb value_end offset)) [
  | inl reached ↦ rw reached (ground (arith, reached))
  | inr before ↦ rw before (
      on_ok_keeps (Tiled bytes value_end offset) (parse_tlv_span bytes offset) _ (λ e. tt)
        (λ child parsed.
          let placed = parse_tlv_span-InBounds bytes offset child parsed in
          on_ok_keeps (Tiled bytes value_end offset)
            (child_loop fuel bytes value_end child.span_end) _ (λ e. tt)
            (λ later looped. (
              ground (arith, before),
              placed,
              subst (Tiled bytes value_end child.span_end) looped (
                  child_loop-Tiled fuel bytes value_end child.span_end
                    (omega (arith, placed.headed, placed.valued, placed.ends))),
            ))))
]

-- The children that are returned follow one another without a gap, from the start of the parent's
-- value until its end is reached, and each lies within the bytes.
pub child_spans-Tiles :
    (bytes : Bytes) (parent : TlvSpan) (spans : List TlvSpan)
    → child_spans bytes parent ≡ ok spans
    → Tiles bytes parent.value_end parent.value_start spans
unfolding child_spans
child_spans-Tiles bytes parent spans h = subst (Tiled bytes parent.value_end parent.value_start) h (
    child_loop-Tiled (parent.value_end - parent.value_start) bytes parent.value_end
      parent.value_start (omega arith))
