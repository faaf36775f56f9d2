-- ===== src/Pki/Hex.antt =====
-- About hexadecimal strings.
use openiotrsp.EuiccPkg.State.{hex_digit}
use openiotrsp.EuiccPkg.State.{hex_encode}
use openiotrsp.Pki.{hex_decode}
use openiotrsp.Pki.{hex_value}
use openiotrsp.Common.{
  ℕ, ◌+◌, ◌*◌, ◌/◌, ◌%◌, ◌<◌, ◌≡◌, refl, ap, ◌∙◌, some, [], ◌∷◌, arith, All, Bytes, eq_nat,
  eq_bytes, on_ok, ok,
}

digit_value : (n : ℕ) → n < 16 → hex_value (hex_digit n) ≡ some n
unfolding hex_value hex_digit
digit_value n h = ground arith

nothing_decoded : hex_decode [] ≡ ok []
unfolding hex_decode
nothing_decoded = refl

decode_step :
    (c d high low : ℕ) (digits : Bytes)
    → hex_value c ≡ some high
    → hex_value d ≡ some low
    → hex_decode (c ∷ d ∷ digits)
      ≡ on_ok (hex_decode digits) (λ bytes. ok ((high * 16 + low) ∷ bytes))
unfolding hex_decode
decode_step c d high low digits e f = rw (e, f, hex_decode) refl

-- Hexadecimal digits that EncodeToString wrote are read back as the bytes that were written.
pub hex_read_back :
    (bytes : Bytes) → All (λ b. b < 256) bytes → hex_decode (hex_encode bytes) ≡ ok bytes
unfolding hex_encode
hex_read_back [] h = nothing_decoded
hex_read_back (b ∷ bytes) h =
    decode_step (hex_digit (b / 16)) (hex_digit (b % 16)) (b / 16) (b % 16) (hex_encode bytes)
      (digit_value (b / 16) (omega (arith, h.0))) (digit_value (b % 16) (omega arith))
    ∙ rw (hex_read_back bytes h.1) (ap (λ n. ok (n ∷ bytes)) (omega arith))
