-- ===== src/Asn1/BitString/RoundTrip.antt =====
-- About bit strings that are read as they were written (asn1/codec.go).
use openiotrsp.Common.{
  ℕ, zero, suc, ◌+◌, ◌-◌, ◌*◌, ◌/◌, ◌%◌, ◌^◌, ◌≤◌, ◌<◌, ◌≡◌, refl, sym, ap, ◌∙◌, ◌⊎◌, inl, inr,
  Bool, true, false, List, [], ◌∷◌, ◌++◌, arith, length, take, Bytes, eq_nat, eq_bytes, ok,
}
use openiotrsp.Asn1.BitString.{
  marshal_bit_string, unmarshal_bit_string, pack_bits, pack_byte, unpack_bits, last_byte, bit_value,
  byte_bits, is_set,
}

bit_value_le : (a : Bool) → bit_value a ≤ 1
bit_value_le true = omega arith
bit_value_le false = omega arith

is_set_lem : (a : Bool) (x w : ℕ) → (x / w) % 2 ≡ bit_value a → is_set x w ≡ a
is_set_lem true x w h = ground (arith, h)
is_set_lem false x w h = ground (arith, h)

module _ (a b c d e f g h : Bool) where
  abbrev byte : ℕ
  unfolding pack_byte
  byte = pack_byte 128 (a ∷ b ∷ c ∷ d ∷ e ∷ f ∷ g ∷ h ∷ [])

  full_byte : byte_bits byte ≡ a ∷ b ∷ c ∷ d ∷ e ∷ f ∷ g ∷ h ∷ []
  unfolding pack_byte
  full_byte =
      let e0 : is_set byte 128 ≡ a = is_set_lem a byte 128 (
        omega (
          arith,
          bit_value_le a,
          bit_value_le b,
          bit_value_le c,
          bit_value_le d,
          bit_value_le e,
          bit_value_le f,
          bit_value_le g,
          bit_value_le h,
        )) in
      let e1 : is_set byte 64 ≡ b = is_set_lem b byte 64 (
        omega (
          arith,
          bit_value_le a,
          bit_value_le b,
          bit_value_le c,
          bit_value_le d,
          bit_value_le e,
          bit_value_le f,
          bit_value_le g,
          bit_value_le h,
        )) in
      let e2 : is_set byte 32 ≡ c = is_set_lem c byte 32 (
        omega (
          arith,
          bit_value_le a,
          bit_value_le b,
          bit_value_le c,
          bit_value_le d,
          bit_value_le e,
          bit_value_le f,
          bit_value_le g,
          bit_value_le h,
        )) in
      let e3 : is_set byte 16 ≡ d = is_set_lem d byte 16 (
        omega (
          arith,
          bit_value_le a,
          bit_value_le b,
          bit_value_le c,
          bit_value_le d,
          bit_value_le e,
          bit_value_le f,
          bit_value_le g,
          bit_value_le h,
        )) in
      let e4 : is_set byte 8 ≡ e = is_set_lem e byte 8 (
        omega (
          arith,
          bit_value_le a,
          bit_value_le b,
          bit_value_le c,
          bit_value_le d,
          bit_value_le e,
          bit_value_le f,
          bit_value_le g,
          bit_value_le h,
        )) in
      let e5 : is_set byte 4 ≡ f = is_set_lem f byte 4 (
        omega (
          arith,
          bit_value_le a,
          bit_value_le b,
          bit_value_le c,
          bit_value_le d,
          bit_value_le e,
          bit_value_le f,
          bit_value_le g,
          bit_value_le h,
        )) in
      let e6 : is_set byte 2 ≡ g = is_set_lem g byte 2 (
        omega (
          arith,
          bit_value_le a,
          bit_value_le b,
          bit_value_le c,
          bit_value_le d,
          bit_value_le e,
          bit_value_le f,
          bit_value_le g,
          bit_value_le h,
        )) in
      let e7 : is_set byte 1 ≡ h = is_set_lem h byte 1 (
        omega (
          arith,
          bit_value_le a,
          bit_value_le b,
          bit_value_le c,
          bit_value_le d,
          bit_value_le e,
          bit_value_le f,
          bit_value_le g,
          bit_value_le h,
        )) in
      cc

abbrev zeros : ℕ → List Bool
zeros zero = []
zeros (suc n) = false ∷ zeros n

-- How many bits of the last byte are padding.
abbrev padding : List Bool → ℕ
padding bits = (8 - length bits % 8) % 8

abbrev last_of : Bytes → ℕ
last_of [] = 0
last_of (head ∷ bytes) = last_byte head bytes

-- What the bytes of some bits hold: the bits and then the padding.
record Holds (bits : List Bool) : Type 0 where
  long : length (pack_bits bits) * 8 ≡ length bits + padding bits
  unpacked : unpack_bits (pack_bits bits) ≡ bits ++ zeros (padding bits)
  clear : last_of (pack_bits bits) % 2 ^ padding bits ≡ 0

last_step :
    (head : ℕ) (bytes : Bytes)
    → ((bytes ≡ []) × (last_of (head ∷ bytes) ≡ head)) ⊎ (last_of (head ∷ bytes) ≡ last_of bytes)
unfolding last_byte
last_step head [] = inl (refl, refl)
last_step head (next ∷ bytes) = inr refl

eight_more : (n : ℕ) → (8 - (n + 8) % 8) % 8 ≡ (8 - n % 8) % 8
eight_more n = omega arith

full_clear :
    (head : ℕ) (rest : List Bool)
    → Holds rest
    → last_of (head ∷ pack_bits rest) % 2 ^ padding rest ≡ 0
full_clear head rest v = elim (last_step head (pack_bits rest)) [
  | inl (none_left, e) ↦
      let long = v.long in
      let p : padding rest ≡ 0 = omega (arith, ap length none_left) in rw p (omega arith)
  | inr e ↦ rw e v.clear
]

pack-Holds : (bits : List Bool) → Holds bits
unfolding pack_bits unpack_bits last_byte pack_byte
pack-Holds [] = record { long = refl; unpacked = refl; clear = refl }
pack-Holds (a ∷ []) = record {
  long = refl;
  unpacked = ap (λ l. l ++ []) (full_byte a false false false false false false false);
  clear = omega arith;
}
pack-Holds (a ∷ b ∷ []) = record {
  long = refl;
  unpacked = ap (λ l. l ++ []) (full_byte a b false false false false false false);
  clear = omega arith;
}
pack-Holds (a ∷ b ∷ c ∷ []) = record {
  long = refl;
  unpacked = ap (λ l. l ++ []) (full_byte a b c false false false false false);
  clear = omega arith;
}
pack-Holds (a ∷ b ∷ c ∷ d ∷ []) = record {
  long = refl;
  unpacked = ap (λ l. l ++ []) (full_byte a b c d false false false false);
  clear = omega arith;
}
pack-Holds (a ∷ b ∷ c ∷ d ∷ e ∷ []) = record {
  long = refl;
  unpacked = ap (λ l. l ++ []) (full_byte a b c d e false false false);
  clear = omega arith;
}
pack-Holds (a ∷ b ∷ c ∷ d ∷ e ∷ f ∷ []) = record {
  long = refl;
  unpacked = ap (λ l. l ++ []) (full_byte a b c d e f false false);
  clear = omega arith;
}
pack-Holds (a ∷ b ∷ c ∷ d ∷ e ∷ f ∷ g ∷ []) = record {
  long = refl;
  unpacked = ap (λ l. l ++ []) (full_byte a b c d e f g false);
  clear = omega arith;
}
pack-Holds (a ∷ b ∷ c ∷ d ∷ e ∷ f ∷ g ∷ h ∷ rest) =
    let v = pack-Holds rest in
    let p : padding (a ∷ b ∷ c ∷ d ∷ e ∷ f ∷ g ∷ h ∷ rest) ≡ padding rest = omega arith in
    record {
      long = omega (arith, v.long, p);
      unpacked =
          ap (λ l. l ++ unpack_bits (pack_bits rest)) (full_byte a b c d e f g h)
          ∙ ap (λ r. a ∷ b ∷ c ∷ d ∷ e ∷ f ∷ g ∷ h ∷ r)
              (v.unpacked ∙ ap (λ n. rest ++ zeros n) (sym p));
      clear = rw p (full_clear (byte a b c d e f g h) rest v);
    }

take_prefix : (bits more : List Bool) → take (length bits) (bits ++ more) ≡ bits
take_prefix [] more = refl
take_prefix (b ∷ bits) more = ap (◌∷◌ b) (take_prefix bits more)

read_packed :
    (unused : ℕ) (packed : Bytes) (bits : List Bool)
    → unused < 8
    → 0 < length bits
    → length packed * 8 ≡ length bits + unused
    → unpack_bits packed ≡ bits ++ zeros unused
    → last_of packed % 2 ^ unused ≡ 0
    → unmarshal_bit_string (unused ∷ packed) ≡ ok bits
unfolding unmarshal_bit_string
read_packed unused [] bits few some_bits long unpacked clear = absurd (omega arith)
read_packed unused (head ∷ bytes) bits few some_bits long unpacked clear =
    let n : length (head ∷ bytes) * 8 - unused ≡ length bits = omega arith in
    let same : take (length (head ∷ bytes) * 8 - unused) (unpack_bits (head ∷ bytes)) ≡ bits =
      rw (n, unpacked) (take_prefix bits (zeros unused)) in
    ground (arith, same)

-- A bit string of any length is decoded to the bits that it was encoded from.
pub bit_string_read_back :
    (bits : List Bool) → unmarshal_bit_string (marshal_bit_string bits) ≡ ok bits
unfolding unmarshal_bit_string marshal_bit_string
bit_string_read_back [] = refl
bit_string_read_back (b ∷ bits) =
    let v = pack-Holds (b ∷ bits) in
    read_packed (padding (b ∷ bits)) (pack_bits (b ∷ bits)) (b ∷ bits) (omega arith) (omega arith)
      v.long v.unpacked v.clear
