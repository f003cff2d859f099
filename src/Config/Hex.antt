-- ===== src/Config/Hex.antt =====
-- `decode_hex` against Rust's `{:02x}`.
use reality_hydra.Base.{
  ◌*◌, IsPlain, trim_plain, All, true, length, ◌==◌, ℕ, ◌/◌, ◌%◌, ◌≡◌, ◌<◌, refl, ap, [], ◌∷◌, ◌++◌,
  Bytes, AreBytes, hex_digit, hex_byte, arith, ok,
}
use reality_hydra.Config.{nibble, decode_pairs, decode_hex}

-- Bytes as text, two digits each.
unfoldable pub hex_text : Bytes → Bytes
hex_text [] = []
hex_text (b ∷ bs) = hex_byte b ++ hex_text bs

nibble-hex_digit : (n : ℕ) → n < 16 → nibble (hex_digit n) ≡ ok n
unfolding nibble hex_digit
nibble-hex_digit n h = ground arith

decode_pairs-hex_text : (bs : Bytes) → AreBytes bs → decode_pairs (hex_text bs) ≡ ok bs
unfolding decode_pairs hex_text hex_byte
decode_pairs-hex_text [] h = refl
decode_pairs-hex_text (b ∷ bs) h =
    rw
      (
        nibble-hex_digit (b / 16) (omega (arith, h.0)),
        nibble-hex_digit (b % 16) (omega arith),
        decode_pairs-hex_text bs h.1,
      )
      (ap (λ n. ok (n ∷ bs)) (omega arith))

hex_digit-IsPlain : (n : ℕ) → n < 16 → IsPlain (hex_digit n)
unfolding hex_digit
hex_digit-IsPlain n h = ground arith

pub hex_text-IsPlain : (bs : Bytes) → AreBytes bs → All IsPlain (hex_text bs)
unfolding hex_text hex_byte
hex_text-IsPlain [] h = tt
hex_text-IsPlain (b ∷ bs) h = (
  hex_digit-IsPlain (b / 16) (omega (arith, h.0)),
  (hex_digit-IsPlain (b % 16) (omega arith), hex_text-IsPlain bs h.1),
)

pub length-hex_text : (bs : Bytes) → length (hex_text bs) ≡ 2 * length bs
unfolding hex_text hex_byte
length-hex_text [] = omega arith
length-hex_text (b ∷ bs) = omega (arith, length-hex_text bs)

even_length : (bs : Bytes) → (length (hex_text bs) % 2 == 0) ≡ true
even_length bs = ground (arith, length-hex_text bs)

-- The text of any bytes, two lower-case hex digits for each, decodes to those bytes.
pub decode_hex-hex_text : (bs : Bytes) → AreBytes bs → decode_hex (hex_text bs) ≡ ok bs
unfolding decode_hex
decode_hex-hex_text bs h =
    rw (trim_plain (hex_text bs) (hex_text-IsPlain bs h), even_length bs)
      (decode_pairs-hex_text bs h)
