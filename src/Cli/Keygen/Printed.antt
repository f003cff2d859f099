-- ===== src/Cli/Keygen/Printed.antt =====
-- How a configuration reads what `keygen` prints.
use reality_hydra.Base.{
  ℕ, ◌<◌, ◌≡◌, ◌≢◌, refl, ap, ◌∙◌, sym, [], ◌∷◌, Bytes, AreBytes, trim, map_err, err, panic, ◌>>=◌,
  ◌/◌, ◌%◌, hex_byte, length, All, hex_digit, ok, Result, arith,
}
use reality_hydra.Pool.{Field, PoolError, base64 as base64_error, bad_reality_key_len}
use reality_hydra.Config.{
  Base64, decode_hex, decode_b64, decode_key, strip_b64, reality_key_len, try_into,
}
use reality_hydra.Config.Hex.{hex_text, decode_hex-hex_text, length-hex_text}
use reality_hydra.Config.Standard.{IsB64, Standard, trim_strip, decode_key-encoded}
use reality_hydra.Cli.Keygen.{base64, hex, encode}

-- The digits of hexadecimal are characters of base64, and none is padding.
pub hex_digit-IsB64 : (n : ℕ) → n < 16 → IsB64 (hex_digit n)
unfolding hex_digit
hex_digit-IsB64 n h = ground arith

hex_digit_unpadded : (n : ℕ) → n < 16 → hex_digit n ≢ 61
unfolding hex_digit
hex_digit_unpadded n h = ground arith

pub All-hex_text :
    (P : ℕ → Type 0) (bs : Bytes)
    → ((n : ℕ) → n < 16 → P (hex_digit n))
    → AreBytes bs
    → All P (hex_text bs)
unfolding hex_text hex_byte
All-hex_text P [] f a = tt
All-hex_text P (b ∷ bs) f a =
    (f (b / 16) (omega (arith, a.0)), (f (b % 16) (omega arith), All-hex_text P bs f a.1))

-- A value of another length is no key.
not_a_key :
    {F : Type 0} (field : Field) (r : Result Bytes Bytes) (read : Bytes)
    → ((v : Bytes) → r ≡ ok v → length v ≢ 32)
    → (map_err {F = PoolError F} (base64_error field) r
        >>= try_into reality_key_len (bad_reality_key_len field))
      ≢ ok read
not_a_key field (ok v) read size made = ground (arith, size v refl, made)
not_a_key field (err e) read size made = cc
not_a_key field panic read size made = cc

module _ {F : Type 0} (b64 : Base64) (base64_encode : Bytes → Bytes)
    (standard : Standard base64_encode b64) where
  decode_key-hex :
      (field : Field) (key read : Bytes)
      → AreBytes key
      → length key ≡ 32
      → decode_key {F = F} b64 field (encode base64_encode key hex) ≢ ok read
  unfolding decode_key decode_b64 encode
  decode_key-hex field key read bytes size =
      let alphabet = All-hex_text IsB64 key hex_digit-IsB64 bytes in
      let unpadded = All-hex_text (λ c. c ≢ 61) key hex_digit_unpadded bytes in
      not_a_key field (b64.decode (trim (strip_b64 (hex_text key)))) read λ v got.
        let whole =
          standard.unpadded (hex_text key) v unpadded
            (ap b64.decode (sym (trim_strip (hex_text key) alphabet)) ∙ got) in
        let digits = length-hex_text key in λ short. omega (arith, whole, digits, size, short)

  -- Where base64 behaves as documented, a key of 32 bytes in the format `base64` is read back from a
  -- configuration, and in the format `hex` is refused there, although the digits are those of the key.
  pub decode_key-encode :
      (field : Field) (key : Bytes)
      → AreBytes key
      → length key ≡ 32
      → (decode_key {F = F} b64 field (encode base64_encode key base64) ≡ ok key)
        × ((read : Bytes) → decode_key {F = F} b64 field (encode base64_encode key hex) ≢ ok read)
        × (decode_hex (encode base64_encode key hex) ≡ ok key)
  unfolding encode
  decode_key-encode field key bytes size = (
    decode_key-encoded b64 base64_encode standard field key bytes size,
    λ read. decode_key-hex field key read bytes size,
    decode_hex-hex_text key bytes,
  )
