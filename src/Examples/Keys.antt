-- ===== src/Examples/Keys.antt =====
-- A codec that pads in front and writes hexadecimal, and the key 7, 7, ….
use reality_hydra.Base.{
  ℕ, ◌*◌, ◌/◌, ◌%◌, ◌≡◌, ◌≢◌, refl, sym, ap, ◌∙◌, inl, inr, [], ◌∷◌, Bytes, length,
  length-replicate, replicate, All, if-cases, ◌==◌, ==_iff, if◌then◌else◌, Result, ok, err, panic,
  ok-injective, arith,
}
use reality_hydra.Pool.{HexError, in_public_key}
use reality_hydra.Config.{Base64, decode_hex, decode_key}
use reality_hydra.Config.Hex.{hex_text, decode_hex-hex_text}
use reality_hydra.Config.Standard.{IsB64, Standard}
use reality_hydra.Cli.Keygen.{base64, hex, encode}
use reality_hydra.Cli.Keygen.Printed.{hex_digit-IsB64, All-hex_text, decode_key-encode}

from_hex : Result HexError Bytes → Result Bytes Bytes
from_hex (ok v) = ok v
from_hex (err e) = err []
from_hex panic = panic

unpadded_value : Bytes → Result Bytes Bytes
unpadded_value s = if length s % 4 == 0 then ok (replicate (length s / 4 * 3) 0) else err []

front_decode : Bytes → Result Bytes Bytes
front_decode [] = ok []
front_decode (c ∷ s) = if c == 61 then from_hex (decode_hex s) else unpadded_value (c ∷ s)

pub front_codec : Base64
unfolding front_decode
front_codec = record { decode = front_decode }

unfoldable pub front_encode : Bytes → Bytes
unfolding hex_text
front_encode bytes = 61 ∷ hex_text bytes

unpadded_value-length : (s v : Bytes) → unpadded_value s ≡ ok v → 4 * length v ≡ 3 * length s
unfolding unpadded_value
unpadded_value-length s v e = elim (if-cases (length s % 4 == 0) e) [
  | inl whole ↦
      let quarters = (==_iff (length s % 4) 0).0 whole.0 in
      let size = ap length (sym (ok-injective whole.1)) ∙ length-replicate (length s / 4 * 3) 0 in
      omega (arith, quarters, size)
  | inr part ↦ absurd cc
]

unpadded_lem :
    (s v : Bytes) → All (λ c. c ≢ 61) s → front_decode s ≡ ok v → 4 * length v ≡ 3 * length s
unfolding front_decode
unpadded_lem [] v plain e = ap (λ l. 4 * length l) (sym (ok-injective e))
unpadded_lem (c ∷ s) v plain e = elim (if-cases (c == 61) e) [
  | inl pad ↦ absurd (plain.0 ((==_iff c 61).0 pad.0))
  | inr rest ↦ unpadded_value-length (c ∷ s) v rest.1
]

pub front-Standard : Standard front_encode front_codec
unfolding front_encode front_codec from_hex
front-Standard = record {
  alphabet = λ bytes a. (ground arith, All-hex_text IsB64 bytes hex_digit-IsB64 a);
  decodes = λ bytes a. rw (decode_hex-hex_text bytes a) refl;
  unpadded = unpadded_lem;
}

abbrev seven : Bytes
seven = replicate 32 7

decode_key-encode_example :
    (decode_key {F = ℕ} front_codec in_public_key (encode front_encode seven base64) ≡ ok seven)
    × ((read : Bytes)
        → decode_key {F = ℕ} front_codec in_public_key (encode front_encode seven hex) ≢ ok read)
    × (decode_hex (encode front_encode seven hex) ≡ ok seven)
decode_key-encode_example =
    decode_key-encode front_codec front_encode front-Standard in_public_key seven (ground arith)
      refl
