-- ===== src/Config/Standard.antt =====
-- base64 as documented, and what the configuration makes of an encoded text.
use mathlib.Core.Path.{subst}
use reality_hydra.Base.{
  ℕ, ◌*◌, ◌≤◌, ◌<◌, ◌≡◌, ◌≢◌, refl, ap, ◌∙◌, inl, inr, [], ◌∷◌, ◌++◌, Bytes, AreBytes, trim, length,
  All, take, IsPlain, trim_plain, Bool-cases, text_eq, text_eq→eq, ok, arith, All-take, ==_iff,
}
use reality_hydra.Pool.{Field}
use reality_hydra.Config.{Base64, decode_b64, decode_key, decode_pin, strip_b64, b64_prefix}

-- A character from `+` to `z` that is not a colon, as those of base64 are.
abbrev pub IsB64 : ℕ → Type 0
IsB64 c = (43 ≤ c) × ((c < 123) × (c ≢ 58))

-- What base64 of the standard alphabet does: an encoded text is of its characters and decodes to what
-- was encoded; four characters, none of them padding, stand for three bytes.
pub record Standard (base64_encode : Bytes → Bytes) (b64 : Base64) : Type 0 where
  pub alphabet : (bytes : Bytes) → AreBytes bytes → All IsB64 (base64_encode bytes)
  pub decodes : (bytes : Bytes) → AreBytes bytes → b64.decode (base64_encode bytes) ≡ ok bytes
  pub unpadded :
      (s v : Bytes) → All (λ c. c ≢ 61) s → b64.decode s ≡ ok v → 4 * length v ≡ 3 * length s

plain : (s : Bytes) → All IsB64 s → All IsPlain s
plain [] a = tt
plain (c ∷ s) a = ((omega (arith, a.0.0), omega (arith, a.0.1.0)), plain s a.1)

not_prefix : (s : Bytes) → All IsB64 s → s ≢ b64_prefix
not_prefix s a e = (subst (All IsB64) e a).1.1.1.1.1.1.0.1.1 refl

strip_plain : (s : Bytes) → All IsB64 s → strip_b64 s ≡ s
unfolding strip_b64
strip_plain s a = elim (Bool-cases (text_eq (take 7 s) b64_prefix)) [
  | inl same ↦ absurd (not_prefix (take 7 s) (All-take IsB64 7 s a) (text_eq→eq _ _ same))
  | inr other ↦ rw other refl
]

pub trim_strip : (s : Bytes) → All IsB64 s → trim (strip_b64 s) ≡ s
trim_strip s a = ap trim (strip_plain s a) ∙ trim_plain s (plain s a)

module _ {F : Type 0} (b64 : Base64) (base64_encode : Bytes → Bytes)
    (standard : Standard base64_encode b64) where
  pub decode_b64-encode :
      (field : Field) (bytes : Bytes)
      → AreBytes bytes
      → decode_b64 {F = F} b64 field (base64_encode bytes) ≡ ok bytes
  unfolding decode_b64
  decode_b64-encode field bytes a =
      rw (trim_strip (base64_encode bytes) (standard.alphabet bytes a), standard.decodes bytes a)
        refl

  -- With the prefix that `init` writes.
  pub decode_b64-prefix :
      (field : Field) (bytes : Bytes)
      → AreBytes bytes
      → decode_b64 {F = F} b64 field (b64_prefix ++ base64_encode bytes) ≡ ok bytes
  unfolding decode_b64 strip_b64 text_eq
  decode_b64-prefix field bytes a =
      let text = base64_encode bytes in
      rw (trim_plain text (plain text (standard.alphabet bytes a)), standard.decodes bytes a) refl

  pub decode_pin-encode :
      (pin : Bytes)
      → AreBytes pin
      → length pin ≡ 32
      → decode_pin {F = F} b64 (base64_encode pin) ≡ ok pin
  unfolding decode_pin
  decode_pin-encode pin a size = rw (decode_b64-encode _ pin a, (==_iff _ _).1 size) refl

  pub decode_key-encoded :
      (field : Field) (key : Bytes)
      → AreBytes key
      → length key ≡ 32
      → decode_key {F = F} b64 field (base64_encode key) ≡ ok key
  unfolding decode_key
  decode_key-encoded field key a size = rw (decode_b64-encode field key a, (==_iff _ _).1 size) refl

  pub decode_key-prefix :
      (field : Field) (key : Bytes)
      → AreBytes key
      → length key ≡ 32
      → decode_key {F = F} b64 field (b64_prefix ++ base64_encode key) ≡ ok key
  unfolding decode_key
  decode_key-prefix field key a size = rw (decode_b64-prefix field key a, (==_iff _ _).1 size) refl
