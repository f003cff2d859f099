-- ===== src/Cli/Keygen.antt =====
-- crates/hydra-cli/src/keygen.rs: the text of a fresh key pair. base64 and the writing of JSON are
-- parameters, the second with the error that it may answer.
pub mod Printed
use reality_hydra.Base.{List, [], ◌∷◌, ◌++◌, Bytes, Bool, ascii, if◌then◌else◌, Result, ok}
use reality_hydra.Config.Hex.{hex_text}
use reality_hydra.Reality.Auth.{X25519, generate_keypair}
use reality_hydra.Cli.{newline}

pub data KeyFormat : Type 0 where
  base64 : KeyFormat
  hex : KeyFormat

pub record KeygenArgs : Type 0 where
  pub format : KeyFormat
  pub json : Bool

-- `base64_encode` is the encoder of the standard alphabet, with padding.
unfoldable pub encode : (Bytes → Bytes) → Bytes → KeyFormat → Bytes
unfolding hex_text
encode base64_encode bytes base64 = base64_encode bytes
encode base64_encode bytes hex = hex_text bytes

-- The two lines and their headings.
unfoldable pub key_lines : Bytes → Bytes → Bytes
unfolding ascii
key_lines priv_s pub_s =
    ascii "privateKey (server realitySettings.privateKey):"
    ++ (newline
        ∷ (ascii "  "
            ++ (priv_s
                ++ (newline
                    ∷ (ascii "publicKey  (client pbk / [reality] public_key):"
                        ++ (newline ∷ (ascii "  " ++ pub_s)))))))

-- `secret` is what the generator of the system gave for the private key.
unfoldable pub run :
    {E : Type 0}
    → X25519
    → (Bytes → Bytes)
    → (List (Bytes × Bytes) → Result E Bytes)
    → Bytes
    → KeygenArgs
    → Result E Bytes
unfolding generate_keypair encode key_lines
run dh base64_encode to_string_pretty secret args =
    let (private, public) = generate_keypair dh secret in
    let priv_s = encode base64_encode private args.format in
    let pub_s = encode base64_encode public args.format in
    if args.json
    then to_string_pretty ((ascii "privateKey", priv_s) ∷ (ascii "publicKey", pub_s) ∷ [])
    else ok (key_lines priv_s pub_s)
