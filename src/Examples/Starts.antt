-- ===== src/Examples/Starts.antt =====
-- Starts of an exit node whose certificates are a checksum of their names, in an empty directory.
use reality_hydra.Base.{
  ◌≡◌, ◌&&◌, refl, true, false, [], ◌∷◌, Bytes, some, ok, err, Disk, whole, torn, join, ascii,
  starts_slash, needs_no_slash, exists, get, text_eq, write_file, write_result, take, if◌then◌else◌,
}
use reality_hydra.Config.{decode_pin}
use reality_hydra.Client.{verify_server_cert}
use reality_hydra.Server.Tls.{
  TlsMaterial, Certifier, cert_path, key_path, io, generate, pin_of, persist, load_or_generate,
  pin_base64,
}
use reality_hydra.Server.Tls.Kept.{Certifies}
use reality_hydra.Server.Tls.Pinned.{load_or_generate_pinned}
use reality_hydra.Server.Tls.Torn.{load_or_generate_torn}
use reality_hydra.Examples.Fixtures.{checksum, checksum-AreBytes, length-checksum}
use reality_hydra.Examples.Keys.{front_codec, front_encode, front-Standard}

abbrev pub certifier : Certifier
certifier = record {
  self_signed = λ randomness names. some (48 ∷ randomness, 49 ∷ randomness);
  sha256 = λ s. checksum [] s;
}

abbrev dir : Bytes
dir = ascii "/etc/hydra"

abbrev pub healthy : Disk
healthy = record { can_read = λ path. true; can_make = λ path. true; writes = λ path. whole }

abbrev full : Disk
full = record {
  can_read = λ path. true;
  can_make = λ path. true;
  writes = λ path. if text_eq path (key_path dir) then torn 1 else whole;
}

abbrev pub material : TlsMaterial
material = record { cert_der = 48 ∷ 7 ∷ []; key_der = 49 ∷ 7 ∷ []; pin = checksum [] (48 ∷ 7 ∷ []) }

pub certifies : (disk : Disk) (where_ : Bytes) → Certifies certifier disk where_
certifies disk where_ randomness names made e = λ empty. cc

generated : generate certifier (7 ∷ []) [] ≡ ok material
unfolding generate pin_of
generated = refl

started : (load_or_generate certifier healthy dir [] (7 ∷ []) []).1 ≡ ok (material, true)
unfolding load_or_generate generate pin_of exists get persist write_file write_result
started = refl

load_or_generate_pinned_example :
    let after = (load_or_generate certifier healthy dir [] (7 ∷ []) []).0 in
    (load_or_generate certifier healthy dir (ascii "example.org" ∷ []) (8 ∷ []) after
      ≡ (after, ok (material, false)))
    × (decode_pin {F = Bytes} front_codec (pin_base64 certifier front_encode material)
        ≡ ok material.pin)
    × (verify_server_cert certifier.sha256 (some material.pin) material.cert_der ≡ true)
load_or_generate_pinned_example =
    load_or_generate_pinned certifier healthy dir front_codec front_encode front-Standard [] []
      (ascii "example.org" ∷ []) (7 ∷ []) (8 ∷ []) material true (certifies healthy dir)
      (λ s. (checksum-AreBytes [] s, length-checksum [] s)) refl refl started

nothing_there : exists [] (cert_path dir) && exists [] (key_path dir) ≡ false
unfolding exists get
nothing_there = refl

cert_whole : full.writes (cert_path dir) ≡ whole
unfolding text_eq join ascii starts_slash needs_no_slash
cert_whole = refl

key_torn : full.writes (key_path dir) ≡ torn 1
unfolding text_eq join ascii starts_slash needs_no_slash
key_torn = refl

load_or_generate_torn_example :
    let (after, ended) = load_or_generate certifier full dir [] (7 ∷ []) [] in
    (ended ≡ err io)
    × (load_or_generate certifier healthy dir [] (8 ∷ []) after ≡ (
      after,
      ok (
        record {
          cert_der = material.cert_der;
          key_der = take 1 material.key_der;
          pin = material.pin;
        },
        false,
      ),
    ))
load_or_generate_torn_example =
    load_or_generate_torn certifier dir full healthy [] [] [] (7 ∷ []) (8 ∷ []) material 1
      (certifies full dir) nothing_there generated refl cert_whole key_torn refl refl
