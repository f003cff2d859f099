-- ===== src/Server/Tls/Pinned.antt =====
-- The pin that a start prints, in the client's configuration, and the later starts.
use reality_hydra.Base.{
  ◌≡◌, true, List, Bytes, AreBytes, length, ok, Disk, FileTable, some, text_eq_self, Bool, false,
}
use reality_hydra.Config.{Base64, decode_pin}
use reality_hydra.Config.Standard.{Standard, decode_pin-encode}
use reality_hydra.Client.{verify_server_cert}
use reality_hydra.Server.Tls.{
  TlsMaterial, Certifier, cert_path, key_path, load_or_generate, pin_base64,
}
use reality_hydra.Server.Tls.Kept.{Certifies, load_or_generate-Holds, load_again}

module _ {F : Type 0} (cert : Certifier) (disk : Disk) (dir : Bytes) (b64 : Base64)
    (base64_encode : Bytes → Bytes) (standard : Standard base64_encode b64) where
  -- Where base64, SHA-256 and the generator of certificates behave as documented and the two files may
  -- be read: after a start that succeeded, whether it loaded or generated its material, every later
  -- start gives the same material and leaves the files, whatever names and randomness it is given; the
  -- pin printed is read by the configuration, and a client that has it accepts the certificate that
  -- those starts present.
  pub load_or_generate_pinned :
      (files : FileTable) (sans sans' : List Bytes) (randomness randomness' : Bytes)
      (material : TlsMaterial) (new : Bool)
      → Certifies cert disk dir
      → ((s : Bytes) → AreBytes (cert.sha256 s) × (length (cert.sha256 s) ≡ 32))
      → disk.can_read (cert_path dir) ≡ true
      → disk.can_read (key_path dir) ≡ true
      → (load_or_generate cert disk dir sans randomness files).1 ≡ ok (material, new)
      → let after = (load_or_generate cert disk dir sans randomness files).0 in
        (load_or_generate cert disk dir sans' randomness' after ≡ (after, ok (material, false)))
        × (decode_pin {F = F} b64 (pin_base64 cert base64_encode material) ≡ ok material.pin)
        × (verify_server_cert cert.sha256 (some material.pin) material.cert_der ≡ true)
  unfolding pin_base64 verify_server_cert
  load_or_generate_pinned files sans sans' randomness randomness' material new certifies digest may
        may' done =
      let held =
        load_or_generate-Holds cert disk dir files sans randomness material new certifies done in
      (
        load_again cert disk dir _ material sans' randomness' may may' held,
        rw held.pinned (
            decode_pin-encode b64 base64_encode standard (cert.sha256 material.cert_der)
              (digest material.cert_der).0 (digest material.cert_der).1),
        rw held.pinned (text_eq_self (cert.sha256 material.cert_der)),
      )
