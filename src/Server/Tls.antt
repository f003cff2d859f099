-- ===== src/Server/Tls.antt =====
-- crates/hydra-server/src/tls.rs: the certificate and the key of the exit node, kept as two files.
-- rcgen and SHA-256 are parameters; the randomness of a generation is an argument.
pub mod Kept
pub mod Pinned
pub mod Torn
use reality_hydra.Base.{
  Option, none, some, Bool, true, false, ◌&&◌, List, [], ◌∷◌, Bytes, ascii, Result, ok, err, panic,
  ◌>>=◌, ok_or, if◌then◌else◌, join, exists, read_file, write_file, Disk, FileTable,
}

-- The errors of this file; their texts are left out.
pub data TlsError : Type 0 where
  cert_gen : TlsError
  cert_read : Bytes → TlsError
  cert_parse : Bytes → TlsError
  io : TlsError

pub record TlsMaterial : Type 0 where
  pub cert_der : Bytes
  pub key_der : Bytes
  pub pin : Bytes

-- `rcgen::generate_simple_self_signed` by its randomness, the certificate and the key of what it
-- made; and `Sha256`.
pub record Certifier : Type 0 where
  pub self_signed : Bytes → List Bytes → Option (Bytes × Bytes)
  pub sha256 : Bytes → Bytes

-- `der_paths`
abbrev pub cert_path : Bytes → Bytes
cert_path dir = join dir (ascii "cert.der")

abbrev pub key_path : Bytes → Bytes
key_path dir = join dir (ascii "key.der")

unfoldable pub names_of : List Bytes → List Bytes
names_of [] = ascii "hydra.local" ∷ []
names_of (s ∷ ss) = s ∷ ss

-- The closure `read` of `load_der`.
unfoldable pub read_der : Disk → FileTable → Bytes → Result TlsError Bytes
read_der disk files path = ok_or (read_file disk files path) (cert_read path)

module _ (cert : Certifier) where
  unfoldable pub pin_of : Bytes → Bytes
  pin_of cert_der = cert.sha256 cert_der

  material_of : Option (Bytes × Bytes) → Result TlsError TlsMaterial
  unfolding pin_of
  material_of none = err cert_gen
  material_of (some (cert_der, key_der)) =
      ok (record { cert_der = cert_der; key_der = key_der; pin = pin_of cert_der })

  unfoldable pub generate : Bytes → List Bytes → Result TlsError TlsMaterial
  unfolding material_of names_of
  generate randomness sans = material_of (cert.self_signed randomness (names_of sans))

  -- From both files read on: the test on the certificate.
  loaded : Bytes → Bytes → Bytes → Result TlsError TlsMaterial
  unfolding pin_of
  loaded path [] key_der = err (cert_parse path)
  loaded path (b ∷ bs) key_der =
      ok (record { cert_der = b ∷ bs; key_der = key_der; pin = pin_of (b ∷ bs) })

  unfoldable pub load_der : Disk → FileTable → Bytes → Bytes → Result TlsError TlsMaterial
  unfolding loaded read_der
  load_der disk files cert_file key_file = read_der disk files cert_file >>= λ cert_der.
      read_der disk files key_file >>= λ key_der. loaded cert_file cert_der key_der

  -- The second write of `persist`, if the first succeeded.
  persist_key :
      Disk → FileTable → Bool → Bytes → TlsMaterial → FileTable × Result TlsError (Unit {0})
  unfolding write_file
  persist_key disk files false dir material = (files, err io)
  persist_key disk files true dir material =
      let (after, done) = write_file disk files (key_path dir) material.key_der in
      (after, if done then ok tt else err io)

  unfoldable pub persist :
      Disk → FileTable → Bytes → TlsMaterial → FileTable × Result TlsError (Unit {0})
  unfolding persist_key write_file
  persist disk files dir material =
      if disk.can_make dir
      then (let (after, done) = write_file disk files (cert_path dir) material.cert_der in
          persist_key disk after done dir material)
      else (files, err io)

  -- From a generation on.
  fresh :
      Disk
      → FileTable
      → Bytes
      → Result TlsError TlsMaterial
      → FileTable × Result TlsError (TlsMaterial × Bool)
  unfolding persist
  fresh disk files dir (ok material) =
      let (after, done) = persist disk files dir material in
      (after, done >>= λ _. ok (material, true))
  fresh disk files dir (err e) = (files, err e)
  fresh disk files dir panic = (files, panic)

  unfoldable pub load_or_generate :
      Disk
      → Bytes
      → List Bytes
      → Bytes
      → FileTable
      → FileTable × Result TlsError (TlsMaterial × Bool)
  unfolding exists load_der generate fresh
  load_or_generate disk dir sans randomness files =
      if exists files (cert_path dir) && exists files (key_path dir)
      then (
        files,
        load_der disk files (cert_path dir) (key_path dir) >>= λ material. ok (material, false),
      )
      else fresh disk files dir (generate randomness sans)

  unfoldable pub pin_base64 : (Bytes → Bytes) → TlsMaterial → Bytes
  pin_base64 base64_encode material = base64_encode material.pin
