-- ===== src/Server/Tls/Torn.antt =====
-- A start whose write of the key is cut off.
use reality_hydra.Base.{
  ◌≡◌, refl, ap, Bool, true, false, ◌&&◌, ℕ, take, List, Bytes, ok, err, Disk, FileTable, exists,
  put, Write, whole, torn, write_file, write_result,
}
use reality_hydra.Server.Tls.{
  TlsMaterial, Certifier, io, cert_path, key_path, generate, persist, persist_key, fresh,
  load_or_generate,
}
use reality_hydra.Server.Tls.Kept.{Certifies, generate-IsMade, put-Holds, load_again}

writes_as :
    (disk : Disk) (files : FileTable) (path contents : Bytes) (w : Write)
    → disk.writes path ≡ w
    → write_file disk files path contents ≡ write_result files path contents w
unfolding write_file
writes_as disk files path contents w e = ap (write_result files path contents) e

module _ (cert : Certifier) (dir : Bytes) where
  torn_start :
      (disk : Disk) (files : FileTable) (sans : List Bytes) (randomness : Bytes)
      (material : TlsMaterial) (n : ℕ)
      → exists files (cert_path dir) && exists files (key_path dir) ≡ false
      → generate cert randomness sans ≡ ok material
      → disk.can_make dir ≡ true
      → disk.writes (cert_path dir) ≡ whole
      → disk.writes (key_path dir) ≡ torn n
      → load_or_generate cert disk dir sans randomness files ≡ (
        put (put files (cert_path dir) material.cert_der) (key_path dir) (take n material.key_der),
        err io,
      )
  unfolding load_or_generate fresh persist persist_key write_result
  torn_start disk files sans randomness material n missing made can cut cut' =
      rw
        (
          missing,
          made,
          fresh,
          persist,
          can,
          writes_as disk files (cert_path dir) material.cert_der whole cut,
          persist_key,
          writes_as disk _ (key_path dir) material.key_der (torn n) cut',
        )
        (ap (λ (r : FileTable × Bool). (put r.0 (key_path dir) (take n material.key_der), err io))
          (writes_as disk files (cert_path dir) material.cert_der whole cut))

  -- Where a start that generates its material writes the certificate and then only the first `n` bytes
  -- of the key, it ends with an error; but every later start that may read the files succeeds without
  -- generating, with the cut key, and leaves the files as they are.
  pub load_or_generate_torn :
      (disk later : Disk) (files : FileTable) (sans sans' : List Bytes)
      (randomness randomness' : Bytes) (material : TlsMaterial) (n : ℕ)
      → Certifies cert disk dir
      → exists files (cert_path dir) && exists files (key_path dir) ≡ false
      → generate cert randomness sans ≡ ok material
      → disk.can_make dir ≡ true
      → disk.writes (cert_path dir) ≡ whole
      → disk.writes (key_path dir) ≡ torn n
      → later.can_read (cert_path dir) ≡ true
      → later.can_read (key_path dir) ≡ true
      → let (after, ended) = load_or_generate cert disk dir sans randomness files in
        (ended ≡ err io)
        × (load_or_generate cert later dir sans' randomness' after ≡ (
          after,
          ok (
            record {
              cert_der = material.cert_der;
              key_der = take n material.key_der;
              pin = material.pin;
            },
            false,
          ),
        ))
  load_or_generate_torn disk later files sans sans' randomness randomness' material n certifies
        missing made can cut cut' may may' =
      let is_made = generate-IsMade cert disk dir sans randomness material certifies made in
      let left : TlsMaterial = record {
        cert_der = material.cert_der;
        key_der = take n material.key_der;
        pin = material.pin;
      } in
      rw (torn_start disk files sans randomness material n missing made can cut cut') (
        refl,
        load_again cert later dir _ left sans' randomness' may may'
            (put-Holds cert later dir files left is_made.0 is_made.1),
      )
