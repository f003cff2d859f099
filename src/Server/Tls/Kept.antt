-- ===== src/Server/Tls/Kept.antt =====
-- The certificate and the pin of the exit node over its restarts.
use mathlib.Core.Path.{subst}
use reality_hydra.Base.{
  ◌≡◌, ◌≢◌, refl, ap, ◌∙◌, inl, inr, some, Bool, true, false, ◌&&◌, List, [], ◌∷◌, Bytes, ascii,
  Result, ok, err, panic, if◌then◌else◌, exists, read_file, write_file, write_result, Write, whole,
  refused, torn, Disk, FileTable, get, put, get-put, get-put_other, join_apart, text_eq,
  starts_slash, Option-cases, ok_elim, ok-injective, Bool-cases,
}
use reality_hydra.Server.Tls.{
  TlsError, io, TlsMaterial, Certifier, cert_path, key_path, read_der, loaded, load_der,
  material_of, generate, persist, persist_key, fresh, load_or_generate, pin_of, names_of,
}

paths_apart : (dir : Bytes) → text_eq (key_path dir) (cert_path dir) ≡ false
unfolding ascii starts_slash text_eq
paths_apart dir = join_apart dir (ascii "key.der") (ascii "cert.der") refl refl refl

module _ (cert : Certifier) (disk : Disk) (dir : Bytes) where
  -- The two files hold the material, and its pin is that of its certificate.
  pub record Holds (files : FileTable) (material : TlsMaterial) : Type 0 where
    pub has_cert : get files (cert_path dir) ≡ some material.cert_der
    pub has_key : get files (key_path dir) ≡ some material.key_der
    pub pinned : material.pin ≡ cert.sha256 material.cert_der
    pub certified : material.cert_der ≢ []

  key_written :
      (files : FileTable) (path contents : Bytes) (w : Write)
      → ◌≡◌ {A = Result TlsError (Unit {0})}
          (if (write_result files path contents w).1 then ok tt else err io)
          (ok tt)
      → (write_result files path contents w).0 ≡ put files path contents
  unfolding write_result
  key_written files path contents whole done = refl
  key_written files path contents refused done = cc
  key_written files path contents (torn n) done = cc

  cert_written :
      (files : FileTable) (material : TlsMaterial) (w : Write)
      → let r = write_result files (cert_path dir) material.cert_der w in
        let kept = persist_key cert disk r.0 r.1 dir material in
        kept.1 ≡ ok tt
        → kept.0 ≡ put (put files (cert_path dir) material.cert_der) (key_path dir) material.key_der
  unfolding write_result persist_key write_file
  cert_written files material whole done = key_written _ _ _ (disk.writes (key_path dir)) done
  cert_written files material refused done = cc
  cert_written files material (torn n) done = cc

  persist-put :
      (files : FileTable) (material : TlsMaterial)
      → (persist cert disk files dir material).1 ≡ ok tt
      → (persist cert disk files dir material).0
        ≡ put (put files (cert_path dir) material.cert_der) (key_path dir) material.key_der
  unfolding persist write_file
  persist-put files material = elim (Bool-cases (disk.can_make dir)) [
    | inl made ↦ rw made (cert_written files material (disk.writes (cert_path dir)))
    | inr not_made ↦ rw not_made (λ e. cc)
  ]

  pub put-Holds :
      (files : FileTable) (material : TlsMaterial)
      → material.pin ≡ cert.sha256 material.cert_der
      → material.cert_der ≢ []
      → Holds
          (put (put files (cert_path dir) material.cert_der) (key_path dir) material.key_der)
          material
  put-Holds files material pinned certified =
      let with_cert = put files (cert_path dir) material.cert_der in
      record {
        has_cert =
            get-put_other with_cert (key_path dir) (cert_path dir) material.key_der
              (paths_apart dir)
            ∙ get-put files (cert_path dir) material.cert_der;
        has_key = get-put with_cert (key_path dir) material.key_der;
        pinned = pinned;
        certified = certified;
      }

  loaded_lem :
      (path cert_der key_der pin : Bytes)
      → pin ≡ cert.sha256 cert_der
      → cert_der ≢ []
      → loaded cert path cert_der key_der
        ≡ ok (record { cert_der = cert_der; key_der = key_der; pin = pin })
  unfolding loaded pin_of
  loaded_lem path [] key_der pin pinned certified = absurd (certified refl)
  loaded_lem path (b ∷ bs) key_der pin pinned certified = rw pinned refl

  read_der-get :
      (files : FileTable) (path v : Bytes)
      → disk.can_read path ≡ true
      → get files path ≡ some v
      → read_der disk files path ≡ ok v
  unfolding read_der read_file
  read_der-get files path v may there = rw (may, there) refl

  get-read_der :
      (files : FileTable) (path v : Bytes)
      → read_der disk files path ≡ ok v
      → get files path ≡ some v
  unfolding read_der read_file
  get-read_der files path v = elim (Bool-cases (disk.can_read path)) [
    | inr closed ↦ rw closed (λ e. cc)
    | inl may ↦ elim (Option-cases (get files path)) [
      | inl absent ↦ rw (may, absent) (λ e. cc)
      | inr (w, there) ↦ rw (may, there) (λ e. ap some (ok-injective e))
    ]
  ]

  pub load_again :
      (files : FileTable) (material : TlsMaterial) (sans : List Bytes) (randomness : Bytes)
      → disk.can_read (cert_path dir) ≡ true
      → disk.can_read (key_path dir) ≡ true
      → Holds files material
      → load_or_generate cert disk dir sans randomness files ≡ (files, ok (material, false))
  unfolding load_or_generate exists load_der
  load_again files material sans randomness may may' h =
      rw
        (
          h.has_cert,
          h.has_key,
          load_der,
          read_der-get files (cert_path dir) material.cert_der may h.has_cert,
          read_der-get files (key_path dir) material.key_der may' h.has_key,
          loaded_lem (cert_path dir) material.cert_der material.key_der material.pin h.pinned
              h.certified,
        )
        refl

  -- Certificates of the generator are not empty.
  abbrev pub Certifies : Type 0
  Certifies =
      (randomness : Bytes) (names : List Bytes) (made : Bytes × Bytes)
      → cert.self_signed randomness names ≡ some made
      → made.0 ≢ []

  loaded-Holds :
      (files : FileTable) (path cert_der key_der : Bytes) (material : TlsMaterial)
      → get files (cert_path dir) ≡ some cert_der
      → get files (key_path dir) ≡ some key_der
      → loaded cert path cert_der key_der ≡ ok material
      → Holds files material
  unfolding loaded pin_of
  loaded-Holds files path [] key_der material has_cert has_key e = cc
  loaded-Holds files path (b ∷ bs) key_der material has_cert has_key e =
      subst (Holds files) (ok-injective e)
        (record { has_cert = has_cert; has_key = has_key; pinned = refl; certified = λ empty. cc })

  pub generate-IsMade :
      (sans : List Bytes) (randomness : Bytes) (material : TlsMaterial)
      → Certifies
      → generate cert randomness sans ≡ ok material
      → (material.pin ≡ cert.sha256 material.cert_der) × (material.cert_der ≢ [])
  unfolding generate material_of pin_of
  generate-IsMade sans randomness material certifies =
      elim (Option-cases (cert.self_signed randomness (names_of sans))) [
        | inl refused_ ↦ rw refused_ (λ e. cc)
        | inr (made, e) ↦ rw e (λ is.
            subst (λ (m : TlsMaterial). (m.pin ≡ cert.sha256 m.cert_der) × (m.cert_der ≢ []))
              (ok-injective is) (refl, certifies randomness (names_of sans) made e))
      ]

  fresh-Holds :
      (files : FileTable) (r : Result TlsError TlsMaterial) (material : TlsMaterial) (new : Bool)
      → ((m : TlsMaterial) → r ≡ ok m → (m.pin ≡ cert.sha256 m.cert_der) × (m.cert_der ≢ []))
      → (fresh cert disk files dir r).1 ≡ ok (material, new)
      → Holds (fresh cert disk files dir r).0 material
  unfolding fresh
  fresh-Holds files (ok m) material new facts done =
      ok_elim (persist cert disk files dir m).1 _ done λ u kept whole_.
        let same : m ≡ material = ap (λ (p : TlsMaterial × Bool). p.0) (ok-injective whole_) in
        rw (persist-put files m kept)
          (subst (Holds _) same (put-Holds files m (facts m refl).0 (facts m refl).1))
  fresh-Holds files (err e) material new facts done = cc
  fresh-Holds files panic material new facts done = cc

  pub load_or_generate-Holds :
      (files : FileTable) (sans : List Bytes) (randomness : Bytes) (material : TlsMaterial)
      (new : Bool)
      → Certifies
      → (load_or_generate cert disk dir sans randomness files).1 ≡ ok (material, new)
      → Holds (load_or_generate cert disk dir sans randomness files).0 material
  unfolding load_or_generate load_der
  load_or_generate-Holds files sans randomness material new certifies =
      elim (Bool-cases (exists files (cert_path dir) && exists files (key_path dir))) [
        | inl both ↦ rw both λ done.
            ok_elim (load_der cert disk files (cert_path dir) (key_path dir)) _ done λ m got whole_.
              ok_elim (read_der disk files (cert_path dir)) _ got λ cert_der has_cert got.
                ok_elim (read_der disk files (key_path dir)) _ got λ key_der has_key made.
                  subst (Holds files) (ap (λ (p : TlsMaterial × Bool). p.0) (ok-injective whole_)) (
                    loaded-Holds files (cert_path dir) cert_der key_der m
                      (get-read_der files (cert_path dir) cert_der has_cert)
                      (get-read_der files (key_path dir) key_der has_key) made)
        | inr missing ↦ rw missing λ done.
            fresh-Holds files (generate cert randomness sans) material new
              (λ m. generate-IsMade sans randomness m certifies) done
      ]
