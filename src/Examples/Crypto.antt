-- ===== src/Examples/Crypto.antt =====
-- Concrete ciphers for the examples: a sum for X25519, zeros for HKDF, and a checksum behind the plain
-- message for AES-GCM.
use reality_hydra.Base.{
  ℕ, ◌+◌, ◌-◌, ◌%◌, ◌≡◌, refl, sym, ap, ◌∙◌, [], ◌∷◌, ◌++◌, Bytes, AreBytes, IsByte, length,
  length-append, length-replicate, take, drop, replicate, take-append-drop, take-length-append,
  drop-length-append, All-take, text_eq, text_eq_self, text_eq→eq, Option, none, some,
  if◌then◌else◌, if-cases, inl, inr, arith,
}
use reality_hydra.Reality.Auth.{X25519, Hkdf, AesGcm}
use reality_hydra.Examples.Fixtures.{sum}

unfoldable pub pointwise : Bytes → Bytes → Bytes
pointwise [] t = []
pointwise (a ∷ s) [] = []
pointwise (a ∷ s) (b ∷ t) = (a + b) % 256 ∷ pointwise s t

pub pointwise_comm : (s t : Bytes) → pointwise s t ≡ pointwise t s
unfolding pointwise
pointwise_comm [] [] = refl
pointwise_comm [] (b ∷ t) = refl
pointwise_comm (a ∷ s) [] = refl
pointwise_comm (a ∷ s) (b ∷ t) =
    ap (λ (c : ℕ). c ∷ pointwise s t) {x = (a + b) % 256} {y = (b + a) % 256} (omega arith)
    ∙ ap (λ (r : Bytes). (b + a) % 256 ∷ r) (pointwise_comm s t)

unfoldable pub sums : X25519
sums = record {
  public = λ k. k;
  diffie_hellman = pointwise;
  length-public = λ k e. e;
  agree = λ a b e f. pointwise_comm a b;
}

unfoldable pub zeros : Hkdf
zeros = record {
  expand = λ salt ikm info n. some (replicate n (sum ikm % 256));
  expand_some =
      λ salt ikm info n h. (replicate n (sum ikm % 256), refl, length-replicate n (sum ikm % 256));
}

unfoldable pub tag : Bytes → Bytes → Bytes → Bytes → Bytes
tag key nonce msg aad = replicate 16 ((sum key + sum nonce + sum msg + sum aad) % 256)

pub length-tag : (key nonce msg aad : Bytes) → length (tag key nonce msg aad) ≡ 16
unfolding tag
length-tag key nonce msg aad = length-replicate 16 ((sum key + sum nonce + sum msg + sum aad) % 256)

unfoldable pub unmask : Bytes → Bytes → Bytes → Bytes → Option Bytes
unmask key nonce c aad =
    if text_eq (drop (length c - 16) c) (tag key nonce (take (length c - 16) c) aad)
    then some (take (length c - 16) c)
    else none

some_same : {a b : Bytes} → ◌≡◌ {A = Option Bytes} (some a) (some b) → a ≡ b
some_same e = cc

pub unmask→mask :
    (key nonce c aad msg : Bytes)
    → unmask key nonce c aad ≡ some msg
    → some (msg ++ tag key nonce msg aad) ≡ some c
unfolding unmask
unmask→mask key nonce c aad msg e =
    elim (if-cases (text_eq (drop (length c - 16) c) (tag key nonce (take (length c - 16) c) aad))
      e) [
        | inr (_, other) ↦ cc
        | inl (same, plain) ↦
            let body : take (length c - 16) c ≡ msg = some_same plain in
            ap some (
              rw (sym body) (
                ap (λ (t : Bytes). take (length c - 16) c ++ t) (sym (text_eq→eq _ _ same))
                ∙ take-append-drop (length c - 16) c))
      ]

pub mask→unmask :
    (key nonce c aad msg : Bytes)
    → some (msg ++ tag key nonce msg aad) ≡ some c
    → unmask key nonce c aad ≡ some msg
unfolding unmask
mask→unmask key nonce c aad msg e =
    let whole : c ≡ msg ++ tag key nonce msg aad = sym (some_same e) in
    let cut : length (msg ++ tag key nonce msg aad) - 16 ≡ length msg =
      omega (arith, length-append msg (tag key nonce msg aad), length-tag key nonce msg aad) in
    rw
      (
        whole,
        cut,
        take-length-append msg (tag key nonce msg aad),
        drop-length-append msg (tag key nonce msg aad),
        text_eq_self (tag key nonce msg aad),
      )
      refl

pub unmask-AreBytes :
    (key nonce c aad msg : Bytes) → unmask key nonce c aad ≡ some msg → AreBytes c → AreBytes msg
unfolding unmask
unmask-AreBytes key nonce c aad msg e bytes =
    elim (if-cases (text_eq (drop (length c - 16) c) (tag key nonce (take (length c - 16) c) aad))
      e) [
        | inr (_, other) ↦ cc
        | inl (same, plain) ↦ rw (sym (some_same plain)) (All-take IsByte (length c - 16) c bytes)
      ]

unfoldable pub marked : AesGcm
marked = record {
  encrypt = λ key nonce msg aad. some (msg ++ tag key nonce msg aad);
  decrypt = unmask;
  encrypt_some = λ key nonce msg aad h k. (
    msg ++ tag key nonce msg aad,
    refl,
    length-append msg (tag key nonce msg aad) ∙ omega (arith, length-tag key nonce msg aad),
  );
  decrypt_iff =
      λ key nonce c aad msg. (unmask→mask key nonce c aad msg, mask→unmask key nonce c aad msg);
  decrypt-AreBytes = unmask-AreBytes;
}
