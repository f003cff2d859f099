-- ===== src/Reality/Payload.antt =====
-- The plaintext of a token is read back as it was built.
use reality_hydra.Base.{
  AreBytes, IsByte, ensure_elim, ok-injective, get_elem?-lt, drop-get_elem?, length-drop, All-take,
  All-drop, take-append-drop, from_be, be_bytes-from_be, take_all, from_be_bound, ℕ, zero, suc, ◌-◌,
  ◌^◌, ◌≤◌, ◌<◌, ◌≡◌, refl, sym, ap, ◌∙◌, min, [], ◌∷◌, ◌++◌, Bytes, length, take, drop, replicate,
  length-append, length-take, length-replicate, take-append, take_whole, take-length-append,
  drop-length-append, be_bytes, length-be_bytes, from_be-be_bytes, ltb, ◌==◌, ok, arith, ==_iff,
  append-nil, drop-drop, Bool-cases, ltb→le, ltb→lt, inl, inr, true,
}
use reality_hydra.Reality.Auth.{
  AuthPayload, to_array, short_id_field, build_plaintext, parse_plaintext,
}

-- The first eight bytes, zeros behind a shorter one.
abbrev pub sealed_id : Bytes → Bytes
sealed_id short_id = take 8 (short_id ++ replicate 8 0)

take-replicate : (n m : ℕ) → n ≤ m → take {A = ℕ} n (replicate m 0) ≡ replicate n 0
take-replicate zero m h = refl
take-replicate (suc n) zero h = absurd (omega arith)
take-replicate (suc n) (suc m) h = ap (λ (t : Bytes). 0 ∷ t) (take-replicate n m (omega arith))

-- A front longer than the list goes on in the zeros.
take_padded :
    (n m : ℕ) (s : Bytes)
    → length s ≤ n
    → n ≤ m
    → take n (s ++ replicate m 0) ≡ s ++ replicate (n - length s) 0
take_padded n m [] h k =
    take-replicate n m k ∙ ap (λ i. replicate {A = ℕ} i 0) {x = n} {y = n - 0} (omega arith)
take_padded zero m (b ∷ s) h k = absurd (omega arith)
take_padded (suc n) m (b ∷ s) h k =
    ap (◌∷◌ b) (take_padded n m s (omega arith) (omega arith))
    ∙ ap (λ i. b ∷ (s ++ replicate i 0)) {x = n - length s} {y = suc n - suc (length s)}
        (omega arith)

short_id_field-sealed_id : (short_id : Bytes) → short_id_field short_id ≡ sealed_id short_id
unfolding short_id_field
short_id_field-sealed_id s = elim (Bool-cases (ltb 8 (length s))) [
  | inr few ↦
      let short : length s ≤ 8 = ltb→le 8 (length s) few in
      let small : min (length s) 8 ≡ length s = omega arith in
      ap (λ n. take n s ++ replicate (8 - n) 0) small
      ∙ ap (λ (t : Bytes). t ++ replicate (8 - length s) 0) (take_whole (length s) s refl)
      ∙ sym (take_padded 8 8 s short (omega arith))
  | inl many ↦
      let long : 8 ≤ length s = omega (arith, ltb→lt 8 (length s) many) in
      let full : min (length s) 8 ≡ 8 = omega arith in
      ap (λ n. take n s ++ replicate (8 - n) 0) full
      ∙ append-nil (take 8 s)
      ∙ sym (take-append 8 s (replicate 8 0) long)
]

length-short_id_field : (short_id : Bytes) → length (short_id_field short_id) ≡ 8
unfolding short_id_field
length-short_id_field s =
    length-append (take (min (length s) 8) s) (replicate (8 - min (length s) 8) 0)
    ∙ omega
        (arith, length-take (min (length s) 8) s, length-replicate {A = ℕ} (8 - min (length s) 8) 0)

pub length-build_plaintext :
    (version short_id : Bytes) (timestamp : ℕ)
    → length version ≡ 3
    → length (build_plaintext version timestamp short_id) ≡ 16
unfolding build_plaintext
length-build_plaintext version short_id timestamp three =
    length-append version _
    ∙ omega (
      arith,
      three,
      length-append (be_bytes 4 timestamp) (short_id_field short_id),
      length-be_bytes 4 timestamp,
      length-short_id_field short_id,
    )

pub to_array_ok : (n : ℕ) (src : Bytes) → length src ≡ n → to_array n src ≡ ok src
unfolding to_array
to_array_ok n src e = rw ((==_iff (length src) n).1 e) refl

front : (n : ℕ) (xs ys : Bytes) → length xs ≡ n → take n (xs ++ ys) ≡ xs
front n xs ys e = ap (λ k. take k (xs ++ ys)) (sym e) ∙ take-length-append xs ys

back : (n : ℕ) (xs ys : Bytes) → length xs ≡ n → drop n (xs ++ ys) ≡ ys
back n xs ys e = ap (λ k. drop k (xs ++ ys)) (sym e) ∙ drop-length-append xs ys

pub parse_plaintext-build_plaintext :
    (version short_id : Bytes) (timestamp : ℕ)
    → length version ≡ 3
    → timestamp < 2 ^ 32
    → parse_plaintext (build_plaintext version timestamp short_id)
      ≡ ok (record { version = version; timestamp = timestamp; short_id = sealed_id short_id })
unfolding parse_plaintext build_plaintext
parse_plaintext-build_plaintext version short_id timestamp three stamp =
    let stamp_bytes : Bytes = be_bytes 4 timestamp in
    let field : Bytes = short_id_field short_id in
    let rest : Bytes = 0 ∷ (stamp_bytes ++ field) in
    let whole : Bytes = version ++ rest in
    let size : (length whole == 16) ≡ true =
      (==_iff (length whole) 16).1 (length-build_plaintext version short_id timestamp three) in
    let at_version : take 3 whole ≡ version = front 3 version rest three in
    let behind : drop 3 whole ≡ rest = back 3 version rest three in
    let at_stamp : take 4 (drop 4 whole) ≡ stamp_bytes =
      ap (take 4) (sym (drop-drop 3 1 whole) ∙ ap (drop 1) behind)
      ∙ front 4 stamp_bytes field (length-be_bytes 4 timestamp) in
    let at_id : take 8 (drop 8 whole) ≡ field =
      ap (take 8) (
        sym (drop-drop 3 5 whole)
        ∙ ap (drop 5) behind
        ∙ back 4 stamp_bytes field (length-be_bytes 4 timestamp))
      ∙ take_whole 8 field (sym (length-short_id_field short_id)) in
    rw
      (
        size,
        at_version,
        at_stamp,
        at_id,
        from_be-be_bytes 4 timestamp (omega (arith, stamp)),
        short_id_field-sealed_id short_id,
      )
      refl

-- A plaintext that is read is the version, a reserved byte, the timestamp and the short id.
pub parse_plaintext-parts :
    (plaintext : Bytes) (p : AuthPayload)
    → AreBytes plaintext
    → parse_plaintext plaintext ≡ ok p
    → (reserved : ℕ) × (plaintext
        ≡ p.version ++ (reserved ∷ (be_bytes 4 p.timestamp ++ p.short_id)))
      × (length p.version ≡ 3)
      × (length p.short_id ≡ 8)
      × (p.timestamp < 2 ^ 32)
unfolding parse_plaintext
parse_plaintext-parts m p bytes e = ensure_elim (length m == 16) _ _ e (λ t k.
    let size : length m ≡ 16 = (==_iff (length m) 16).0 t in
    let stamp : Bytes = take 4 (drop 4 m) in
    let stamp_size : length stamp ≡ 4 =
      omega (arith, length-take 4 (drop 4 m), length-drop 4 m, size) in
    let stamp_bytes : AreBytes stamp = All-take IsByte 4 (drop 4 m) (All-drop IsByte 4 m bytes) in
    let same = ok-injective k in
    let (reserved, at) = get_elem?-lt m 3 (omega (arith, size)) in
    let back_4 : drop 4 m ≡ be_bytes 4 (from_be stamp) ++ take 8 (drop 8 m) =
      sym (take-append-drop 4 (drop 4 m))
      ∙ ap (λ (t : Bytes). t ++ drop 4 (drop 4 m))
          (sym (be_bytes-from_be stamp stamp_bytes)
            ∙ ap (λ n. be_bytes n (from_be stamp)) stamp_size)
      ∙ ap (λ (t : Bytes). be_bytes 4 (from_be stamp) ++ t)
          (drop-drop 4 4 m ∙ sym (take_all 8 (drop 8 m) (omega (arith, length-drop 8 m, size)))) in
    let whole : m ≡ take 3 m ++ (reserved ∷ (be_bytes 4 (from_be stamp) ++ take 8 (drop 8 m))) =
      sym (take-append-drop 3 m)
      ∙ ap (λ (t : Bytes). take 3 m ++ t)
          (drop-get_elem? 3 m reserved at ∙ ap (λ (t : Bytes). reserved ∷ t) back_4) in
    rw (sym same) (
      reserved,
      whole,
      omega (arith, length-take 3 m, size),
      omega (arith, length-take 8 (drop 8 m), length-drop 8 m, size),
      omega (arith, from_be_bound stamp 4 stamp_bytes stamp_size),
    ))
