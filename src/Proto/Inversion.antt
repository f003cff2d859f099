-- ===== src/Proto/Inversion.antt =====
-- What a successful run of each part of the decoder says of the bytes that it read.
use mathlib.Core.Path.{subst, ap₂}
use reality_hydra.Base.{
  ensure_elim, ok_elim, be_bytes, from_be, be_bytes-from_be, from_be_bound, if-cases, ==_iff, inl,
  inr, ◌==◌, ℕ, suc, ◌+◌, ◌-◌, ◌%◌, ◌≤◌, ◌<◌, ◌≡◌, refl, sym, ap, ◌∙◌, true, ◌∷◌, arith, length,
  take, drop, length-take, length-drop, drop-get_elem?, All-take, All-drop, Bytes, IsByte, AreBytes,
  ok, ok_parts, ok-injective, ensure_ok, leb, leb→le,
}
use reality_hydra.Proto.{
  bad_mac, stale, atyp_ipv4, atyp_domain, atyp_ipv6, Hmac, Host, domain, IsHost, FitsHeader,
  mac_len, max_domain_len,
}
use reality_hydra.Proto.Parse.{
  ParsedRequest, index, slice, need, parse_v4, parse_domain, parse_v6, parse_host, abs_diff,
  verify_mac, parse_tail,
}
use reality_hydra.Proto.Parts.{body, atyp_of}
use reality_hydra.Proto.Reads.{slice_ok, index_ok}

-- The bytes of a slice, and how many they are.
pub slice_bytes :
    (buf : Bytes) (c n : ℕ) {bs : Bytes}
    → slice buf c (c + n) ≡ ok bs
    → (bs ≡ take n (drop c buf)) × (length bs ≡ n) × (c + n ≤ length buf)
slice_bytes buf c n e =
    let (_, fits, cut) = slice_ok buf c (c + n) e in
    let width : c + n - c ≡ n = omega arith in
    let bytes : _ ≡ take n (drop c buf) = cut ∙ ap (λ (k : ℕ). take k (drop c buf)) width in
    (
      bytes,
      ap length bytes ∙ length-take n (drop c buf) ∙ omega (arith, length-drop c buf, fits),
      fits,
    )

pub slice-AreBytes :
    (buf : Bytes) (c n : ℕ) {bs : Bytes} → AreBytes buf → slice buf c (c + n) ≡ ok bs → AreBytes bs
slice-AreBytes buf c n h e =
    subst AreBytes (sym (slice_bytes buf c n e).0)
      (All-take IsByte n (drop c buf) (All-drop IsByte c buf h))

-- `p` is the host that stands in `buf` at `c`, and the cursor behind it.
abbrev pub HostAt : Bytes → ℕ → Host × ℕ → Type 0
HostAt buf c p =
    IsHost p.0
    × FitsHeader p.0
    × (p.1 ≡ c + length (body p.0))
    × (p.1 ≤ length buf)
    × (take (length (body p.0)) (drop c buf) ≡ body p.0)

domain_at :
    (buf : Bytes) (c len : ℕ) (d : Bytes)
    → length d ≡ len
    → len ≤ max_domain_len
    → drop c buf ≡ len ∷ drop (suc c) buf
    → d ≡ take len (drop (c + 1) buf)
    → take (length (body (domain d))) (drop c buf) ≡ body (domain d)
domain_at buf c len d size small front cut =
    let here : len ≡ length d % 256 = omega (arith, size, small) in
    let rest : take (length d) (drop (suc c) buf) ≡ d =
      ap (λ (n : ℕ). take n (drop (suc c) buf)) size
      ∙ ap (λ (n : ℕ). take len (drop n buf)) {x = suc c} {y = c + 1} (omega arith)
      ∙ sym cut in
    rw front (ap₂ ◌∷◌ here rest)

module _ (buf : Bytes) (bytes : AreBytes buf) (c : ℕ) {p : Host × ℕ} where
  parse_v4-HostAt : parse_v4 buf c ≡ ok p → HostAt buf c p × (atyp_of p.0 ≡ 0x01)
  unfolding parse_v4
  parse_v4-HostAt e =
      let (_, _, e) = ok_parts (need (length buf) (c + 4)) _ e in
      let (a, s, e) = ok_parts (slice buf c (c + 4)) _ e in
      let (cut, size, fits) = slice_bytes buf c 4 s in
      subst (λ q. HostAt buf c q × (atyp_of q.0 ≡ 0x01)) (ok-injective e)
        (
          (
            (size, slice-AreBytes buf c 4 bytes s),
            tt,
            omega (arith, size),
            fits,
            ap (λ (n : ℕ). take n (drop c buf)) size ∙ sym cut,
          ),
          refl,
        )

  parse_v6-HostAt : parse_v6 buf c ≡ ok p → HostAt buf c p × (atyp_of p.0 ≡ 0x04)
  unfolding parse_v6
  parse_v6-HostAt e =
      let (_, _, e) = ok_parts (need (length buf) (c + 16)) _ e in
      let (a, s, e) = ok_parts (slice buf c (c + 16)) _ e in
      let (cut, size, fits) = slice_bytes buf c 16 s in
      subst (λ q. HostAt buf c q × (atyp_of q.0 ≡ 0x04)) (ok-injective e)
        (
          (
            (size, slice-AreBytes buf c 16 bytes s),
            tt,
            omega (arith, size),
            fits,
            ap (λ (n : ℕ). take n (drop c buf)) size ∙ sym cut,
          ),
          refl,
        )

  parse_domain-HostAt : parse_domain buf c ≡ ok p → HostAt buf c p × (atyp_of p.0 ≡ 0x03)
  unfolding parse_domain
  parse_domain-HostAt e =
      let (_, _, e) = ok_parts (need (length buf) (c + 1)) _ e in
      let (len, i, e) = ok_parts (index buf c) _ e in
      let (_, short, e) = ok_parts _ _ e in
      let (_, _, e) = ok_parts (need (length buf) (c + 1 + len)) _ e in
      let (d, s, e) = ok_parts (slice buf (c + 1) (c + 1 + len)) _ e in
      let (_, text, e) = ok_parts _ _ e in
      let (cut, size, fits) = slice_bytes buf (c + 1) len s in
      let small : len ≤ max_domain_len = leb→le _ _ (ensure_ok _ _ short) in
      let front : drop c buf ≡ len ∷ drop (suc c) buf =
        drop-get_elem? c buf len (index_ok buf c i) in
      subst (λ q. HostAt buf c q × (atyp_of q.0 ≡ 0x03)) {x = (domain d, c + 1 + len)}
        (ok-injective e)
        (
          (
            (ensure_ok _ _ text, slice-AreBytes buf (c + 1) len bytes s),
            omega (arith, size, small),
            omega (arith, size),
            fits,
            domain_at buf c len d size small front cut,
          ),
          refl,
        )

pub parse_host-HostAt :
    (buf : Bytes) (atyp c : ℕ) {p : Host × ℕ}
    → AreBytes buf
    → parse_host buf atyp c ≡ ok p
    → HostAt buf c p × (atyp_of p.0 ≡ atyp)
unfolding parse_host
parse_host-HostAt buf atyp c bytes e = elim (if-cases (atyp == atyp_ipv4) e) [
  | inl (four, e) ↦
      let (at, kind) = parse_v4-HostAt buf bytes c e in
      (at, kind ∙ sym ((==_iff atyp atyp_ipv4).0 four))
  | inr (_, e) ↦ elim (if-cases (atyp == atyp_domain) e) [
    | inl (name, e) ↦
        let (at, kind) = parse_domain-HostAt buf bytes c e in
        (at, kind ∙ sym ((==_iff atyp atyp_domain).0 name))
    | inr (_, e) ↦ elim (if-cases (atyp == atyp_ipv6) e) [
      | inl (six, e) ↦
          let (at, kind) = parse_v6-HostAt buf bytes c e in
          (at, kind ∙ sym ((==_iff atyp atyp_ipv6).0 six))
      | inr (_, e) ↦ cc
    ]
  ]
]

-- What a successful tail says of its parts.
module _ (h : Hmac) (buf key : Bytes) (now max_skew ts : ℕ) (host : Host) (c : ℕ) where
  abbrev pub TailAt : ParsedRequest → Type 0
  TailAt r =
      (r.target.host ≡ host)
      × (r.target.port < 65536)
      × (r.timestamp ≡ ts)
      × (r.consumed ≡ c + 2 + mac_len)
      × (r.consumed ≤ length buf)
      × (abs_diff now ts ≤ max_skew)
      × (take 2 (drop c buf) ≡ be_bytes 2 r.target.port)
      × (take mac_len (drop (c + 2) buf) ≡ h.finalize key (take (c + 2) buf))

  tail_parts :
      (port signed tag : Bytes) {r : ParsedRequest}
      → AreBytes buf
      → slice buf c (c + 2) ≡ ok port
      → slice buf 0 (c + 2) ≡ ok signed
      → slice buf (c + 2) (c + 2 + mac_len) ≡ ok tag
      → h.verify_slice key signed tag ≡ true
      → abs_diff now ts ≤ max_skew
      → ◌≡◌ {A = ParsedRequest}
          (record {
            target = record { host = host; port = from_be port };
            timestamp = ts;
            consumed = c + 2 + mac_len;
          })
          r
      → TailAt r
  tail_parts port signed tag bytes sp ss st good fresh e =
      let (port_cut, port_size, _) = slice_bytes buf c 2 sp in
      let (tag_cut, _, fits) = slice_bytes buf (c + 2) mac_len st in
      let (_, _, signed_cut) = slice_ok buf 0 (c + 2) ss in
      let port_bytes : AreBytes port = slice-AreBytes buf c 2 bytes sp in
      subst TailAt e (
        refl,
        from_be_bound port 2 port_bytes port_size,
        refl,
        refl,
        fits,
        fresh,
        sym port_cut
            ∙ sym (be_bytes-from_be port port_bytes)
            ∙ ap (λ (n : ℕ). be_bytes n (from_be port)) port_size,
        sym tag_cut
            ∙ (h.verify_slice_iff key signed tag).0 good
            ∙ ap (h.finalize key)
                (signed_cut ∙ ap (λ (n : ℕ). take n buf) {x = c + 2 - 0} {y = c + 2} (omega arith)),
      )

  pub parse_tail-TailAt :
      {r : ParsedRequest}
      → AreBytes buf
      → parse_tail h buf key now max_skew ts host c ≡ ok r
      → TailAt r
  unfolding parse_tail verify_mac
  parse_tail-TailAt bytes e = ok_elim (need (length buf) (c + 2)) _ e λ _ _ e.
      ok_elim (slice buf c (c + 2)) _ e λ port sp e.
        ok_elim (need (length buf) (c + 2 + mac_len)) _ e λ _ _ e.
          ok_elim (slice buf 0 (c + 2)) _ e λ signed ss e.
            ok_elim (slice buf (c + 2) (c + 2 + mac_len)) _ e λ tag st e.
              ensure_elim (h.verify_slice key signed tag) bad_mac _ e λ good e.
                ensure_elim (leb (abs_diff now ts) max_skew) (stale max_skew) _ e λ fresh e.
                  tail_parts port signed tag bytes sp ss st good (leb→le _ _ fresh) (ok-injective e)
