-- ===== src/Proto/Accepted.antt =====
-- Whatever the decoder accepts is a header that the encoder writes: it knows no second form.
use mathlib.Core.Path.{subst, ap₂}
use reality_hydra.Base.{
  le_bytes, from_le, le_bytes-from_le, from_le_bound, ◌^◌, ◌++◌, take-append-take, ensure_elim,
  ok_elim, ==_iff, ◌==◌, ℕ, ◌+◌, ◌≤◌, ◌<◌, ◌^◌, ◌≡◌, sym, ap, ◌∙◌, [], ◌∷◌, ◌++◌, arith, length,
  take, drop, drop-get_elem?, take-append-take, Bytes, AreBytes, ok, get_elem?, some,
}
use reality_hydra.Proto.{
  mac, Target, version, bad_version, IsTarget, encode_request, unsigned, Hmac, Host, Target, IsHost,
  IsTarget, FitsHeader, version, mac_len, encode_request,
}
use reality_hydra.Proto.Parse.{
  parse_request, ParsedRequest, index, slice, need, parse_host, abs_diff, parse_request,
}
use reality_hydra.Proto.Parts.{head, unsigned-eq, head, body, atyp_of}
use reality_hydra.Proto.Reads.{index_ok}
use reality_hydra.Proto.Inversion.{
  slice_bytes, slice-AreBytes, HostAt, parse_host-HostAt, TailAt, parse_tail-TailAt,
}

-- The bytes up to the host, read one by one.
head_bytes :
    (buf : Bytes) (ts : ℕ) (host : Host)
    → take 1 buf ≡ version ∷ []
    → take 8 (drop 1 buf) ≡ le_bytes 8 ts
    → take 1 (drop 9 buf) ≡ atyp_of host ∷ []
    → take 10 buf ≡ head ts host
head_bytes buf ts host first stamp kind =
    sym (take-append-take 9 1 buf)
    ∙ ap₂ ◌++◌ (sym (take-append-take 1 8 buf) ∙ ap₂ ◌++◌ first stamp) kind

first_byte : (buf : Bytes) (i b : ℕ) → get_elem? buf i ≡ some b → take 1 (drop i buf) ≡ b ∷ []
first_byte buf i b e = ap (take 1) (drop-get_elem? i buf b e)

module _ (h : Hmac) (buf key : Bytes) (now max_skew : ℕ) where
  abbrev pub Accepted : ParsedRequest → Type 0
  Accepted r =
      IsTarget r.target
      × FitsHeader r.target.host
      × (r.timestamp < 2 ^ 64)
      × (abs_diff now r.timestamp ≤ max_skew)
      × (r.consumed ≤ length buf)
      × (take r.consumed buf ≡ encode_request h key r.timestamp r.target)

  Accepted-parts :
      (ts : ℕ) (p : Host × ℕ) {r : ParsedRequest}
      → HostAt buf 10 p
      → ts < 2 ^ 64
      → take 10 buf ≡ head ts p.0
      → TailAt h buf key now max_skew ts p.0 p.1 r
      → Accepted r
  unfolding encode_request mac
  Accepted-parts ts p {r} (well, short, cursor, inside, body_cut) stamp front
        (host, port, same, consumed, fits, fresh, port_cut, tag_cut) =
      let t : Target = r.target in
      let c : ℕ = p.1 in
      let upto_host : take c buf ≡ head ts p.0 ++ body p.0 =
        ap (λ (n : ℕ). take n buf) cursor
        ∙ sym (take-append-take 10 (length (body p.0)) buf)
        ∙ ap₂ ◌++◌ front body_cut in
      let signed : take (c + 2) buf ≡ unsigned ts t =
        sym (take-append-take c 2 buf)
        ∙ ap₂ ◌++◌ (upto_host ∙ ap (λ (x : Host). head ts x ++ body x) (sym host)) port_cut
        ∙ sym (unsigned-eq ts t) in
      let all : take (c + 2 + mac_len) buf ≡ encode_request h key ts t =
        sym (take-append-take (c + 2) mac_len buf)
        ∙ ap₂ ◌++◌ signed (tag_cut ∙ ap (h.finalize key) signed) in
      (
        (subst IsHost (sym host) well, port),
        subst FitsHeader (sym host) short,
        omega (arith, same, stamp),
        subst (λ (n : ℕ). abs_diff now n ≤ max_skew) (sym same) fresh,
        fits,
        ap (λ (n : ℕ). take n buf) consumed
            ∙ all
            ∙ ap (λ (n : ℕ). encode_request h key n t) (sym same),
      )

  -- An accepted buffer starts with the header that the encoder writes for the target and the stamp
  -- that were returned; the target is well formed and the stamp lies within the skew.
  pub parse_request-accepted :
      {r : ParsedRequest}
      → AreBytes buf
      → parse_request h buf key now max_skew ≡ ok r
      → IsTarget r.target
        × FitsHeader r.target.host
        × (r.timestamp < 2 ^ 64)
        × (abs_diff now r.timestamp ≤ max_skew)
        × (r.consumed ≤ length buf)
        × (take r.consumed buf ≡ encode_request h key r.timestamp r.target)
  unfolding parse_request
  parse_request-accepted {r} bytes e = ok_elim (need (length buf) 10) _ e λ _ _ e.
      ok_elim (index buf 0) _ e λ found first e.
        ensure_elim (found == version) (bad_version found) _ e λ is_one e.
          ok_elim (slice buf 1 9) _ e λ stamp s e. ok_elim (index buf 9) _ e λ atyp kind e.
            ok_elim (parse_host buf atyp 10) _ e λ p at e.
              let host_at : HostAt buf 10 p × (atyp_of p.0 ≡ atyp) =
                parse_host-HostAt buf atyp 10 bytes at in
              let (stamp_cut, stamp_size, _) = slice_bytes buf 1 8 s in
              let stamp_bytes : AreBytes stamp = slice-AreBytes buf 1 8 bytes s in
              let same_stamp : stamp ≡ le_bytes 8 (from_le stamp) =
                sym (le_bytes-from_le stamp stamp_bytes)
                ∙ ap (λ (n : ℕ). le_bytes n (from_le stamp)) stamp_size in
              let one : found ≡ version = (==_iff found version).0 is_one in
              let front : take 10 buf ≡ head (from_le stamp) p.0 =
                head_bytes buf (from_le stamp) p.0
                  (first_byte buf 0 found (index_ok buf 0 first) ∙ ap (λ (b : ℕ). b ∷ []) one)
                  (sym stamp_cut ∙ same_stamp)
                  (first_byte buf 9 atyp (index_ok buf 9 kind)
                    ∙ ap (λ (b : ℕ). b ∷ []) (sym host_at.1)) in
              Accepted-parts (from_le stamp) p host_at.0
                (from_le_bound stamp 8 stamp_bytes stamp_size) front
                (parse_tail-TailAt h buf key now max_skew (from_le stamp) p.0 p.1 bytes e)
