-- ===== src/Proto/Stability.antt =====
-- Bytes that arrive behind a header do not change what the decoder says of it.
use reality_hydra.Base.{
  ℕ, ◌+◌, ◌≤◌, refl, inr, ◌++◌, arith, length, Bytes, Bool, true, false, if◌then◌else◌, leb, ◌==◌,
  ◌>>=◌, ensure, err,
}
use reality_hydra.Proto.{
  ProtoError, Hmac, Host, atyp_ipv4, atyp_domain, atyp_ipv6, bad_atyp, mac_len, version,
  bad_version, max_domain_len, domain_too_long,
}
use reality_hydra.Proto.Parse.{
  Parsed, parse_v4, parse_domain, parse_v6, parse_host, parse_tail, parse_request,
}
use reality_hydra.Proto.Reads.{
  need_ok, slice-append, index-append, Stable, Stable-bind, need-append,
}

-- The same test on both sides.
Stable-if :
    {A : Type 0} (b : Bool) (r s r' s' : Parsed A)
    → Stable r r'
    → Stable s s'
    → Stable (if b then r else s) (if b then r' else s')
Stable-if true r s r' s' p q = p
Stable-if false r s r' s' p q = q

-- The same check on both sides.
Stable-ensure :
    {B : Type 0} (b : Bool) (e : ProtoError) (f f' : Unit {0} → Parsed B)
    → Stable (f tt) (f' tt)
    → Stable (ensure b e >>= f) (ensure b e >>= f')
Stable-ensure true e f f' k = k
Stable-ensure false e f f' k = inr refl

module _ (buf more : Bytes) where
  parse_v4-append : (c : ℕ) → Stable (parse_v4 buf c) (parse_v4 (buf ++ more) c)
  unfolding parse_v4
  parse_v4-append c = Stable-bind _ _ _ _ (need-append buf more (c + 4)) λ _ n.
      Stable-bind _ _ _ _ (inr (slice-append buf more c (c + 4) (need_ok _ _ n))) λ a _. inr refl

  parse_v6-append : (c : ℕ) → Stable (parse_v6 buf c) (parse_v6 (buf ++ more) c)
  unfolding parse_v6
  parse_v6-append c = Stable-bind _ _ _ _ (need-append buf more (c + 16)) λ _ n.
      Stable-bind _ _ _ _ (inr (slice-append buf more c (c + 16) (need_ok _ _ n))) λ a _. inr refl

  parse_domain-append : (c : ℕ) → Stable (parse_domain buf c) (parse_domain (buf ++ more) c)
  unfolding parse_domain
  parse_domain-append c = Stable-bind _ _ _ _ (need-append buf more (c + 1)) λ _ n.
      let room : c + 1 ≤ length buf = need_ok _ _ n in
      Stable-bind _ _ _ _ (inr (index-append buf more c (omega arith))) λ len _.
        Stable-ensure (leb len max_domain_len) (domain_too_long len) _ _ (
          Stable-bind _ _ _ _ (need-append buf more (c + 1 + len)) λ _ m.
            Stable-bind _ _ _ _ (inr (slice-append buf more (c + 1) (c + 1 + len) (need_ok _ _ m)))
              λ d _. inr refl)

  parse_host-append :
      (atyp c : ℕ) → Stable (parse_host buf atyp c) (parse_host (buf ++ more) atyp c)
  unfolding parse_host
  parse_host-append atyp c = Stable-if (atyp == atyp_ipv4) _ _ _ _ (parse_v4-append c) (
      Stable-if (atyp == atyp_domain) _ _ _ _ (parse_domain-append c)
        (Stable-if (atyp == atyp_ipv6) _ (err (bad_atyp atyp)) _ _ (parse_v6-append c) (inr refl)))

  module _ (h : Hmac) (key : Bytes) (now max_skew : ℕ) where
    parse_tail-append :
        (timestamp : ℕ) (host : Host) (c : ℕ)
        → Stable
            (parse_tail h buf key now max_skew timestamp host c)
            (parse_tail h (buf ++ more) key now max_skew timestamp host c)
    unfolding parse_tail
    parse_tail-append timestamp host c = Stable-bind _ _ _ _ (need-append buf more (c + 2)) λ _ n.
        Stable-bind _ _ _ _ (inr (slice-append buf more c (c + 2) (need_ok _ _ n))) λ port _.
          Stable-bind _ _ _ _ (need-append buf more (c + 2 + mac_len)) λ _ m.
            let room : c + 2 + mac_len ≤ length buf = need_ok _ _ m in
            Stable-bind _ _ _ _ (inr (slice-append buf more 0 (c + 2) (omega arith))) λ signed _.
              Stable-bind _ _ _ _ (inr (slice-append buf more (c + 2) (c + 2 + mac_len) room))
                λ tag _. inr refl

    -- More bytes behind the buffer change no verdict: unless the decoder asks for more, it says the
    -- same of the buffer and of the buffer with any bytes after it.
    pub parse_request-Stable :
        Stable
          (parse_request h buf key now max_skew)
          (parse_request h (buf ++ more) key now max_skew)
    unfolding parse_request
    parse_request-Stable = Stable-bind _ _ _ _ (need-append buf more 10) λ _ n.
        let room : 10 ≤ length buf = need_ok _ _ n in
        Stable-bind _ _ _ _ (inr (index-append buf more 0 (omega arith))) λ found _.
          Stable-ensure (found == version) (bad_version found) _ _ (
            Stable-bind _ _ _ _ (inr (slice-append buf more 1 9 (omega arith))) λ ts _.
              Stable-bind _ _ _ _ (inr (index-append buf more 9 (omega arith))) λ atyp _.
                Stable-bind _ _ _ _ (parse_host-append atyp 10)
                  λ hc _. parse_tail-append _ hc.0 hc.1)
