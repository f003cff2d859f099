-- ===== src/Proto/Limits.antt =====
-- The decoder on any bytes: it never panics, and it asks for more only below the longest header.
use mathlib.Core.Path.{subst}
use reality_hydra.Base.{
  ℕ, ◌+◌, ◌≤◌, ◌<◌, ◌≡◌, refl, Bool, true, false, arith, length, Bytes, AreBytes, ok, err, panic,
  ◌>>=◌, ensure, leb, ◌==◌, is_utf8, if◌then◌else◌,
}
use reality_hydra.Proto.{
  Hmac, Host, v4, domain, v6, IsHost, FitsHeader, ProtoError, truncated, bad_version, bad_atyp,
  bad_domain, domain_too_long, bad_mac, stale, version, mac_len, max_domain_len, atyp_ipv4,
  atyp_domain, atyp_ipv6,
}
use reality_hydra.Proto.Parse.{
  Parsed, index, slice, need, parse_v4, parse_domain, parse_v6, parse_host, abs_diff, verify_mac,
  parse_tail, parse_request,
}
use reality_hydra.Proto.Parts.{body}
use reality_hydra.Proto.Inversion.{parse_host-HostAt}
use reality_hydra.Proto.Reads.{need_ok, slice_in_range, index_in_range}

-- version, timestamp, type, length, domain, port, tag
abbrev pub longest_header : ℕ
longest_header = 1 + 8 + 1 + (1 + max_domain_len) + 2 + mac_len

abbrev pub SaneError : ℕ → ProtoError → Type 0
SaneError size (truncated n) = (0 < n) × (size + n ≤ longest_header)
SaneError size _ = Unit

abbrev pub Sane : {A : Type 0} → ℕ → Parsed A → Type 0
Sane size (ok a) = Unit
Sane size (err e) = SaneError size e
Sane size panic = ⊥

Sane-bind :
    {A B : Type 0} (size : ℕ) (m : Parsed A) (f : A → Parsed B)
    → Sane size m
    → ((a : A) → m ≡ ok a → Sane size (f a))
    → Sane size (m >>= f)
Sane-bind size (ok a) f h k = k a refl
Sane-bind size (err e) f h k = h
Sane-bind size panic f h k = h

Sane-if :
    {A : Type 0} (size : ℕ) (b : Bool) (r s : Parsed A)
    → Sane size r
    → Sane size s
    → Sane size (if b then r else s)
Sane-if size true r s h k = h
Sane-if size false r s h k = k

need-Sane : (have want : ℕ) → want ≤ longest_header → Sane have (need have want)
unfolding need
need-Sane have want h = ground arith

slice-Sane :
    (buf : Bytes) (size from to : ℕ) → from ≤ to → to ≤ length buf → Sane size (slice buf from to)
slice-Sane buf size from to h k = rw (slice_in_range buf from to h k) tt

index-Sane : (buf : Bytes) (size i : ℕ) → i < length buf → Sane size (index buf i)
index-Sane buf size i h = let (b, e) = index_in_range buf i h in rw e tt

body_bound : (host : Host) → IsHost host → FitsHeader host → length (body host) ≤ 1 + max_domain_len
body_bound (v4 a) h f = omega arith
body_bound (domain d) h f = omega arith
body_bound (v6 a) h f = omega arith

module _ (buf : Bytes) where
  abbrev size : ℕ
  size = length buf

  parse_v4-Sane : Sane size (parse_v4 buf 10)
  unfolding parse_v4
  parse_v4-Sane = Sane-bind size (need size (10 + 4)) _ (need-Sane size 14 (omega arith)) λ _ n.
      Sane-bind size (slice buf 10 (10 + 4)) _
        (slice-Sane buf size 10 14 (omega arith) (need_ok _ _ n)) λ a _. tt

  parse_v6-Sane : Sane size (parse_v6 buf 10)
  unfolding parse_v6
  parse_v6-Sane = Sane-bind size (need size (10 + 16)) _ (need-Sane size 26 (omega arith)) λ _ n.
      Sane-bind size (slice buf 10 (10 + 16)) _
        (slice-Sane buf size 10 26 (omega arith) (need_ok _ _ n)) λ a _. tt

  ensure-Sane :
      {B : Type 0} (b : Bool) (e : ProtoError) (f : Unit {0} → Parsed B)
      → SaneError size e
      → (b ≡ true → Sane size (f tt))
      → Sane size (ensure b e >>= f)
  ensure-Sane true e f h k = k refl
  ensure-Sane false e f h k = h

  parse_domain-Sane : Sane size (parse_domain buf 10)
  unfolding parse_domain
  parse_domain-Sane = Sane-bind size (need size (10 + 1)) _ (need-Sane size 11 (omega arith)) λ _ n.
      Sane-bind size (index buf 10) _ (index-Sane buf size 10 (need_ok _ _ n)) λ len _.
        ensure-Sane (leb len max_domain_len) (domain_too_long len) _ tt λ short.
          Sane-bind size (need size (10 + 1 + len)) _ (need-Sane size (11 + len) (ground arith))
            λ _ m.
              Sane-bind size (slice buf (10 + 1) (10 + 1 + len)) _
                (slice-Sane buf size 11 (11 + len) (omega arith) (need_ok _ _ m))
                λ d _. ensure-Sane (is_utf8 d) bad_domain _ tt λ _. tt

  parse_host-Sane : (atyp : ℕ) → Sane size (parse_host buf atyp 10)
  unfolding parse_host
  parse_host-Sane atyp = Sane-if size (atyp == atyp_ipv4) (parse_v4 buf 10) _ parse_v4-Sane (
      Sane-if size (atyp == atyp_domain) (parse_domain buf 10) _ parse_domain-Sane
        (Sane-if size (atyp == atyp_ipv6) (parse_v6 buf 10) (err (bad_atyp atyp)) parse_v6-Sane tt))

  module _ (h : Hmac) (key : Bytes) (now max_skew : ℕ) where
    parse_tail-Sane :
        (ts : ℕ) (host : Host) (c : ℕ)
        → c ≤ 11 + max_domain_len
        → Sane size (parse_tail h buf key now max_skew ts host c)
    unfolding parse_tail verify_mac
    parse_tail-Sane ts host c fits =
        Sane-bind size (need size (c + 2)) _ (need-Sane size (c + 2) (omega arith)) λ _ n.
          Sane-bind size (slice buf c (c + 2)) _
            (slice-Sane buf size c (c + 2) (omega arith) (need_ok _ _ n))
            λ port _.
              Sane-bind size (need size (c + 2 + mac_len)) _
                (need-Sane size (c + 2 + mac_len) (omega arith))
                λ _ m.
                  let room : c + 2 + mac_len ≤ size = need_ok _ _ m in
                  Sane-bind size (slice buf 0 (c + 2)) _
                    (slice-Sane buf size 0 (c + 2) (omega arith) (omega arith))
                    λ signed _.
                      Sane-bind size (slice buf (c + 2) (c + 2 + mac_len)) _
                        (slice-Sane buf size (c + 2) (c + 2 + mac_len) (omega arith) room)
                        λ tag _. ensure-Sane (h.verify_slice key signed tag) bad_mac _ tt λ _.
                          ensure-Sane (leb (abs_diff now ts) max_skew) (stale max_skew) _ tt λ _. tt

    -- On any bytes the decoder indexes nothing out of range, and it asks for more bytes only while
    -- the buffer is shorter than the longest header: what it has and what it asks for together
    -- never pass that length, and it never asks for none.
    pub parse_request-Sane : AreBytes buf → Sane size (parse_request h buf key now max_skew)
    unfolding parse_request
    parse_request-Sane bytes =
        Sane-bind size (need size 10) _ (need-Sane size 10 (omega arith)) λ _ n.
          let room : 10 ≤ size = need_ok _ _ n in
          Sane-bind size (index buf 0) _ (index-Sane buf size 0 (omega arith)) λ found _.
            ensure-Sane (found == version) (bad_version found) _ tt λ _.
              Sane-bind size (slice buf 1 9) _ (slice-Sane buf size 1 9 (omega arith) (omega arith))
                λ ts _.
                  Sane-bind size (index buf 9) _ (index-Sane buf size 9 (omega arith)) λ atyp _.
                    Sane-bind size (parse_host buf atyp 10) _ (parse_host-Sane atyp) λ p at.
                      let (well, short, cursor, _, _) =
                        (parse_host-HostAt buf atyp 10 bytes at).0 in
                      parse_tail-Sane _ p.0 p.1 (omega (arith, cursor, body_bound p.0 well short))

    pub parse_request_limits :
        AreBytes buf
        → ¬ (parse_request h buf key now max_skew ≡ panic)
          × ((n : ℕ)
              → parse_request h buf key now max_skew ≡ err (truncated n)
              → (0 < n) × (length buf + n ≤ longest_header))
    parse_request_limits bytes = (
      λ e. subst (Sane size) e (parse_request-Sane bytes),
      λ n e. subst (Sane size) e (parse_request-Sane bytes),
    )
