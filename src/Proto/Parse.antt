-- ===== src/Proto/Parse.antt =====
-- The decoder `parse_request`: reads by index and slice, each behind a `need`. An index out of
-- range is a panic, as in Rust.
use reality_hydra.Base.{
  ℕ, ◌+◌, ◌-◌, ◌&&◌, none, some, length, take, drop, get_elem?, Bytes, from_le, from_be, is_utf8,
  Result, ok, err, panic, ◌>>=◌, ◌>>◌, ensure, ltb, leb, ◌==◌, if◌then◌else◌,
}
use reality_hydra.Proto.{
  Hmac, Host, v4, domain, v6, Target, ProtoError, truncated, bad_version, bad_atyp, bad_domain,
  domain_too_long, bad_mac, stale, version, mac_len, atyp_ipv4, atyp_domain, atyp_ipv6,
  max_domain_len,
}

abbrev pub Parsed : Type 0 → Type 0
Parsed A = Result ProtoError A

-- `buf[i]`
unfoldable pub index : Bytes → ℕ → Parsed ℕ
index buf i = elim (get_elem? buf i) [ none ↦ panic | some b ↦ ok b ]

-- `buf[from..to]`
unfoldable pub slice : Bytes → ℕ → ℕ → Parsed Bytes
slice buf from to =
    if leb from to && leb to (length buf) then ok (take (to - from) (drop from buf)) else panic

unfoldable pub need : ℕ → ℕ → Parsed (Unit {0})
need have want = if ltb have want then err (truncated (want - have)) else ok tt

-- The arms of the `match atyp`; each returns the host and the moved cursor.
unfoldable pub parse_v4 : Bytes → ℕ → Parsed (Host × ℕ)
parse_v4 buf cursor = do
  need (length buf) (cursor + 4)
  a ← slice buf cursor (cursor + 4)
  ok (v4 a, cursor + 4)

unfoldable pub parse_domain : Bytes → ℕ → Parsed (Host × ℕ)
parse_domain buf cursor = do
  need (length buf) (cursor + 1)
  len ← index buf cursor
  let cursor = cursor + 1
  ensure (leb len max_domain_len) (domain_too_long len)
  need (length buf) (cursor + len)
  d ← slice buf cursor (cursor + len)
  ensure (is_utf8 d) bad_domain
  ok (domain d, cursor + len)

unfoldable pub parse_v6 : Bytes → ℕ → Parsed (Host × ℕ)
parse_v6 buf cursor = do
  need (length buf) (cursor + 16)
  a ← slice buf cursor (cursor + 16)
  ok (v6 a, cursor + 16)

unfoldable pub parse_host : Bytes → ℕ → ℕ → Parsed (Host × ℕ)
parse_host buf atyp cursor =
    if atyp == atyp_ipv4
    then parse_v4 buf cursor
    else if atyp == atyp_domain
    then parse_domain buf cursor
    else if atyp == atyp_ipv6
    then parse_v6 buf cursor
    else err (bad_atyp atyp)

-- `u64::abs_diff`
abbrev pub abs_diff : ℕ → ℕ → ℕ
abs_diff a b = if ltb a b then b - a else a - b

pub record ParsedRequest : Type 0 where
  pub target : Target
  pub timestamp : ℕ
  pub consumed : ℕ

-- From the port on: the port, the tag, the freshness.
module _ (h : Hmac) where
  unfoldable pub verify_mac : Bytes → Bytes → Bytes → Parsed (Unit {0})
  verify_mac key signed tag = ensure (h.verify_slice key signed tag) bad_mac

  unfoldable pub parse_tail : Bytes → Bytes → ℕ → ℕ → ℕ → Host → ℕ → Parsed ParsedRequest
  parse_tail buf key now max_skew timestamp host cursor = do
    need (length buf) (cursor + 2)
    port ← slice buf cursor (cursor + 2)
    let cursor = cursor + 2
    need (length buf) (cursor + mac_len)
    signed ← slice buf 0 cursor
    tag ← slice buf cursor (cursor + mac_len)
    verify_mac key signed tag
    ensure (leb (abs_diff now timestamp) max_skew) (stale max_skew)
    ok (record {
      target = record { host = host; port = from_be port };
      timestamp = timestamp;
      consumed = cursor + mac_len;
    })

  unfoldable pub parse_request : Bytes → Bytes → ℕ → ℕ → Parsed ParsedRequest
  parse_request buf key now max_skew = do
    need (length buf) 10
    found ← index buf 0
    ensure (found == version) (bad_version found)
    ts_bytes ← slice buf 1 9
    let timestamp = from_le ts_bytes
    atyp ← index buf 9
    (host, cursor) ← parse_host buf atyp 10
    parse_tail buf key now max_skew timestamp host cursor
