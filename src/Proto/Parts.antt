-- ===== src/Proto/Parts.antt =====
-- A header in the parts in which the decoder reads it, and the decoder on each part.
use mathlib.Core.List.{append_assoc}
use reality_hydra.Base.{
  ℕ, suc, ◌+◌, ◌%◌, ◌≤◌, ◌<◌, ◌≡◌, refl, sym, ap, ◌∙◌, true, [], ◌∷◌, ◌++◌, arith, length,
  length-append, Bytes, le_bytes, be_bytes, length-le_bytes, length-be_bytes, from_be-be_bytes, ok,
  le→leb, is_utf8,
}
use reality_hydra.Proto.{
  unsigned, encode_addr, Target, max_domain_len, Hmac, Host, v4, domain, v6, IsHost, FitsHeader,
  version, mac_len, encode_host, mac,
}
use reality_hydra.Proto.Parse.{
  index, slice, need, parse_v4, parse_domain, parse_v6, parse_host, abs_diff, verify_mac,
  parse_tail,
}
use reality_hydra.Proto.Reads.{need_enough, slice_part, index_part}

-- The header up to the host: version, timestamp, address type.
pub length-head : (ts atyp : ℕ) → length (version ∷ le_bytes 8 ts ++ (atyp ∷ [])) ≡ 10
length-head ts atyp =
    let e : length (le_bytes 8 ts ++ (atyp ∷ [])) ≡ length (le_bytes 8 ts) + 1 =
      length-append (le_bytes 8 ts) (atyp ∷ []) in
    omega (arith, e, length-le_bytes 8 ts)

-- The host behind `pre`, read at its cursor; `atyp` is the byte before.
abbrev pub body : Host → Bytes
body (v4 a) = a
body (domain d) = (length d % 256) ∷ d
body (v6 a) = a

abbrev pub atyp_of : Host → ℕ
atyp_of (v4 a) = 0x01
atyp_of (domain d) = 0x03
atyp_of (v6 a) = 0x04

pub encode_host-eq : (host : Host) → encode_host host ≡ atyp_of host ∷ body host
unfolding encode_host
encode_host-eq (v4 a) = refl
encode_host-eq (domain d) = refl
encode_host-eq (v6 a) = refl

parse_domain-body :
    (d pre post : Bytes)
    → is_utf8 d ≡ true
    → length d ≤ max_domain_len
    → parse_domain (pre ++ ((length d % 256) ∷ (d ++ post))) (length pre)
      ≡ ok (domain d, length pre + length (body (domain d)))
unfolding parse_domain
parse_domain-body d pre post text fits =
    let buf : Bytes = pre ++ ((length d % 256) ∷ (d ++ post)) in
    let size : length buf ≡ length pre + suc (length d + length post) =
      length-append pre ((length d % 256) ∷ (d ++ post))
      ∙ ap (λ (n : ℕ). length pre + suc n) (length-append d post) in
    let cut : length d % 256 ≡ length d = omega arith in
    let one : need (length buf) (length pre + 1) ≡ ok tt =
      need_enough (length buf) (length pre + 1) (omega (arith, size)) in
    let len : index buf (length pre) ≡ ok (length d) =
      index_part pre (d ++ post) (length d % 256) (length pre) refl ∙ ap ok cut in
    let more : need (length buf) (length pre + 1 + length d) ≡ ok tt =
      need_enough (length buf) (length pre + 1 + length d) (omega (arith, size)) in
    let moved : buf ≡ (pre ++ ((length d % 256) ∷ [])) ++ (d ++ post) =
      sym (append_assoc pre ((length d % 256) ∷ []) (d ++ post)) in
    let text_bytes : slice buf (length pre + 1) (length pre + 1 + length d) ≡ ok d =
      ap (λ (b : Bytes). slice b (length pre + 1) (length pre + 1 + length d)) moved
      ∙ slice_part (pre ++ ((length d % 256) ∷ [])) d post (length pre + 1)
          (length pre + 1 + length d) (omega (arith, length-append pre ((length d % 256) ∷ [])))
          (omega (arith, length-append pre ((length d % 256) ∷ []))) in
    rw (one, len, le→leb (length d) max_domain_len fits, more, text_bytes, text) (ground arith)

pub parse_host-body :
    (host : Host) (pre post : Bytes) (c : ℕ)
    → c ≡ length pre
    → IsHost host
    → FitsHeader host
    → parse_host (pre ++ (body host ++ post)) (atyp_of host) c
      ≡ ok (host, length pre + length (body host))
unfolding parse_host parse_v4 parse_v6
parse_host-body (v4 a) pre post c e h f = rw e (
    rw
      (need_enough (length (pre ++ (a ++ post))) (length pre + 4)
        (rw (length-append, length-append) (omega arith)))
      (rw (slice_part pre a post (length pre) (length pre + 4) refl (omega arith)) (ground arith)))
parse_host-body (domain d) pre post c e h f = rw e (parse_domain-body d pre post h.0 f)
parse_host-body (v6 a) pre post c e h f = rw e (
    rw
      (need_enough (length (pre ++ (a ++ post))) (length pre + 16)
        (rw (length-append, length-append) (omega arith)))
      (rw (slice_part pre a post (length pre) (length pre + 16) refl (omega arith)) (ground arith)))

-- The tail: port, tag, freshness, behind the signed bytes up to the port.
module _ (h : Hmac) (key : Bytes) (now max_skew ts : ℕ) (host : Host) where
  pub parse_tail-encoded :
      (pre rest : Bytes) (port c : ℕ)
      → c ≡ length pre
      → port < 65536
      → abs_diff now ts ≤ max_skew
      → parse_tail h
          (pre ++ (be_bytes 2 port ++ (mac h key (pre ++ be_bytes 2 port) ++ rest)))
          key
          now
          max_skew
          ts
          host
          c
        ≡ ok (record {
          target = record { host = host; port = port };
          timestamp = ts;
          consumed = c + 2 + mac_len;
        })
  unfolding parse_tail verify_mac
  parse_tail-encoded pre rest port c e fits fresh =
      let bytes : Bytes = be_bytes 2 port in
      let signed : Bytes = pre ++ bytes in
      let tag : Bytes = mac h key signed in
      let buf : Bytes = pre ++ (bytes ++ (tag ++ rest)) in
      let moved : buf ≡ signed ++ (tag ++ rest) = sym (append_assoc pre bytes (tag ++ rest)) in
      let two : length signed ≡ c + 2 =
        omega (arith, length-append pre bytes, length-be_bytes 2 port) in
      let long : length tag ≡ 32 = unfold mac in h.length-finalize key signed in
      let size : length buf ≡ c + 2 + (32 + length rest) =
        ap length moved
        ∙ length-append signed (tag ++ rest)
        ∙ omega (arith, two, long, length-append tag rest) in
      let room : need (length buf) (c + 2) ≡ ok tt =
        need_enough (length buf) (c + 2) (omega (arith, size)) in
      let got_port : slice buf c (c + 2) ≡ ok bytes =
        slice_part pre bytes (tag ++ rest) c (c + 2) e (omega (arith, length-be_bytes 2 port)) in
      let room_tag : need (length buf) (c + 2 + mac_len) ≡ ok tt =
        need_enough (length buf) (c + 2 + mac_len) (omega (arith, size)) in
      let got_signed : slice buf 0 (c + 2) ≡ ok signed =
        ap (λ (b : Bytes). slice b 0 (c + 2)) moved
        ∙ slice_part [] signed (tag ++ rest) 0 (c + 2) refl (omega (arith, two)) in
      let got_tag : slice buf (c + 2) (c + 2 + mac_len) ≡ ok tag =
        ap (λ (b : Bytes). slice b (c + 2) (c + 2 + mac_len)) moved
        ∙ slice_part signed tag rest (c + 2) (c + 2 + mac_len) (sym two)
            (omega (arith, two, long)) in
      let good : h.verify_slice key signed tag ≡ true =
        (h.verify_slice_iff key signed tag).1 (unfold mac in refl) in
      rw (
        room,
        got_port,
        room_tag,
        got_signed,
        got_tag,
        good,
        le→leb (abs_diff now ts) max_skew fresh,
        from_be-be_bytes 2 port fits,
      )

-- The header in the order in which the decoder reads it.
abbrev pub head : ℕ → Host → Bytes
head ts host = version ∷ le_bytes 8 ts ++ (atyp_of host ∷ [])

pub unsigned-eq :
    (ts : ℕ) (t : Target) → unsigned ts t ≡ (head ts t.host ++ body t.host) ++ be_bytes 2 t.port
unfolding unsigned encode_addr
unsigned-eq ts t =
    ap (λ (b : Bytes). version ∷ le_bytes 8 ts ++ (b ++ be_bytes 2 t.port)) (encode_host-eq t.host)
    ∙ simp append_assoc
