-- ===== src/Proto/RoundTrip.antt =====
-- The decoder reads back what the encoder wrote.
use mathlib.Core.List.{append_assoc}
use reality_hydra.Base.{
  from_le-le_bytes, ◌^◌, ℕ, ◌+◌, ◌≤◌, ◌<◌, ◌≡◌, refl, sym, ap, ◌∙◌, [], ◌∷◌, ◌++◌, arith, length,
  length-append, Bytes, le_bytes, be_bytes, length-le_bytes, length-be_bytes, ok,
}
use reality_hydra.Proto.{
  unsigned, encode_request, IsTarget, Target, Hmac, Host, IsHost, FitsHeader, version, mac_len, mac,
}
use reality_hydra.Proto.Parse.{parse_request, index, slice, need, parse_host, abs_diff, parse_tail}
use reality_hydra.Proto.Parts.{
  head, body, atyp_of, length-head, parse_host-body, parse_tail-encoded, unsigned-eq,
}
use reality_hydra.Proto.Reads.{need_enough, slice_part, index_part}

module _ (h : Hmac) (key : Bytes) (now max_skew : ℕ) where
  -- The part before the tail, on a buffer that is known in parts.
  parse_front :
      (ts : ℕ) (host : Host) (post : Bytes)
      → ts < 2 ^ 64
      → IsHost host
      → FitsHeader host
      → let buf = head ts host ++ (body host ++ post) in
        parse_request h buf key now max_skew
        ≡ parse_tail h buf key now max_skew ts host (length (head ts host) + length (body host))
  unfolding parse_request
  parse_front ts host post stamp well fits =
      let stamp_bytes : Bytes = le_bytes 8 ts in
      let behind : Bytes = body host ++ post in
      let buf : Bytes = head ts host ++ behind in
      let ten : length (head ts host) ≡ 10 = length-head ts (atyp_of host) in
      let room : need (length buf) 10 ≡ ok tt =
        need_enough (length buf) 10 (omega (arith, ten, length-append (head ts host) behind)) in
      let first : index buf 0 ≡ ok version =
        index_part [] (stamp_bytes ++ (atyp_of host ∷ []) ++ behind) version 0 refl in
      let moved : buf ≡ (version ∷ []) ++ (stamp_bytes ++ (atyp_of host ∷ behind)) =
        simp append_assoc in
      let got_stamp : slice buf 1 9 ≡ ok stamp_bytes =
        ap (λ (b : Bytes). slice b 1 9) moved
        ∙ slice_part (version ∷ []) stamp_bytes (atyp_of host ∷ behind) 1 9 refl
            (omega (arith, length-le_bytes 8 ts)) in
      let got_atyp : index buf 9 ≡ ok (atyp_of host) =
        ap (λ (b : Bytes). index b 9) moved
        ∙ index_part (version ∷ stamp_bytes) behind (atyp_of host) 9
            (omega (arith, length-le_bytes 8 ts)) in
      let got_host : parse_host buf (atyp_of host) 10
          ≡ ok (host, length (head ts host) + length (body host)) =
        parse_host-body host (head ts host) post 10 (sym ten) well fits in
      rw (room, first, got_stamp, got_atyp, from_le-le_bytes 8 ts stamp, got_host)

  -- A header for a well-formed target, stamped within the skew, decodes to the target, the stamp
  -- and its own length, whatever follows it.
  pub parse_request-encode_request :
      (ts : ℕ) (t : Target) (rest : Bytes)
      → ts < 2 ^ 64
      → IsTarget t
      → FitsHeader t.host
      → abs_diff now ts ≤ max_skew
      → parse_request h (encode_request h key ts t ++ rest) key now max_skew
        ≡ ok (record { target = t; timestamp = ts; consumed = length (encode_request h key ts t) })
  unfolding encode_request mac
  parse_request-encode_request ts t rest stamp well fits fresh =
      let front : Bytes = head ts t.host ++ body t.host in
      let tag : Bytes = mac h key (front ++ be_bytes 2 t.port) in
      let buf : Bytes = front ++ (be_bytes 2 t.port ++ (tag ++ rest)) in
      let whole : encode_request h key ts t ++ rest ≡ buf =
        ap (λ (u : Bytes). (u ++ mac h key u) ++ rest) (unsigned-eq ts t) ∙ simp append_assoc in
      let size : length (encode_request h key ts t) ≡ length front + 2 + mac_len =
        length-append (unsigned ts t) _
        ∙ omega (
          arith,
          ap length (unsigned-eq ts t),
          length-append front (be_bytes 2 t.port),
          length-be_bytes 2 t.port,
          h.length-finalize key (unsigned ts t),
        ) in
      let front_size : length front ≡ length (head ts t.host) + length (body t.host) =
        length-append (head ts t.host) (body t.host) in
      let joined : head ts t.host ++ (body t.host ++ (be_bytes 2 t.port ++ (tag ++ rest))) ≡ buf =
        sym (append_assoc (head ts t.host) (body t.host) _) in
      ap (λ (b : Bytes). parse_request h b key now max_skew) (whole ∙ sym joined)
      ∙ parse_front ts t.host (be_bytes 2 t.port ++ (tag ++ rest)) stamp well.0 fits
      ∙ ap
          (λ (b : Bytes).
            parse_tail h b key now max_skew ts t.host
              (length (head ts t.host) + length (body t.host)))
          joined
      ∙ parse_tail-encoded h key now max_skew ts t.host front rest t.port _ (sym front_size) well.1
          fresh
      ∙ ap (λ (n : ℕ). ok (record { target = t; timestamp = ts; consumed = n }))
          {x = length (head ts t.host) + length (body t.host) + 2 + mac_len}
          {y = length (encode_request h key ts t)} (omega (arith, size, front_size))
