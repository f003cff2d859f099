-- ===== src/Examples/Tunnel.antt =====
-- The header of the tunnel for 192.0.2.1:443.
use reality_hydra.Base.{
  ℕ, ◌≡◌, ◌≤◌, ◌<◌, ◌^◌, refl, [], ◌∷◌, ◌++◌, length, take, drop, le_bytes, All-append, Bytes,
  IsByte, AreBytes, arith, ok, err,
}
use reality_hydra.Proto.{
  IsTarget, FitsHeader, truncated, encode_host, encode_addr, unsigned, mac, encode_request,
}
use reality_hydra.Proto.Parse.{ParsedRequest, abs_diff, parse_request}
use reality_hydra.Proto.RoundTrip.{parse_request-encode_request}
use reality_hydra.Proto.Accepted.{parse_request-accepted}
use reality_hydra.Proto.Prefixes.{parse_request-prefix}
use reality_hydra.Proto.Limits.{Sane, parse_request-Sane}
use reality_hydra.Proto.Reads.{Stable}
use reality_hydra.Proto.Stability.{parse_request-Stable}
use reality_hydra.Server.Delivery.{encode_request-AreBytes}
use reality_hydra.Examples.Fixtures.{checksum_hmac, key, edge}

pub edge-IsTarget : IsTarget edge
edge-IsTarget =
    ((refl, (omega arith, (omega arith, (omega arith, (omega arith, tt))))), omega arith)

abbrev wire : Bytes
wire = encode_request checksum_hmac key 1000 edge

abbrev found : ParsedRequest
found = record { target = edge; timestamp = 1000; consumed = length wire }

parse_request-encode_request_example :
    parse_request checksum_hmac (wire ++ (7 ∷ [])) key 1010 120 ≡ ok found
parse_request-encode_request_example =
    parse_request-encode_request checksum_hmac key 1010 120 1000 edge (7 ∷ []) (omega arith)
      edge-IsTarget tt (omega arith)

wire-AreBytes : AreBytes (wire ++ (7 ∷ []))
wire-AreBytes =
    All-append IsByte wire (7 ∷ [])
      (encode_request-AreBytes checksum_hmac key 1000 edge edge-IsTarget tt) (omega arith, tt)

parse_request-accepted_example :
    IsTarget edge
    × FitsHeader edge.host
    × (1000 < 2 ^ 64)
    × (abs_diff 1010 1000 ≤ 120)
    × (length wire ≤ length (wire ++ (7 ∷ [])))
    × (take (length wire) (wire ++ (7 ∷ [])) ≡ wire)
parse_request-accepted_example =
    parse_request-accepted checksum_hmac (wire ++ (7 ∷ [])) key 1010 120 wire-AreBytes
      parse_request-encode_request_example

abbrev behind : Bytes
behind = drop 3 wire

wire_split : wire ≡ (1 ∷ 232 ∷ []) ++ (3 ∷ behind)
unfolding encode_request unsigned encode_addr encode_host mac le_bytes
wire_split = refl

parse_request-prefix_example :
    (n : ℕ) × (parse_request checksum_hmac (1 ∷ 232 ∷ []) key 1010 120 ≡ err (truncated n))
parse_request-prefix_example =
    parse_request-prefix checksum_hmac key 1010 120 1000 edge (1 ∷ 232 ∷ []) behind 3 (omega arith)
      edge-IsTarget tt (omega arith) (omega arith, (omega arith, tt)) wire_split

parse_request-Sane_example : Sane 2 (parse_request checksum_hmac (1 ∷ 232 ∷ []) key 1010 120)
parse_request-Sane_example =
    parse_request-Sane (1 ∷ 232 ∷ []) checksum_hmac key 1010 120 (omega arith, (omega arith, tt))

parse_request-Stable_example :
    Stable
      (parse_request checksum_hmac (wire ++ (7 ∷ [])) key 1010 120)
      (parse_request checksum_hmac ((wire ++ (7 ∷ [])) ++ (9 ∷ [])) key 1010 120)
parse_request-Stable_example =
    parse_request-Stable (wire ++ (7 ∷ [])) (9 ∷ []) checksum_hmac key 1010 120
