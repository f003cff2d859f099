-- ===== src/Examples/Dialling.antt =====
-- A client with a pinned certificate, its own bytes in place of their digest.
use reality_hydra.Base.{◌≡◌, ◌≢◌, refl, [], ◌∷◌, Bytes, Bool, true, map, some, arith, ok, text_eq}
use reality_hydra.Proto.{display}
use reality_hydra.Server.{chunk, handle}
use reality_hydra.Client.{verify_server_cert, Dial, TunnelClient, open_tunnel}
use reality_hydra.Client.Meeting.{first, open_tunnel_pinned, open_tunnel_meets}
use reality_hydra.Examples.Fixtures.{checksum_hmac, key, edge}
use reality_hydra.Examples.Tunnel.{edge-IsTarget}
use reality_hydra.Examples.Exit.{noon, wire, cut, some_rest, joined}

abbrev pub client : TunnelClient
client = record { server_addr = b'h' ∷ []; cert_pin = some (8 ∷ []); master_secret = key }

abbrev pub as_is : Bytes → Bytes
as_is certificate = certificate

abbrev pub any_name : Bytes → Bool
any_name sni = true

abbrev imposter : Dial
imposter = record {
  connects = true;
  end_entity = 9 ∷ [];
  handshakes = true;
  header_written = true;
  reply = some 0;
}

not_pinned : as_is (9 ∷ []) ≢ 8 ∷ []
not_pinned e = cc

open_tunnel_pinned_example :
    let o = open_tunnel checksum_hmac as_is any_name client 1000 imposter (b'a' ∷ []) edge in
    (o.written ≡ []) × (o.result ≢ ok tt)
open_tunnel_pinned_example =
    open_tunnel_pinned checksum_hmac as_is any_name client 1000 imposter (b'a' ∷ []) (8 ∷ []) edge
      refl not_pinned

pub is_pinned : verify_server_cert as_is client.cert_pin (8 ∷ []) ≡ true
unfolding verify_server_cert text_eq
is_pinned = refl

open_tunnel_meets_example :
    let s = handle checksum_hmac noon key 120 (map chunk cut) in
    let dial : Dial = record {
      connects = true;
      end_entity = 8 ∷ [];
      handshakes = true;
      header_written = true;
      reply = first s.sent;
    } in
    (s.dialled ≡ display edge ∷ [])
    × (s.relayed ≡ true)
    × (open_tunnel checksum_hmac as_is any_name client 1000 dial (b'a' ∷ []) edge
        ≡ record { written = wire; result = ok tt })
open_tunnel_meets_example =
    open_tunnel_meets checksum_hmac as_is any_name noon client 120 1000 (8 ∷ []) (b'a' ∷ []) edge
      cut (7 ∷ []) (omega arith) edge-IsTarget tt (λ round. omega arith) refl is_pinned
      ((λ e. cc), (some_rest, tt)) joined refl refl refl
