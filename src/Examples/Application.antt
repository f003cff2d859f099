-- ===== src/Examples/Application.antt =====
-- An application that asks for 192.0.2.1:443 without authentication.
use reality_hydra.Base.{◌≡◌, [], ◌∷◌, ◌++◌, true, arith, ok}
use reality_hydra.Socks.{Socks5Addr, send_reply, handshake, socks_to_target}
use reality_hydra.Socks.Request.{request, handshake-request}
use reality_hydra.Examples.Fixtures.{edge}
use reality_hydra.Examples.Tunnel.{edge-IsTarget}

handshake-request_example :
    (addr : Socks5Addr) × (handshake true true (request (0 ∷ []) edge ++ (7 ∷ []))
      ≡ record { sent = 0x05 ∷ 0x00 ∷ send_reply 0x00; result = ok (addr, 7 ∷ []) })
    × (socks_to_target addr ≡ edge)
handshake-request_example = handshake-request (0 ∷ []) (7 ∷ []) edge (omega arith) edge-IsTarget tt
