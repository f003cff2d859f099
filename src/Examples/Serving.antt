-- ===== src/Examples/Serving.antt =====
-- The example's connection behind one that fails its handshake, and a peer that sends byte by byte.
use reality_hydra.Base.{
  ℕ, zero, suc, ◌≡◌, true, false, List, [], ◌∷◌, ◌++◌, All, replicate, length-replicate, arith,
}
use reality_hydra.Server.{chunk, failed, handle}
use reality_hydra.Server.ReadLoop.{IsRead}
use reality_hydra.Server.Bounded.{handle_bounded}
use reality_hydra.Server.Serve.{Incoming, accept_failed, accepted}
use reality_hydra.Examples.Fixtures.{checksum_hmac, key}
use reality_hydra.Examples.Exit.{noon}

abbrev before : List Incoming
before = accepted false noon [] ∷ accepted true noon (failed ∷ []) ∷ []

abbrev after : List Incoming
after = accept_failed ∷ []

drops-IsRead : (n : ℕ) → All IsRead (replicate n (chunk (1 ∷ [])))
drops-IsRead zero = tt
drops-IsRead (suc n) = (((omega arith, tt), omega arith), drops-IsRead n)

handle_bounded_example :
    handle checksum_hmac noon key 120 (replicate 298 (chunk (1 ∷ [])) ++ (failed ∷ []))
    ≡ handle checksum_hmac noon key 120 (replicate 298 (chunk (1 ∷ [])) ++ [])
handle_bounded_example =
    handle_bounded checksum_hmac noon key 120 (replicate 298 (chunk (1 ∷ []))) (failed ∷ []) []
      (drops-IsRead 298) (omega (arith, length-replicate 298 (chunk (1 ∷ []))))
