-- ===== src/Client/Pipeline/Reach.antt =====
-- From the application's request to the exit node's dial.
use reality_hydra.Base.{
  arith, ℕ, ◌==◌, ◌≤◌, ◌<◌, ◌^◌, ◌≡◌, ◌≢◌, refl, ap, ◌∙◌, Bool, true, false, ◌||◌, Bool-cases, inl,
  inr, List, [], ◌∷◌, ◌++◌, map, concat, length, All, Bytes, some, ok, panic,
}
use reality_hydra.Proto.{
  Host, v4, v6, domain, Hmac, Target, IsTarget, FitsHeader, display, encode_request,
}
use reality_hydra.Proto.Parse.{abs_diff}
use reality_hydra.Pool.{Floats, Rng, epoch_at}
use reality_hydra.Dns.{warm}
use reality_hydra.Dns.Single.{warm_total}
use reality_hydra.Socks.{Handshake, handshake}
use reality_hydra.Socks.Request.{request, FitsSocks, handshake-request}
use reality_hydra.Server.{World, chunk, handle}
use reality_hydra.Client.{
  TunnelClient, Dial, Opened, placeholder, server_name, verify_server_cert, open_tunnel,
}
use reality_hydra.Client.Meeting.{first, open_tunnel_either}
use reality_hydra.Client.Pipeline.{
  Connection, Pipeline, maybe_refresh_epoch, select_sni, with_selector, through_tunnel, on_pick,
  on_target, on_handshake, handle_connection, unwrap_or, started,
}
use reality_hydra.Client.Pipeline.Warmed.{seen, after_warm-seen, refreshed_sane}

or_right : (a b : Bool) → b ≡ true → (a || b) ≡ true
or_right true b e = refl
or_right false b e = e

fits_socks : (host : Host) → FitsHeader host → FitsSocks host
fits_socks (v4 a) h = tt
fits_socks (domain d) h = omega (arith, h)
fits_socks (v6 a) h = tt

-- A dial that connects begins a handshake, when the fixed name is legal.
some_name :
    (legal_name : Bytes → Bool) (dial : Dial) (sni : Bytes)
    → dial.connects ≡ true
    → legal_name placeholder ≡ true
    → (shown : Bytes) × (server_name legal_name dial sni ≡ some shown)
unfolding server_name
some_name legal_name dial sni there legal = elim (Bool-cases (legal_name sni)) [
  | inl own ↦ (sni, rw (there, own) refl)
  | inr other ↦ (placeholder, rw (there, other, legal) refl)
]

module _ (fl : Floats) (rng : Rng fl.F) (h : Hmac) where
  refreshed_tunnel :
      (p : Pipeline fl rng h) (unix_secs : ℕ)
      → (maybe_refresh_epoch fl rng h p unix_secs).tunnel ≡ p.tunnel
  unfolding maybe_refresh_epoch
  refreshed_tunnel p unix_secs =
      elim (Bool-cases (p.current_epoch == epoch_at unix_secs p.config.epoch_len)) [
        | inl same ↦ rw same refl
        | inr moved ↦ rw moved refl
      ]

  module _ (digest : Bytes → Bytes) (legal_name : Bytes → Bool) where
    -- A connection past its handshake is seen as a tunnel opened for some SNI.
    on_target-seen :
        (p : Pipeline fl rng h) (st : rng.State) (c : Connection) (target : Target) (rest : Bytes)
        (client : TunnelClient)
        → p.tunnel ≡ some client
        → p.warmer_config.min_ttl ≤ p.warmer_config.max_ttl
        → ((host : Bytes) → c.resolve host ≢ panic)
        → (sni : Bytes) × (seen fl rng h (on_target fl rng h digest legal_name p st c target rest)
            ≡ (let o = open_tunnel h digest legal_name client c.timestamp c.dial sni target in
                (
                  server_name legal_name c.dial sni,
                  o.written,
                  started fl rng h rest o.result,
                  o.result,
                )))
    unfolding on_target on_pick through_tunnel with_selector
    on_target-seen p st c target rest client there sane calm =
        let q = maybe_refresh_epoch fl rng h p c.refresh_secs in
        let picked = select_sni fl rng h q (display target) c.now_ms st in
        let sni : Bytes = unwrap_or picked.0 placeholder in
        let up : q.tunnel ≡ some client = refreshed_tunnel p c.refresh_secs ∙ there in
        let calmly =
          warm_total q.warmer_config c.resolve q.warm_cache sni c.now_ms
            (refreshed_sane fl rng h digest legal_name p c.refresh_secs sane) (calm sni) in
        (
          sni,
          after_warm-seen fl rng h digest legal_name
                (warm q.warmer_config c.resolve q.warm_cache sni c.now_ms)
                (with_selector fl rng h q picked.1) picked.2 c c.resolve sni target rest calmly
              ∙ ap
                  (λ tunnel. seen fl rng h (
                    through_tunnel fl rng h digest legal_name tunnel
                      (with_selector fl rng h q picked.1) picked.2 c sni target rest))
                  up,
        )

    -- The application asks for a target that fits a header, the client is set up for the exit node and
    -- dials it with its pinned certificate, and the exit node, whose clock is within the skew, reads the
    -- header in any chunks with any bytes after it and reaches the target: then the exit node dials that
    -- target alone and relays, and the client, whatever its resolver answers short of a panic, relays
    -- what the application wrote after its request.
    pub handle_connection_reaches :
        (w : World) (p : Pipeline fl rng h) (st : rng.State) (c : Connection)
        (client : TunnelClient) (methods rest : Bytes) (t : Target) (max_skew : ℕ)
        (end_entity : Bytes) (cs : List Bytes) (extra : Bytes)
        → p.tunnel ≡ some client
        → p.warmer_config.min_ttl ≤ p.warmer_config.max_ttl
        → ((host : Bytes) → c.resolve host ≢ panic)
        → c.greeted ≡ true
        → c.replied ≡ true
        → c.stream ≡ request methods t ++ rest
        → length methods < 256
        → IsTarget t
        → FitsHeader t.host
        → c.timestamp < 2 ^ 64
        → ((round : ℕ) → abs_diff (w.clock round) c.timestamp ≤ max_skew)
        → legal_name placeholder ≡ true
        → verify_server_cert digest client.cert_pin end_entity ≡ true
        → All (λ s. s ≢ []) cs
        → concat cs ≡ encode_request h client.master_secret c.timestamp t ++ extra
        → w.reaches (display t) ≡ true
        → w.reply_written ≡ true
        → w.forward_written ≡ true
        → c.dial ≡ record {
          connects = true;
          end_entity = end_entity;
          handshakes = true;
          header_written = true;
          reply = first (handle h w client.master_secret max_skew (map chunk cs)).sent;
        }
        → let s = handle h w client.master_secret max_skew (map chunk cs) in
          let o = handle_connection fl rng h digest legal_name p st c in
          (s.dialled ≡ display t ∷ [])
          × (s.relayed ≡ true)
          × ((sni : Bytes) × (seen fl rng h o ≡ (
            some sni,
            encode_request h client.master_secret c.timestamp t,
            some rest,
            ok tt,
          )))
    unfolding handle_connection on_handshake started
    handle_connection_reaches w p st c client methods rest t max_skew end_entity cs extra there sane
          calm greeted replied stream few well fits stamp fresh legal pinned whole cut reach reply
          forwards dials =
        let (addr, shaken, same) =
          handshake-request methods rest t few well (fits_socks t.host fits) in
        let (sni, shown) = on_target-seen p st c t rest client there sane calm in
        let (dialled, relayed, opened) =
          open_tunnel_either h digest legal_name w client max_skew c.timestamp end_entity sni t cs
            extra stamp well fits fresh (or_right (legal_name sni) _ legal) pinned whole cut reach
            reply forwards in
        let (name, named) =
          some_name legal_name c.dial sni (ap (λ (d : Dial). d.connects) dials) legal in
        let reading : (handshake c.greeted c.replied c.stream).result ≡ ok (addr, rest) =
          rw (greeted, replied, stream) (ap (λ (s : Handshake). s.result) shaken) in
        (
          dialled,
          relayed,
          (
            name,
            ap (λ r. seen fl rng h (on_handshake fl rng h digest legal_name r p st c)) reading
                ∙ ap
                    (λ (t' : Target).
                      seen fl rng h (on_target fl rng h digest legal_name p st c t' rest))
                    same
                ∙ shown
                ∙ ap
                    (λ n.
                      let o = open_tunnel h digest legal_name client c.timestamp c.dial sni t in
                      (n, o.written, started fl rng h rest o.result, o.result))
                    named
                ∙ ap
                    (λ (d : Dial).
                      let o = open_tunnel h digest legal_name client c.timestamp d sni t in
                      (some name, o.written, started fl rng h rest o.result, o.result))
                    dials
                ∙ ap
                    (λ (o : Opened).
                      (some name, o.written, started fl rng h rest o.result, o.result))
                    opened,
          ),
        )
