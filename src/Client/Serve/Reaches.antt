-- ===== src/Client/Serve/Reaches.antt =====
-- A connection among others through a client that was started from the command line.
use reality_hydra.Base.{
  arith, ◌≡◌, ◌≢◌, refl, ◌∙◌, ◌≤◌, ◌<◌, ◌^◌, ℕ, some, Bool, true, List, [], ◌∷◌, ◌++◌, Bytes, All,
  map, concat, length, get_elem?, get, ok, panic, Disk, FileTable,
}
use reality_hydra.Proto.{Hmac, Target, IsTarget, FitsHeader, display, encode_request}
use reality_hydra.Proto.Parse.{abs_diff}
use reality_hydra.Pool.{Floats, Rng}
use reality_hydra.Config.{Base64, HydraConfig}
use reality_hydra.Config.Load.{Toml, from_file}
use reality_hydra.Dns.{default_config}
use reality_hydra.Dns.Mock.{mock_resolve, empty_table}
use reality_hydra.Socks.Request.{request}
use reality_hydra.Server.{World, chunk, handle}
use reality_hydra.Client.{TunnelClient, placeholder, verify_server_cert}
use reality_hydra.Client.Meeting.{first}
use reality_hydra.Client.Pipeline.{
  Connection, Pipeline, Handled, with_resolve, build_tunnel, handle_connection, mock,
}
use reality_hydra.Client.Pipeline.Cold.{IsCold, mock-IsCold, handle_connection-IsCold}
use reality_hydra.Client.Pipeline.Drawn.{Reached, started, served, Reached-IsCurrent}
use reality_hydra.Client.Pipeline.Reach.{handle_connection_reaches}
use reality_hydra.Client.Pipeline.Warmed.{seen}
use reality_hydra.Client.Serve.{
  Arrival, lost, arrived, ClientArgs, Routed, with_handled, route_all, serve, run_client,
  run_client-serve,
}

-- The listener had no error.
abbrev pub IsArrival : Arrival → Type 0
IsArrival lost = ⊥
IsArrival (arrived c) = Unit

mock_calm : (host : Bytes) → mock_resolve empty_table host ≢ panic
unfolding mock_resolve get
mock_calm host = λ e. cc

module _ (fl : Floats) (rng : Rng fl.F) (h : Hmac) (digest : Bytes → Bytes)
    (legal_name : Bytes → Bool) (builds : Bool) (config : HydraConfig fl.F) where
  -- The pipeline that a connection meets behind others.
  handled_at :
      (p : Pipeline fl rng h) (st : rng.State) (before after : List Arrival) (c : Connection)
      → All IsArrival before
      → Reached fl rng h digest legal_name builds config p
      → IsCold fl rng h p
      → (q : Pipeline fl rng h) × (st' : rng.State) × Reached fl rng h digest legal_name builds
          config q
        × IsCold fl rng h q
        × (get_elem?
              (route_all fl rng h digest legal_name
                (mock_resolve empty_table)
                p
                st
                (before ++ (arrived c ∷ after))).handled
              (length before)
            ≡ some (
                handle_connection fl rng h digest legal_name q st'
                  (with_resolve c (mock_resolve empty_table))))
  unfolding route_all with_handled
  handled_at p st [] after c fine r i = (p, st, r, i, refl)
  handled_at p st (lost ∷ before) after c fine r i = absurd fine.0
  handled_at p st (arrived b ∷ before) after c fine r i =
      let b' = with_resolve b (mock_resolve empty_table) in
      let o = handle_connection fl rng h digest legal_name p st b' in
      handled_at o.pipeline o.rng_state before after c fine.1 (served st b' r)
        (handle_connection-IsCold fl rng h digest legal_name p st b i)

  module _ (b64 : Base64) (parser : Toml fl.F) where
    -- A client is started with a configuration that its file gives and that sets it up for the exit
    -- node. Whatever connections came before and come after, one that asks for a target that fits a
    -- header, whose dial shows the pinned certificate, and whose header the exit node, with its clock
    -- within the skew, reads in any chunks with any bytes after it and can serve, has the exit node
    -- dial that target alone and relay, and relays what the application wrote after its request.
    pub run_client_reaches :
        (disk : Disk) (files : FileTable) (args : ClientArgs) (unix_secs : ℕ) (st : rng.State)
        (before after : List Arrival) (w : World) (c : Connection) (client : TunnelClient)
        (methods rest : Bytes) (t : Target) (max_skew : ℕ) (end_entity : Bytes) (cs : List Bytes)
        (extra : Bytes)
        → from_file fl b64 parser disk files args.config ≡ ok config
        → build_tunnel fl rng h builds config ≡ some client
        → All IsArrival before
        → c.greeted ≡ true
        → c.replied ≡ true
        → c.stream ≡ request methods t ++ rest
        → length methods < 256
        → IsTarget t
        → FitsHeader t.host
        → c.timestamp < 2 ^ 64
        → ((round : ℕ) → abs_diff (w.clock round) c.timestamp ≤ max_skew)
        → legal_name placeholder ≡ true
        → verify_server_cert digest client.cert_pin end_entity ≡ true
        → All (λ s. s ≢ []) cs
        → concat cs ≡ encode_request h client.master_secret c.timestamp t ++ extra
        → w.reaches (display t) ≡ true
        → w.reply_written ≡ true
        → w.forward_written ≡ true
        → c.dial ≡ record {
          connects = true;
          end_entity = end_entity;
          handshakes = true;
          header_written = true;
          reply = first (handle h w client.master_secret max_skew (map chunk cs)).sent;
        }
        → let s = handle h w client.master_secret max_skew (map chunk cs) in
          (routed : Routed fl rng h) × (o : Handled fl rng h) × (sni : Bytes) × (run_client fl rng h
              digest legal_name b64 parser disk files args true builds true unix_secs st
              (before ++ (arrived c ∷ after))
            ≡ ok routed)
          × (get_elem? routed.handled (length before) ≡ some o)
          × (seen fl rng h o
              ≡ (some sni, encode_request h client.master_secret c.timestamp t, some rest, ok tt))
          × (s.dialled ≡ display t ∷ [])
          × (s.relayed ≡ true)
    unfolding serve mock
    run_client_reaches disk files args unix_secs st before after w c client methods rest t max_skew
          end_entity cs extra loads set_up fine greeted replied stream few well fits stamp fresh
          legal pinned whole cut reach reply forwards dials =
        let p = mock fl rng h builds unix_secs config in
        let (q, st', r, i, there) =
          handled_at p st before after c fine (started unix_secs default_config)
            (mock-IsCold fl rng h builds unix_secs config) in
        let up : q.tunnel ≡ some client =
          (Reached-IsCurrent fl rng h digest legal_name builds config r).same_tunnel ∙ set_up in
        let (dialled, relayed, (sni, shown)) =
          handle_connection_reaches fl rng h digest legal_name w q st'
            (with_resolve c (mock_resolve empty_table)) client methods rest t max_skew end_entity cs
            extra up (rw i.bounds (omega arith)) mock_calm greeted replied stream few well fits
            stamp fresh legal pinned whole cut reach reply forwards dials in
        let routed =
          route_all fl rng h digest legal_name (mock_resolve empty_table) p st
            (before ++ (arrived c ∷ after)) in
        (
          routed,
          _,
          sni,
          run_client-serve fl rng h digest legal_name b64 parser disk files args builds true
              unix_secs st (before ++ (arrived c ∷ after)) config loads,
          there,
          shown,
          dialled,
          relayed,
        )
