-- ===== src/Client/Meeting.antt =====
-- The client and the exit node together.
use reality_hydra.Base.{
  Bool-cases, ◌||◌, text_eq, text_eq→eq, inl, inr, ap, ◌∙◌, false, Bool-cases, ◌||◌, ℕ, ◌≤◌, ◌<◌,
  ◌^◌, ◌≡◌, ◌≢◌, refl, ap, ◌∙◌, Bool, true, false, List, [], ◌∷◌, ◌++◌, map, concat, All, Bytes,
  Option, none, some, ok, text_eq, text_eq→eq, inl, inr,
}
use reality_hydra.Proto.{Hmac, Target, IsTarget, FitsHeader, display, encode_request}
use reality_hydra.Proto.Parse.{abs_diff}
use reality_hydra.Server.{World, chunk, handle}
use reality_hydra.Server.Delivery.{handle_delivers}
use reality_hydra.Client.{
  placeholder, verify_server_cert, Dial, TunnelClient, on_reply, await_reply, placeholder,
  send_header, open_tunnel,
}

-- The first byte of a reply.
abbrev pub first : Bytes → Option ℕ
first [] = none
first (b ∷ bs) = some b

module _ (h : Hmac) (digest : Bytes → Bytes) (legal_name : Bytes → Bool) where
  mismatch :
      (cert_pin : Option Bytes) (end_entity pin : Bytes)
      → cert_pin ≡ some pin
      → digest end_entity ≢ pin
      → verify_server_cert digest cert_pin end_entity ≡ false
  unfolding verify_server_cert
  mismatch cert_pin end_entity pin pinned other =
      elim (Bool-cases (text_eq (digest end_entity) pin)) [
        | inl same ↦ absurd (other (text_eq→eq (digest end_entity) pin same))
        | inr apart ↦ ap (λ p. verify_server_cert digest p end_entity) pinned ∙ apart
      ]

  -- Nothing is written to a server whose certificate is not the pinned one, and no such tunnel opens.
  pub open_tunnel_pinned :
      (client : TunnelClient) (timestamp : ℕ) (dial : Dial) (sni pin : Bytes) (target : Target)
      → client.cert_pin ≡ some pin
      → digest dial.end_entity ≢ pin
      → let o = open_tunnel h digest legal_name client timestamp dial sni target in
        (o.written ≡ []) × (o.result ≢ ok tt)
  unfolding open_tunnel verify_server_cert
  open_tunnel_pinned client timestamp dial sni pin target pinned other =
      let refused = mismatch client.cert_pin dial.end_entity pin pinned other in
      elim (Bool-cases dial.connects) [
        | inr none_there ↦ rw none_there (refl, λ e. cc)
        | inl there ↦ elim (Bool-cases (legal_name sni || legal_name placeholder)) [
          | inr no_name ↦ rw (there, no_name) (refl, λ e. cc)
          | inl named ↦ rw (there, named, refused) (refl, λ e. cc)
        ]
      ]

  -- As below, when either the SNI or the fixed name is legal.
  pub open_tunnel_either :
      (w : World) (client : TunnelClient) (max_skew timestamp : ℕ) (end_entity sni : Bytes)
      (t : Target) (cs : List Bytes) (extra : Bytes)
      → timestamp < 2 ^ 64
      → IsTarget t
      → FitsHeader t.host
      → ((round : ℕ) → abs_diff (w.clock round) timestamp ≤ max_skew)
      → (legal_name sni || legal_name placeholder) ≡ true
      → verify_server_cert digest client.cert_pin end_entity ≡ true
      → All (λ c. c ≢ []) cs
      → concat cs ≡ encode_request h client.master_secret timestamp t ++ extra
      → w.reaches (display t) ≡ true
      → w.reply_written ≡ true
      → w.forward_written ≡ true
      → let s = handle h w client.master_secret max_skew (map chunk cs) in
        let dial : Dial = record {
          connects = true;
          end_entity = end_entity;
          handshakes = true;
          header_written = true;
          reply = first s.sent;
        } in
        (s.dialled ≡ display t ∷ [])
        × (s.relayed ≡ true)
        × (open_tunnel h digest legal_name client timestamp dial sni t ≡ record {
          written = encode_request h client.master_secret timestamp t;
          result = ok tt;
        })
  unfolding open_tunnel send_header await_reply on_reply
  open_tunnel_either w client max_skew timestamp end_entity sni t cs extra stamp well fits fresh
        legal pinned whole cut reach reply forwards =
      let (early, (unread, done, rest)) =
        handle_delivers h w client.master_secret max_skew timestamp t stamp well fits fresh cs extra
          whole cut reach reply forwards in
      rw (done, legal, pinned) (refl, refl, refl)

  -- The client dials with a legal name and the pinned certificate, the exit node reads the header in
  -- any chunks with any bytes after it, within the skew of its clock, and reaches the target: then the
  -- exit node dials that target alone and relays, and its reply opens the tunnel at the client.
  pub open_tunnel_meets :
      (w : World) (client : TunnelClient) (max_skew timestamp : ℕ) (end_entity sni : Bytes)
      (t : Target) (cs : List Bytes) (extra : Bytes)
      → timestamp < 2 ^ 64
      → IsTarget t
      → FitsHeader t.host
      → ((round : ℕ) → abs_diff (w.clock round) timestamp ≤ max_skew)
      → legal_name sni ≡ true
      → verify_server_cert digest client.cert_pin end_entity ≡ true
      → All (λ c. c ≢ []) cs
      → concat cs ≡ encode_request h client.master_secret timestamp t ++ extra
      → w.reaches (display t) ≡ true
      → w.reply_written ≡ true
      → w.forward_written ≡ true
      → let s = handle h w client.master_secret max_skew (map chunk cs) in
        let dial : Dial = record {
          connects = true;
          end_entity = end_entity;
          handshakes = true;
          header_written = true;
          reply = first s.sent;
        } in
        (s.dialled ≡ display t ∷ [])
        × (s.relayed ≡ true)
        × (open_tunnel h digest legal_name client timestamp dial sni t ≡ record {
          written = encode_request h client.master_secret timestamp t;
          result = ok tt;
        })
  open_tunnel_meets w client max_skew timestamp end_entity sni t cs extra stamp well fits fresh
        legal =
      open_tunnel_either w client max_skew timestamp end_entity sni t cs extra stamp well fits fresh
        (ap (λ b. b || legal_name placeholder) legal)
