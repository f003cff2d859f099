-- ===== src/Server/Delivery.antt =====
-- A valid header reaches its destination however the network cuts it up.
use mathlib.Core.Path.{subst}
use reality_hydra.Base.{
  ℕ, suc, ◌≤◌, ◌<◌, ◌^◌, ◌≡◌, ◌≢◌, refl, ap, ◌∙◌, inl, inr, true, List, [], ◌∷◌, ◌++◌, map,
  append_assoc, arith, length, length-append, drop-length-append, All, All-append, All-prefix,
  append_cases, concat, Bytes, IsByte, AreBytes, le_bytes-AreBytes, be_bytes-AreBytes, le_bytes,
  drop-length-append, Result, ok, lt→leb, leb, le→leb,
}
use reality_hydra.Proto.{
  Hmac, Target, Host, v4, domain, v6, IsHost, IsTarget, FitsHeader, display, encode_host,
  encode_addr, unsigned, mac, encode_request, reply_ok,
}
use reality_hydra.Proto.Parse.{ParsedRequest, abs_diff, parse_request}
use reality_hydra.Proto.RoundTrip.{parse_request-encode_request}
use reality_hydra.Proto.Prefixes.{parse_request-prefix}
use reality_hydra.Proto.Limits.{parse_request_limits}
use reality_hydra.Server.{
  forward, ServerError, Read, chunk, World, Header, Session, max_header, on_parse, read_header,
  dispatch, on_leftover, slice_from, handle,
}

encode_host-AreBytes : (host : Host) → IsHost host → FitsHeader host → AreBytes (encode_host host)
unfolding encode_host
encode_host-AreBytes (v4 a) h f = (omega arith, h.1)
encode_host-AreBytes (domain d) h f = (omega arith, (omega arith, h.1))
encode_host-AreBytes (v6 a) h f = (omega arith, h.1)

pub encode_request-AreBytes :
    (h : Hmac) (key : Bytes) (ts : ℕ) (t : Target)
    → IsTarget t
    → FitsHeader t.host
    → AreBytes (encode_request h key ts t)
unfolding encode_request unsigned encode_addr mac
encode_request-AreBytes h key ts t well fits =
    All-append IsByte (unsigned ts t) (mac h key (unsigned ts t))
      (All-append IsByte (1 ∷ le_bytes 8 ts) _ (omega arith, le_bytes-AreBytes 8 ts)
        (All-append IsByte (encode_host t.host) _ (encode_host-AreBytes t.host well.0 fits)
          (be_bytes-AreBytes 2 t.port)))
      (h.finalize-AreBytes key (unsigned ts t))

module _ (h : Hmac) (w : World) (key : Bytes) (max_skew ts : ℕ) (t : Target) (stamp : ts < 2 ^ 64)
    (well : IsTarget t) (fits : FitsHeader t.host)
    (fresh : (round : ℕ) → abs_diff (w.clock round) ts ≤ max_skew) where
  abbrev wire : Bytes
  wire = encode_request h key ts t

  abbrev found : ParsedRequest
  found = record { target = t; timestamp = ts; consumed = length wire }

  -- Once the header is there, the loop ends with it.
  complete :
      (early : Bytes) (left : List Read) (round : ℕ) (more : Result ServerError Header)
      → on_parse
          (parse_request h (wire ++ early) key (w.clock round) max_skew)
          (wire ++ early)
          left
          more
        ≡ ok (record { parsed = found; buf = wire ++ early; left = left })
  unfolding on_parse
  complete early left round more = rw (
      parse_request-encode_request h key (w.clock round) max_skew ts t early stamp well fits
        (fresh round))

  -- Before that, it reads on.
  incomplete :
      (front back : Bytes) (x : ℕ) (left : List Read) (round : ℕ) (more : Result ServerError Header)
      → wire ≡ front ++ (x ∷ back)
      → on_parse (parse_request h front key (w.clock round) max_skew) front left more ≡ more
  unfolding on_parse
  incomplete front back x left round more cut =
      let bytes : AreBytes front =
        All-prefix IsByte front (x ∷ back)
          (subst AreBytes cut (encode_request-AreBytes h key ts t well fits)) in
      let (n, asks) =
        parse_request-prefix h key (w.clock round) max_skew ts t front back x stamp well fits
          (fresh round) bytes cut in
      let (_, limit) = parse_request_limits front h key (w.clock round) max_skew bytes in
      let (some_more, short) = limit n asks in
      rw (asks, lt→leb max_header (length front) (omega arith))

  -- `unread` are the chunks that the loop has left alone, `early` what came with the header.
  abbrev Outcome : List Bytes → Bytes → ℕ → List Bytes → Bytes → Type 0
  Outcome cs buf round unread early =
      read_header h w key max_skew (map chunk cs) buf round
      ≡ ok (record { parsed = found; buf = wire ++ early; left = map chunk unread })

  Delivered : List Bytes → Bytes → ℕ → Bytes → Type 0
  Delivered cs buf round extra =
      (early : Bytes) × ((unread : List Bytes) × Outcome cs buf round unread early
        × (early ++ concat unread ≡ extra))

  read_header-delivers :
      (cs : List Bytes) (buf extra : Bytes) (round : ℕ)
      → All (λ c. c ≢ []) cs
      → buf ++ concat cs ≡ wire ++ extra
      → Delivered cs buf round extra
  unfolding read_header Delivered
  read_header-delivers [] buf extra round whole e = elim (append_cases buf [] wire extra e) [
    | inl (x, (back, cut)) ↦ absurd (
        omega (
          arith,
          ap length cut,
          length-append buf (x ∷ back),
          ap length e,
          length-append buf [],
          length-append wire extra,
        ))
    | inr (early, cut, rest) ↦ (early, ([], rw cut (complete early [] round _), rest))
  ]
  read_header-delivers ([] ∷ cs) buf extra round whole e = absurd (whole.0 refl)
  read_header-delivers ((b ∷ bs) ∷ cs) buf extra round whole e =
      elim (append_cases buf ((b ∷ bs) ++ concat cs) wire extra e) [
        | inl (x, (back, cut)) ↦
            let (early, (unread, found_it, rest)) =
              read_header-delivers cs (buf ++ (b ∷ bs)) extra (suc round) whole.1
                (append_assoc buf (b ∷ bs) (concat cs) ∙ e) in
            (early, (unread, incomplete buf back x _ round _ cut ∙ found_it, rest))
        | inr (early, cut, rest) ↦ (early, ((b ∷ bs) ∷ cs, rw cut (complete early _ round _), rest))
      ]

  -- The session of a connection that is relayed.
  abbrev relaying : Bytes → Session
  relaying early = record {
    sent = reply_ok ∷ [];
    dialled = display t ∷ [];
    forwarded = early;
    relayed = true;
    result = ok tt;
  }

  forward-relaying :
      (early : Bytes)
      → w.forward_written ≡ true
      → forward h w key max_skew (display t) early ≡ relaying early
  unfolding forward
  forward-relaying [] e = refl
  forward-relaying (b ∷ bs) e = rw e

  dispatch-relaying :
      (early : Bytes) (left : List Read)
      → w.reaches (display t) ≡ true
      → w.reply_written ≡ true
      → w.forward_written ≡ true
      → dispatch h w key max_skew (record { parsed = found; buf = wire ++ early; left = left })
        ≡ relaying early
  unfolding dispatch on_leftover slice_from
  dispatch-relaying early left reach reply forwards =
      let inside : leb (length wire) (length (wire ++ early)) ≡ true =
        le→leb _ _ (omega (arith, length-append wire early)) in
      rw (reach, reply, inside, drop-length-append) (forward-relaying early forwards)

  -- A header for a reachable target, cut into any chunks and followed by any bytes: the exit node
  -- dials that target alone, answers OK and relays, and what it forwards at once and what it has
  -- not read yet are together the bytes that followed.
  pub handle_delivers :
      (cs : List Bytes) (extra : Bytes)
      → All (λ c. c ≢ []) cs
      → concat cs ≡ wire ++ extra
      → w.reaches (display t) ≡ true
      → w.reply_written ≡ true
      → w.forward_written ≡ true
      → (early : Bytes) × ((unread : List Bytes) × (handle h w key max_skew (map chunk cs)
            ≡ record {
              sent = reply_ok ∷ [];
              dialled = display t ∷ [];
              forwarded = early;
              relayed = true;
              result = ok tt;
            })
          × (early ++ concat unread ≡ extra))
  unfolding handle Delivered
  handle_delivers cs extra whole e reach reply forwards =
      let (early, (unread, found_it, rest)) = read_header-delivers cs [] extra 0 whole e in
      (
        early,
        (
          unread,
          rw found_it (dispatch-relaying early (map chunk unread) reach reply forwards),
          rest,
        ),
      )
