-- ===== src/Server.antt =====
-- crates/hydra-server/src/lib.rs: `handle`, one connection of the exit node.
-- The environment is explicit: what each read returns, the clock at each round of the read loop,
-- which destinations answer, which writes succeed. TLS and the relay itself are tokio's.
pub mod Delivery
pub mod ReadLoop
pub mod Authentic
pub mod Bounded
pub mod Tls
pub mod Serve
use reality_hydra.Base.{
  ℕ, suc, Bool, true, false, List, [], ◌∷◌, ◌++◌, length, drop, Bytes, Option, none, some, Result,
  ok, err, panic, leb, if◌then◌else◌,
}
use reality_hydra.Proto.{
  Hmac, ProtoError, truncated, reply_ok, reply_auth_fail, reply_dial_fail, display,
}
use reality_hydra.Proto.Parse.{Parsed, ParsedRequest, parse_request}

abbrev pub max_header : ℕ
max_header = 512

pub data ServerError : Type 0 where
  header_too_long : ServerError
  closed_early : ServerError
  read_failed : ServerError
  rejected : ProtoError → ServerError
  dial_failed : Bytes → ServerError
  reply_failed : ServerError
  forward_failed : ServerError

-- One `inbound.read`: at most 512 bytes, none at the end of the stream, or an I/O error.
pub data Read : Type 0 where
  chunk : Bytes → Read
  failed : Read

pub record World : Type 0 where
  pub clock : ℕ → ℕ
  pub reaches : Bytes → Bool
  pub reply_written : Bool
  pub forward_written : Bool

-- The header, the buffer when it was complete, and the reads that are left.
pub record Header : Type 0 where
  pub parsed : ParsedRequest
  pub buf : Bytes
  pub left : List Read

-- What the connection did: bytes handed to the stream of the client, destinations dialled, bytes forwarded,
-- whether the relay started, and how it ended.
pub record Session : Type 0 where
  pub sent : Bytes
  pub dialled : List Bytes
  pub forwarded : Bytes
  pub relayed : Bool
  pub result : Result ServerError (Unit {0})

-- The arms of the `match` in the read loop; `more` is the rest of the loop.
unfoldable pub on_parse :
    Parsed ParsedRequest → Bytes → List Read → Result ServerError Header → Result ServerError Header
on_parse (ok p) buf left more = ok (record { parsed = p; buf = buf; left = left })
on_parse (err (truncated n)) buf left more =
    if leb max_header (length buf) then err header_too_long else more
on_parse (err e) buf left more = err (rejected e)
on_parse panic buf left more = panic

-- `&buf[from..]`, `none` where it panics.
unfoldable pub slice_from : Bytes → ℕ → Option Bytes
slice_from buf from = if leb from (length buf) then some (drop from buf) else none

module _ (h : Hmac) (w : World) (key : Bytes) (max_skew : ℕ) where
  -- `round` counts the calls of `now()`.
  unfoldable pub read_header : List Read → Bytes → ℕ → Result ServerError Header
  unfolding on_parse
  read_header [] buf round =
      on_parse (parse_request h buf key (w.clock round) max_skew) buf [] (err closed_early)
  read_header (failed ∷ left) buf round =
      on_parse (parse_request h buf key (w.clock round) max_skew) buf (failed ∷ left)
        (err read_failed)
  read_header (chunk [] ∷ left) buf round =
      on_parse (parse_request h buf key (w.clock round) max_skew) buf (chunk [] ∷ left)
        (err closed_early)
  read_header (chunk (b ∷ bs) ∷ left) buf round =
      on_parse (parse_request h buf key (w.clock round) max_skew) buf (chunk (b ∷ bs) ∷ left)
        (read_header left (buf ++ (b ∷ bs)) (suc round))

  -- A connection that panics behind its reply.
  abandoned : Bytes → Session
  abandoned dest = record {
    sent = reply_ok ∷ [];
    dialled = dest ∷ [];
    forwarded = [];
    relayed = false;
    result = panic;
  }

  -- `leftover` is written only if there is any.
  forward : Bytes → Bytes → Session
  forward dest [] = record {
    sent = reply_ok ∷ [];
    dialled = dest ∷ [];
    forwarded = [];
    relayed = true;
    result = ok tt;
  }
  forward dest (b ∷ bs) =
      if w.forward_written
      then record {
        sent = reply_ok ∷ [];
        dialled = dest ∷ [];
        forwarded = b ∷ bs;
        relayed = true;
        result = ok tt;
      }
      else record {
        sent = reply_ok ∷ [];
        dialled = dest ∷ [];
        forwarded = [];
        relayed = false;
        result = err forward_failed;
      }

  on_leftover : Bytes → Option Bytes → Session
  unfolding forward abandoned
  on_leftover dest (some leftover) = forward dest leftover
  on_leftover dest none = abandoned dest

  -- From a complete header on: dial, reply, forward what came early, relay.
  unfoldable pub dispatch : Header → Session
  unfolding on_leftover slice_from
  dispatch r =
      let dest = display r.parsed.target in
      if w.reaches dest
      then if w.reply_written
        then on_leftover dest (slice_from r.buf r.parsed.consumed)
        else record {
          sent = reply_ok ∷ [];
          dialled = dest ∷ [];
          forwarded = [];
          relayed = false;
          result = err reply_failed;
        }
      else record {
        sent = reply_dial_fail ∷ [];
        dialled = dest ∷ [];
        forwarded = [];
        relayed = false;
        result = err (dial_failed dest);
      }

  unfoldable pub on_header : Result ServerError Header → Session
  unfolding dispatch
  on_header (ok r) = dispatch r
  on_header (err (rejected e)) = record {
    sent = reply_auth_fail ∷ [];
    dialled = [];
    forwarded = [];
    relayed = false;
    result = err (rejected e);
  }
  on_header (err e) = record {
    sent = [];
    dialled = [];
    forwarded = [];
    relayed = false;
    result = err e;
  }
  on_header panic = record {
    sent = [];
    dialled = [];
    forwarded = [];
    relayed = false;
    result = panic;
  }

  unfoldable pub handle : List Read → Session
  unfolding read_header on_header
  handle reads = on_header (read_header reads [] 0)
