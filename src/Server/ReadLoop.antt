-- ===== src/Server/ReadLoop.antt =====
-- What the read loop of a connection ends with, whatever arrives.
use reality_hydra.Base.{
  ℕ, suc, ◌+◌, ◌≤◌, ◌<◌, ◌≡◌, refl, ◌∙◌, List, [], ◌∷◌, ◌++◌, append_assoc, arith, length,
  length-append, All, All-append, Bytes, IsByte, AreBytes, Result, ok, err, panic, lt→leb,
}
use reality_hydra.Proto.{Hmac, truncated}
use reality_hydra.Proto.Parse.{Parsed, ParsedRequest, parse_request}
use reality_hydra.Proto.Accepted.{Accepted, parse_request-accepted}
use reality_hydra.Proto.Limits.{longest_header, parse_request_limits}
use reality_hydra.Server.{
  ServerError, header_too_long, Read, chunk, failed, World, Header, max_header, on_parse,
  read_header,
}

-- All that the reads bring until one fails or is empty.
unfoldable pub received : List Read → Bytes
received [] = []
received (failed ∷ left) = []
received (chunk [] ∷ left) = []
received (chunk (b ∷ bs) ∷ left) = (b ∷ bs) ++ received left

abbrev pub IsRead : Read → Type 0
IsRead failed = Unit
IsRead (chunk bs) = AreBytes bs × (length bs ≤ 512)

module _ (h : Hmac) (w : World) (key : Bytes) (max_skew : ℕ) where
  -- What the loop has found: an accepted header at some round, in the bytes received, with a buffer
  -- no longer than a header short of one byte and a full read.
  pub record Found (r : Header) (bytes : Bytes) : Type 0 where
    pub round : ℕ
    pub good : Accepted h r.buf key (w.clock round) max_skew r.parsed
    pub behind : Bytes
    pub all : r.buf ++ behind ≡ bytes
    pub held : length r.buf < longest_header + 512

  -- What may come of the loop.
  abbrev pub LoopEnds : Bytes → Result ServerError Header → Type 0
  LoopEnds bytes (ok r) = Found r bytes
  LoopEnds bytes (err header_too_long) = ⊥
  LoopEnds bytes (err e) = Unit
  LoopEnds bytes panic = ⊥

  on_parse-LoopEnds :
      (buf bytes : Bytes) (round : ℕ) (left : List Read) (more : Result ServerError Header)
      → AreBytes buf
      → length buf < longest_header + 512
      → (behind : Bytes) → buf ++ behind ≡ bytes
      → (length buf < longest_header → LoopEnds bytes more)
      → (p : Parsed ParsedRequest) → parse_request h buf key (w.clock round) max_skew ≡ p
      → LoopEnds bytes (on_parse p buf left more)
  unfolding on_parse
  on_parse-LoopEnds buf bytes round left more are held behind all k (ok p) e = record {
    round = round;
    good = parse_request-accepted h buf key (w.clock round) max_skew are e;
    behind = behind;
    all = all;
    held = held;
  }
  on_parse-LoopEnds buf bytes round left more are held behind all k (err (truncated n)) e =
      let (_, limit) = parse_request_limits buf h key (w.clock round) max_skew are in
      let (some_more, short) = limit n e in
      rw (lt→leb max_header (length buf) (omega arith)) (k (omega arith))
  on_parse-LoopEnds buf bytes round left more are held behind all k panic e =
      (parse_request_limits buf h key (w.clock round) max_skew are).0 e
  on_parse-LoopEnds buf bytes round left more are held behind all k (err x) e = tt

  pub read_header-LoopEnds :
      (reads : List Read) (buf bytes : Bytes) (round : ℕ)
      → All IsRead reads
      → AreBytes buf
      → length buf < longest_header + 512
      → buf ++ received reads ≡ bytes
      → LoopEnds bytes (read_header h w key max_skew reads buf round)
  unfolding read_header received
  read_header-LoopEnds [] buf bytes round fine are held all =
      on_parse-LoopEnds buf bytes round _ _ are held [] all (λ _. tt) _ refl
  read_header-LoopEnds (failed ∷ left) buf bytes round fine are held all =
      on_parse-LoopEnds buf bytes round _ _ are held [] all (λ _. tt) _ refl
  read_header-LoopEnds (chunk [] ∷ left) buf bytes round fine are held all =
      on_parse-LoopEnds buf bytes round _ _ are held [] all (λ _. tt) _ refl
  read_header-LoopEnds (chunk (b ∷ bs) ∷ left) buf bytes round fine are held all =
      on_parse-LoopEnds buf bytes round _ _ are held ((b ∷ bs) ++ received left) all
        (λ short.
          read_header-LoopEnds left (buf ++ (b ∷ bs)) bytes (suc round) fine.1
            (All-append IsByte buf (b ∷ bs) are fine.0.0)
            (omega (arith, length-append buf (b ∷ bs), fine.0.1))
            (append_assoc buf (b ∷ bs) (received left) ∙ all))
        _ refl
