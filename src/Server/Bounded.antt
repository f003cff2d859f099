-- ===== src/Server/Bounded.antt =====
-- How long the read loop of a connection can go on.
use reality_hydra.Base.{
  ℕ, suc, ◌+◌, ◌≤◌, ◌<◌, ◌≡◌, refl, sym, ap, ◌∙◌, List, [], ◌∷◌, ◌++◌, arith, length, length-append,
  All, All-append, Bytes, IsByte, AreBytes, Result, ok, err, panic, leb, Bool-cases, inl, inr,
}
use reality_hydra.Proto.{Hmac, truncated}
use reality_hydra.Proto.Parse.{Parsed, ParsedRequest, parse_request}
use reality_hydra.Proto.Limits.{longest_header, parse_request_limits}
use reality_hydra.Server.{
  ServerError, Read, chunk, failed, World, Header, Session, max_header, on_parse, read_header,
  dispatch, on_header, handle,
}
use reality_hydra.Server.ReadLoop.{IsRead}

module _ (h : Hmac) (w : World) (key : Bytes) (max_skew : ℕ) where
  session : Result ServerError Header → Session
  session r = on_header h w key max_skew r

  -- What is not read yet does not count, and the rest of the loop only where the header is short.
  on_parse_settled :
      (buf : Bytes) (round : ℕ) (left left' : List Read) (more more' : Result ServerError Header)
      → AreBytes buf
      → (length buf < longest_header → session more ≡ session more')
      → (p : Parsed ParsedRequest) → parse_request h buf key (w.clock round) max_skew ≡ p
      → session (on_parse p buf left more) ≡ session (on_parse p buf left' more')
  unfolding session on_parse on_header dispatch
  on_parse_settled buf round left left' more more' are k (ok p) e = refl
  on_parse_settled buf round left left' more more' are k (err (truncated n)) e =
      let (some_more, short) =
        (parse_request_limits buf h key (w.clock round) max_skew are).1 n e in
      elim (Bool-cases (leb max_header (length buf))) [
        | inl long ↦ rw long refl
        | inr room ↦ rw room (k (omega arith))
      ]
  on_parse_settled buf round left left' more more' are k panic e = refl
  on_parse_settled buf round left left' more more' are k (err x) e = refl

  read_header-on_parse :
      (left : List Read) (buf : Bytes) (round : ℕ)
      → (more : Result ServerError Header) × (read_header h w key max_skew left buf round
          ≡ on_parse (parse_request h buf key (w.clock round) max_skew) buf left more)
  unfolding read_header
  read_header-on_parse [] buf round = (_, refl)
  read_header-on_parse (failed ∷ left) buf round = (_, refl)
  read_header-on_parse (chunk [] ∷ left) buf round = (_, refl)
  read_header-on_parse (chunk (b ∷ bs) ∷ left) buf round = (_, refl)

  read_header_settled :
      (front later later' : List Read) (buf : Bytes) (round : ℕ)
      → All IsRead front
      → AreBytes buf
      → longest_header ≤ length buf + length front
      → session (read_header h w key max_skew (front ++ later) buf round)
        ≡ session (read_header h w key max_skew (front ++ later') buf round)
  unfolding read_header
  read_header_settled [] later later' buf round fine are enough =
      let (more, e) = read_header-on_parse later buf round in
      let (more', e') = read_header-on_parse later' buf round in
      ap session e
      ∙ on_parse_settled buf round later later' more more' are (λ short. absurd (omega arith)) _
          refl
      ∙ ap session (sym e')
  read_header_settled (failed ∷ front) later later' buf round fine are enough =
      on_parse_settled buf round _ _ _ _ are (λ short. refl) _ refl
  read_header_settled (chunk [] ∷ front) later later' buf round fine are enough =
      on_parse_settled buf round _ _ _ _ are (λ short. refl) _ refl
  read_header_settled (chunk (b ∷ bs) ∷ front) later later' buf round fine are enough =
      on_parse_settled buf round _ _ _ _ are
        (λ short.
          read_header_settled front later later' (buf ++ (b ∷ bs)) (suc round) fine.1
            (All-append IsByte buf (b ∷ bs) are fine.0.0)
            (omega (arith, length-append buf (b ∷ bs))))
        _ refl

  -- The read loop ends within as many reads as the longest header has bytes, 298: after that many, of
  -- whatever size and outcome, what the connection does and how it ends no longer depends on what would
  -- be read.
  pub handle_bounded :
      (front later later' : List Read)
      → All IsRead front
      → longest_header ≤ length front
      → handle h w key max_skew (front ++ later) ≡ handle h w key max_skew (front ++ later')
  unfolding handle session
  handle_bounded front later later' fine enough =
      read_header_settled front later later' [] 0 fine tt (omega (arith, enough))
