-- ===== src/Server/Authentic.antt =====
-- What a connection must have sent before the exit node does anything for it, and what it is told.
use reality_hydra.Base.{
  arith, ◌≢◌, Result, ok, err, panic, All, List, ℕ, ◌≤◌, ◌≡◌, refl, sym, ap, ◌∙◌, ◌⊎◌, inl, inr,
  true, false, some, length, le→leb, [], ◌∷◌, ◌++◌, append_assoc, take, drop, take-append-drop,
  Bytes, Bool-cases,
}
use reality_hydra.Proto.{
  ProtoError, reply_auth_fail, Hmac, Target, IsTarget, FitsHeader, display, encode_request,
  reply_ok, reply_dial_fail,
}
use reality_hydra.Proto.Parse.{abs_diff}
use reality_hydra.Server.{
  ServerError, header_too_long, rejected, Read, read_header, on_header, handle, World, Header,
  Session, forward, on_leftover, slice_from, dispatch,
}
use reality_hydra.Server.ReadLoop.{received, IsRead, LoopEnds, read_header-LoopEnds, Found}

module _ (h : Hmac) (w : World) (key : Bytes) (max_skew : ℕ) where
  -- The bytes begin with a header under the key, fresh by the clock at some round, for the target.
  abbrev pub Authentic : Bytes → Target → Type 0
  Authentic bytes t =
      (ts : ℕ) × ((round : ℕ) × ((rest : Bytes) × IsTarget t
          × FitsHeader t.host
          × (abs_diff (w.clock round) ts ≤ max_skew)
          × (encode_request h key ts t ++ rest ≡ bytes)))

  Found-Authentic :
      (r : Header) (bytes : Bytes)
      → Found h w key max_skew r bytes
      → Authentic bytes r.parsed.target
  Found-Authentic r bytes f =
      let (well, fits, _, fresh, _, same) = f.good in
      (
        r.parsed.timestamp,
        (
          f.round,
          (
            drop r.parsed.consumed r.buf ++ f.behind,
            well,
            fits,
            fresh,
            ap (λ (b : Bytes). b ++ (drop r.parsed.consumed r.buf ++ f.behind)) (sym same)
                ∙ sym (
                    append_assoc (take r.parsed.consumed r.buf) (drop r.parsed.consumed r.buf)
                      f.behind)
                ∙ ap (λ (b : Bytes). b ++ f.behind) (take-append-drop r.parsed.consumed r.buf)
                ∙ f.all,
          ),
        ),
      )

  -- A dispatched connection dialled its target, and was told how that went.
  abbrev Answered : Bytes → Session → Type 0
  Answered dest s =
      (s.dialled ≡ dest ∷ [])
      × ((s.sent ≡ reply_ok ∷ []) × (w.reaches dest ≡ true)
          ⊎ (s.sent ≡ reply_dial_fail ∷ [])
            × (w.reaches dest ≡ false)
            × (s.forwarded ≡ [])
            × (s.relayed ≡ false))

  forward-Answered :
      (dest leftover : Bytes)
      → w.reaches dest ≡ true
      → Answered dest (forward h w key max_skew dest leftover)
  unfolding forward
  forward-Answered dest [] e = (refl, inl (refl, e))
  forward-Answered dest (b ∷ bs) e = elim (Bool-cases w.forward_written) [
    | inl good ↦ rw good (refl, inl (refl, e))
    | inr bad ↦ rw bad (refl, inl (refl, e))
  ]

  -- The rest of the buffer behind an accepted header.
  slice_from_lem :
      (buf : Bytes) (from : ℕ) → from ≤ length buf → slice_from buf from ≡ some (drop from buf)
  unfolding slice_from
  slice_from_lem buf from inside = rw (le→leb from (length buf) inside) refl

  dispatch-Answered :
      (r : Header)
      → r.parsed.consumed ≤ length r.buf
      → Answered (display r.parsed.target) (dispatch h w key max_skew r)
  unfolding dispatch on_leftover
  dispatch-Answered r inside = elim (Bool-cases (w.reaches (display r.parsed.target))) [
    | inl there ↦ elim (Bool-cases w.reply_written) [
      | inl told ↦
          rw (there, told, slice_from_lem r.buf r.parsed.consumed inside)
            (rw there at
              (forward-Answered (display r.parsed.target) (drop r.parsed.consumed r.buf) there))
      | inr lost ↦ rw (there, lost) (refl, inl (refl, refl))
    ]
    | inr away ↦ rw away (refl, inr (refl, refl, refl, refl))
  ]

  inside_of :
      (r : Header) (bytes : Bytes)
      → Found h w key max_skew r bytes
      → r.parsed.consumed ≤ length r.buf
  inside_of r bytes f = let (_, _, _, _, inside, _) = f.good in inside

  -- The connection was dropped in silence, before any dial.
  abbrev pub Dropped : Session → Type 0
  Dropped s = (s.sent ≡ []) × (s.dialled ≡ []) × (s.forwarded ≡ []) × (s.relayed ≡ false)

  -- The header was refused: the client is told so, and nothing is dialled.
  abbrev pub Refused : Session → Type 0
  Refused s =
      (e : ProtoError) × (s.result ≡ err (rejected e))
      × (s.sent ≡ reply_auth_fail ∷ [])
      × (s.dialled ≡ [])
      × (s.forwarded ≡ [])
      × (s.relayed ≡ false)

  -- The header was accepted: its target, which the bytes authenticate, is dialled.
  abbrev pub Admitted : Bytes → Session → Type 0
  Admitted bytes s = (t : Target) × (Authentic bytes t × Answered (display t) s)

  on_header_answers :
      (bytes : Bytes) (r : Result ServerError Header)
      → LoopEnds h w key max_skew bytes r
      → let s = on_header h w key max_skew r in Dropped s ⊎ (Refused s ⊎ Admitted bytes s)
  unfolding on_header
  on_header_answers bytes (ok r) f = inr (
      inr (r.parsed.target, (Found-Authentic r bytes f, dispatch-Answered r (inside_of r bytes f))))
  on_header_answers bytes (err (rejected e)) f = inr (inl (e, refl, refl, refl, refl, refl))
  on_header_answers bytes (err header_too_long) f = absurd f
  on_header_answers bytes (err e) f = inl (refl, refl, refl, refl)
  on_header_answers bytes panic f = absurd f

  -- Whatever is sent: the connection is dropped in silence, or refused with AUTH_FAIL, or the bytes
  -- received begin with a header under the shared key, fresh at some round of the loop, and its
  -- target alone is dialled; the reply is OK exactly where the target answers.
  pub handle_answers :
      (reads : List Read)
      → All IsRead reads
      → let s = handle h w key max_skew reads in
        Dropped s ⊎ (Refused s ⊎ Admitted (received reads) s)
  unfolding handle
  handle_answers reads fine =
      on_header_answers (received reads) (read_header h w key max_skew reads [] 0) (
        read_header-LoopEnds h w key max_skew reads [] (received reads) 0 fine tt (omega arith)
          refl)

  forward_ends :
      (dest leftover : Bytes)
      → let s = forward h w key max_skew dest leftover in
        (s.result ≢ panic) × (s.result ≢ err header_too_long)
  unfolding forward
  forward_ends dest [] = (λ e. cc, λ e. cc)
  forward_ends dest (b ∷ bs) = elim (Bool-cases w.forward_written) [
    | inl good ↦ rw good (λ e. cc, λ e. cc)
    | inr bad ↦ rw bad (λ e. cc, λ e. cc)
  ]

  on_header_ends :
      (bytes : Bytes) (r : Result ServerError Header)
      → LoopEnds h w key max_skew bytes r
      → let s = on_header h w key max_skew r in
        (s.result ≢ panic) × (s.result ≢ err header_too_long)
  unfolding on_header dispatch on_leftover
  on_header_ends bytes (ok r) f = elim (Bool-cases (w.reaches (display r.parsed.target))) [
    | inl there ↦ elim (Bool-cases w.reply_written) [
      | inl told ↦
          rw (there, told, slice_from_lem r.buf r.parsed.consumed (inside_of r bytes f))
            (forward_ends (display r.parsed.target) (drop r.parsed.consumed r.buf))
      | inr lost ↦ rw (there, lost) (λ e. cc, λ e. cc)
    ]
    | inr away ↦ rw away (λ e. cc, λ e. cc)
  ]
  on_header_ends bytes (err header_too_long) f = absurd f
  on_header_ends bytes (err e) f = (λ e. cc, λ e. cc)
  on_header_ends bytes panic f = absurd f

  -- No input makes the handler panic, and none takes the branch for an overlong header: the decoder
  -- has made up its mind long before the 512 bytes of that test.
  pub handle_ends :
      (reads : List Read)
      → All IsRead reads
      → let s = handle h w key max_skew reads in
        (s.result ≢ panic) × (s.result ≢ err header_too_long)
  unfolding handle
  handle_ends reads fine =
      on_header_ends (received reads) (read_header h w key max_skew reads [] 0) (
        read_header-LoopEnds h w key max_skew reads [] (received reads) 0 fine tt (omega arith)
          refl)
