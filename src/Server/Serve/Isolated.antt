-- ===== src/Server/Serve/Isolated.antt =====
-- A connection among others.
use reality_hydra.Base.{
  ◌≡◌, ◌≢◌, refl, ap, ◌∙◌, some, Bool, true, false, List, [], ◌∷◌, ◌++◌, Bytes, ℕ, ◌^◌, ◌<◌, ◌≤◌,
  All, map, concat, length, get_elem?, ok,
}
use reality_hydra.Proto.{Hmac, Target, IsTarget, FitsHeader, display, reply_ok, encode_request}
use reality_hydra.Proto.Parse.{abs_diff}
use reality_hydra.Server.{Read, chunk, World, handle}
use reality_hydra.Server.Delivery.{handle_delivers}
use reality_hydra.Server.Tls.{TlsMaterial}
use reality_hydra.Server.Serve.{Incoming, accept_failed, accepted, with_task, accept_loop, serve_on}

abbrev pub IsAccepted : Incoming → Type 0
IsAccepted accept_failed = ⊥
IsAccepted (accepted tls w reads) = Unit

module _ (h : Hmac) (server_config : Bytes → Bytes → Bool) (key : Bytes) (max_skew : ℕ) where
  task_at :
      (before : List Incoming) (w : World) (reads : List Read) (after : List Incoming)
      → All IsAccepted before
      → get_elem?
          (accept_loop h server_config key max_skew
            (before ++ (accepted true w reads ∷ after))).tasks
          (length before)
        ≡ some (some (handle h w key max_skew reads))
  unfolding accept_loop with_task
  task_at [] w reads after fine = refl
  task_at (accept_failed ∷ before) w reads after fine = absurd fine.0
  task_at (accepted true v rs ∷ before) w reads after fine = task_at before w reads after fine.1
  task_at (accepted false v rs ∷ before) w reads after fine = task_at before w reads after fine.1

  -- The exit node serves with a certificate that rustls takes. Whatever the connections accepted
  -- before and after it do, one that carries a fresh header for a reachable target, cut into any chunks
  -- and followed by any bytes, has its target dialled alone, is answered OK and relayed, and what is
  -- forwarded at once and what is not read yet are together the bytes that followed.
  pub serve_on_delivers :
      (material : TlsMaterial) (before after : List Incoming) (w : World) (ts : ℕ) (t : Target)
      (cs : List Bytes) (extra : Bytes)
      → server_config material.cert_der material.key_der ≡ true
      → All IsAccepted before
      → ts < 2 ^ 64
      → IsTarget t
      → FitsHeader t.host
      → ((round : ℕ) → abs_diff (w.clock round) ts ≤ max_skew)
      → All (λ c. c ≢ []) cs
      → concat cs ≡ encode_request h key ts t ++ extra
      → w.reaches (display t) ≡ true
      → w.reply_written ≡ true
      → w.forward_written ≡ true
      → (early : Bytes) × ((unread : List Bytes) × (get_elem?
              (serve_on h server_config material key max_skew
                (before ++ (accepted true w (map chunk cs) ∷ after))).tasks
              (length before)
            ≡ some (
                some (record {
                  sent = reply_ok ∷ [];
                  dialled = display t ∷ [];
                  forwarded = early;
                  relayed = true;
                  result = ok tt;
                })))
          × (early ++ concat unread ≡ extra))
  unfolding serve_on
  serve_on_delivers material before after w ts t cs extra takes fine stamp well fits fresh whole_
        cut reach reply forwards =
      let (early, (unread, done, rest)) =
        handle_delivers h w key max_skew ts t stamp well fits fresh cs extra whole_ cut reach reply
          forwards in
      (
        early,
        (
          unread,
          rw takes (task_at before w (map chunk cs) after fine ∙ ap (λ s. some (some s)) done),
          rest,
        ),
      )
