-- ===== src/Proto/Prefixes.antt =====
-- A header that has not arrived whole.
use reality_hydra.Base.{
  ℕ, ◌≤◌, ◌<◌, ◌^◌, ◌≡◌, sym, ap, ◌∙◌, inl, inr, [], ◌∷◌, ◌++◌, append-nil, arith, length,
  length-append, Bytes, AreBytes, ok, err,
}
use reality_hydra.Proto.{Hmac, Target, IsTarget, FitsHeader, truncated, encode_request}
use reality_hydra.Proto.Parse.{abs_diff, parse_request}
use reality_hydra.Proto.Accepted.{parse_request-accepted}
use reality_hydra.Proto.RoundTrip.{parse_request-encode_request}
use reality_hydra.Proto.Stability.{parse_request-Stable}

module _ (h : Hmac) (key : Bytes) (now max_skew : ℕ) where
  -- Every proper prefix of a header that would be accepted whole asks for more bytes.
  pub parse_request-prefix :
      (ts : ℕ) (t : Target) (front back : Bytes) (x : ℕ)
      → ts < 2 ^ 64
      → IsTarget t
      → FitsHeader t.host
      → abs_diff now ts ≤ max_skew
      → AreBytes front
      → encode_request h key ts t ≡ front ++ (x ∷ back)
      → (n : ℕ) × (parse_request h front key now max_skew ≡ err (truncated n))
  parse_request-prefix ts t front back x stamp well fits fresh bytes whole =
      let all : parse_request h (front ++ (x ∷ back)) key now max_skew
          ≡ ok (record {
            target = t;
            timestamp = ts;
            consumed = length (encode_request h key ts t);
          }) =
        ap (λ (b : Bytes). parse_request h b key now max_skew) (sym whole ∙ sym (append-nil _))
        ∙ parse_request-encode_request h key now max_skew ts t [] stamp well fits fresh in
      elim (parse_request-Stable front (x ∷ back) h key now max_skew) [
        | inl asks ↦ asks
        | inr same ↦
            let (_, _, _, _, inside, _) =
              parse_request-accepted h front key now max_skew bytes (sym same ∙ all) in
            absurd (omega (arith, inside, ap length whole, length-append front (x ∷ back)))
      ]
