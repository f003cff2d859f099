-- ===== src/Client/Pipeline/Races.antt =====
-- Connections that refresh the pool at once. `maybe_refresh_epoch` looks at the epoch, writes the pool
-- and sends the epoch in three sections with no lock over them: a state has the refreshes under way.
use mathlib.Core.Path.{subst}
use mathlib.Core.Bool.{false≢true}
use reality_hydra.Base.{
  ℕ, ◌≡◌, ◌≢◌, refl, sym, ap, ◌∙◌, ◌⊎◌, inl, inr, Bool, true, false, List, [], ◌∷◌, ◌++◌, All,
  All-append, Bool-cases, ==_iff, ◌==◌,
}
use reality_hydra.Proto.{Hmac}
use reality_hydra.Pool.{Floats, Rng, ActivePool, epoch_at}
use reality_hydra.Config.{HydraConfig}
use reality_hydra.Client.Pipeline.{Pipeline, window_of, maybe_refresh_epoch}

-- A refresh that has seen that the epoch moved to this one, or has written its pool too.
pub data Refresh : Type 0 where
  passed : ℕ → Refresh
  wrote : ℕ → Refresh

abbrev has_wrote : List Refresh → Bool
has_wrote [] = false
has_wrote (passed e ∷ rs) = has_wrote rs
has_wrote (wrote e ∷ rs) = true

abbrev epoch_of : Refresh → ℕ
epoch_of (passed e) = e
epoch_of (wrote e) = e

has_wrote-append :
    (front : List Refresh) (e : ℕ) (back : List Refresh)
    → has_wrote (front ++ (wrote e ∷ back)) ≡ true
has_wrote-append [] e back = refl
has_wrote-append (passed x ∷ front) e back = has_wrote-append front e back
has_wrote-append (wrote x ∷ front) e back = refl

All-middle :
    (P : Refresh → Type 0) (front : List Refresh) (r : Refresh) (back : List Refresh)
    → All P (front ++ (r ∷ back))
    → All P front × P r × All P back
All-middle P [] r back h = (tt, h.0, h.1)
All-middle P (x ∷ front) r back h =
    let (before, at, after) = All-middle P front r back h.1 in ((h.0, before), at, after)

module _ (fl : Floats) (rng : Rng fl.F) (h : Hmac) (config : HydraConfig fl.F) where
  pub record Shared : Type 0 where
    pub pool : ActivePool fl.F
    pub current_epoch : ℕ
    pub under_way : List Refresh

  -- The states after sections of any refreshes, the clock read only in epochs that are `allowed`.
  pub data Interleaved (allowed : ℕ → Type 0) (from : Shared) : Shared → Type 0 where
    start : Interleaved allowed from from
    checked :
        {s : Shared} (unix_secs : ℕ)
        → Interleaved allowed from s
        → allowed (epoch_at unix_secs config.epoch_len)
        → s.current_epoch ≢ epoch_at unix_secs config.epoch_len
        → Interleaved allowed from (record {
          pool = s.pool;
          current_epoch = s.current_epoch;
          under_way = passed (epoch_at unix_secs config.epoch_len) ∷ s.under_way;
        })
    written :
        {s : Shared} (front back : List Refresh) (e : ℕ)
        → Interleaved allowed from s
        → s.under_way ≡ front ++ (passed e ∷ back)
        → Interleaved allowed from (record {
          pool = window_of fl rng h config e;
          current_epoch = s.current_epoch;
          under_way = front ++ (wrote e ∷ back);
        })
    sent :
        {s : Shared} (front back : List Refresh) (e : ℕ)
        → Interleaved allowed from s
        → s.under_way ≡ front ++ (wrote e ∷ back)
        → Interleaved allowed from
            (record { pool = s.pool; current_epoch = e; under_way = front ++ back })

  -- All refreshes are to one epoch; one that has written its pool is still there or has left it.
  record OneEpoch (e : ℕ) (s : Shared) : Type 0 where
    all_to : All (λ r. epoch_of r ≡ e) s.under_way
    left : has_wrote s.under_way ≡ true → s.pool ≡ window_of fl rng h config e
    known : (s.pool ≡ window_of fl rng h config s.current_epoch) ⊎ (has_wrote s.under_way ≡ true)

  Interleaved-OneEpoch :
      (e : ℕ) {from : Shared}
      → from.under_way ≡ []
      → from.pool ≡ window_of fl rng h config from.current_epoch
      → {s : Shared} → Interleaved (λ x. x ≡ e) from s
      → OneEpoch e s
  Interleaved-OneEpoch e idle fresh start = record {
    all_to = subst (All (λ r. epoch_of r ≡ e)) (sym idle) tt;
    left = λ w. absurd (false≢true (sym (ap has_wrote idle) ∙ w));
    known = inl fresh;
  }
  Interleaved-OneEpoch e idle fresh (checked unix_secs r here moved) =
      let i = Interleaved-OneEpoch e idle fresh r in
      record { all_to = (here, i.all_to); left = i.left; known = i.known }
  Interleaved-OneEpoch e idle fresh (written front back x r there) =
      let i = Interleaved-OneEpoch e idle fresh r in
      let (before, to_e, after) =
        All-middle _ front (passed x) back (subst (All (λ r. epoch_of r ≡ e)) there i.all_to) in
      record {
        all_to = All-append (λ r. epoch_of r ≡ e) front (wrote x ∷ back) before (to_e, after);
        left = λ w. ap (window_of fl rng h config) to_e;
        known = inr (has_wrote-append front x back);
      }
  Interleaved-OneEpoch e idle fresh (sent front back x r there) =
      let i = Interleaved-OneEpoch e idle fresh r in
      let (before, to_e, after) =
        All-middle _ front (wrote x) back (subst (All (λ r. epoch_of r ≡ e)) there i.all_to) in
      let pool = i.left (ap has_wrote there ∙ has_wrote-append front x back) in
      record {
        all_to = All-append (λ r. epoch_of r ≡ e) front back before after;
        left = λ w. pool;
        known = inl (pool ∙ ap (window_of fl rng h config) (sym to_e));
      }

  -- From a pool that is current and with no refresh under way, refreshes that read the clock in one
  -- epoch leave, in whatever order their sections run, a current pool once none is under way.
  pub Interleaved-current :
      (e : ℕ) (from s : Shared)
      → from.under_way ≡ []
      → from.pool ≡ window_of fl rng h config from.current_epoch
      → Interleaved (λ x. x ≡ e) from s
      → s.under_way ≡ []
      → s.pool ≡ window_of fl rng h config s.current_epoch
  Interleaved-current e from s idle fresh steps done =
      elim ((Interleaved-OneEpoch e idle fresh steps).known) [
        | inl current ↦ current
        | inr there ↦ absurd (false≢true (sym (ap has_wrote done) ∙ there))
      ]

  -- Two refreshes that read the clock in two epochs, both other than the pool's, can leave the window
  -- of the first under the number of the second, with no refresh under way.
  pub Interleaved_stale :
      (from : Shared) (early late : ℕ)
      → from.under_way ≡ []
      → from.current_epoch ≢ epoch_at early config.epoch_len
      → from.current_epoch ≢ epoch_at late config.epoch_len
      → Interleaved
          (λ x. (x ≡ epoch_at early config.epoch_len) ⊎ (x ≡ epoch_at late config.epoch_len))
          from
          (record {
            pool = window_of fl rng h config (epoch_at early config.epoch_len);
            current_epoch = epoch_at late config.epoch_len;
            under_way = [];
          })
  Interleaved_stale from early late idle moved moved' =
      let a = epoch_at early config.epoch_len in
      let b = epoch_at late config.epoch_len in
      let seen_both = checked late (checked early start (inl refl) moved) (inr refl) moved' in
      let late_wrote = written [] (passed a ∷ from.under_way) b seen_both refl in
      let both_wrote = written (wrote b ∷ []) from.under_way a late_wrote refl in
      let early_sent = sent (wrote b ∷ []) from.under_way a both_wrote refl in
      subst
        (λ (rest : List Refresh).
          Interleaved (λ x. (x ≡ a) ⊎ (x ≡ b)) from
            (record { pool = window_of fl rng h config a; current_epoch = b; under_way = rest }))
        idle (sent [] from.under_way b early_sent refl)

module _ (fl : Floats) (rng : Rng fl.F) (h : Hmac) where
  -- What a pipeline shares, with no refresh under way.
  abbrev pub shared : (p : Pipeline fl rng h) → Shared fl rng h p.config
  shared p = record { pool = p.pool; current_epoch = p.current_epoch; under_way = [] }

  -- A refresh with no other beside it is its three sections in a row, or none.
  pub maybe_refresh_epoch-Interleaved :
      (p : Pipeline fl rng h) (unix_secs : ℕ)
      → let q = maybe_refresh_epoch fl rng h p unix_secs in
        Interleaved fl rng h p.config
          (λ x. x ≡ epoch_at unix_secs p.config.epoch_len)
          (shared p)
          (record { pool = q.pool; current_epoch = q.current_epoch; under_way = [] })
  unfolding maybe_refresh_epoch
  maybe_refresh_epoch-Interleaved p unix_secs =
      let e = epoch_at unix_secs p.config.epoch_len in
      elim (Bool-cases (p.current_epoch == e)) [
        | inl same ↦ rw same start
        | inr moved ↦ rw moved (
            let begun = checked unix_secs start refl (λ (here : p.current_epoch ≡ e).
              false≢true (sym moved ∙ (==_iff p.current_epoch e).1 here)) in
            sent [] [] e (written [] [] e begun refl) refl)
      ]
