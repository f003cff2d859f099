-- ===== src/Dns/Steps.antt =====
-- Many connections on one warmer. The lock is not held while a name is resolved, so the sections of
-- their calls come in any order; what is warm was resolved all the same.
use mathlib.Core.Path.{subst}
use mathlib.Core.Bool.{true≢false}
use reality_hydra.Base.{
  ℕ, ◌<◌, ◌≡◌, refl, sym, ap, ◌∙◌, ◌⊎◌, inl, inr, true, List, [], ◌∷◌, ◌++◌, Bytes, All, get,
  All-get, All-put, All-retain, Option-cases, none, ltb, ltb→lt, ok, ok_elim, ok-injective,
}
use reality_hydra.Dns.{
  Resolved, WarmerConfig, clamp, CacheEntry, Cache, expiry, peek, is_live, is_warm, store,
  evict_expired,
}

-- A call of `warm` that missed the cache: for a host, at a time; with the resolver's answer when it
-- has come.
pub record Call : Type 0 where
  pub host : Bytes
  pub now_ms : ℕ

pub record Answer : Type 0 where
  pub call : Call
  pub resolved : Resolved

-- The cache under its lock, the calls that wait for the resolver, those that wait for the lock with
-- their answer, and every answer so far.
pub record State : Type 0 where
  pub cache : Cache
  pub waiting : List Call
  pub answered : List Answer
  pub history : List Answer

abbrev pub start : State
start = record { cache = []; waiting = []; answered = []; history = [] }

module _ (cfg : WarmerConfig) where
  -- One section of one call.
  pub data Step : State → State → Type 0 where
    -- A call finds nothing fresh.
    miss :
        (s : State) (c : Call)
        → peek s.cache c.host c.now_ms ≡ none
        → Step s (record {
          cache = s.cache;
          waiting = c ∷ s.waiting;
          answered = s.answered;
          history = s.history;
        })
    -- The resolver answers a call.
    answer :
        (s : State) (front back : List Call) (c : Call) (r : Resolved)
        → s.waiting ≡ front ++ (c ∷ back)
        → Step s (record {
          cache = s.cache;
          waiting = front ++ back;
          answered = record { call = c; resolved = r } ∷ s.answered;
          history = record { call = c; resolved = r } ∷ s.history;
        })
    -- The resolver fails a call.
    fail :
        (s : State) (front back : List Call) (c : Call)
        → s.waiting ≡ front ++ (c ∷ back)
        → Step s (record {
          cache = s.cache;
          waiting = front ++ back;
          answered = s.answered;
          history = s.history;
        })
    -- A call writes its answer.
    write :
        (s : State) (front back : List Answer) (a : Answer) (cache : Cache)
        → s.answered ≡ front ++ (a ∷ back)
        → store cfg s.cache a.call.host a.call.now_ms a.resolved ≡ ok cache
        → Step s (record {
          cache = cache;
          waiting = s.waiting;
          answered = front ++ back;
          history = s.history;
        })
    -- Housekeeping at some time.
    evict :
        (s : State) (now_ms : ℕ)
        → Step s (record {
          cache = evict_expired s.cache now_ms;
          waiting = s.waiting;
          answered = s.answered;
          history = s.history;
        })

  pub data Reachable : State → Type 0 where
    started : Reachable start
    stepped : (s s' : State) → Reachable s → Step s s' → Reachable s'

-- The answer is in the history.
abbrev pub IsIn : List Answer → Answer → Type 0
IsIn [] a = ⊥
IsIn (b ∷ bs) a = (b ≡ a) ⊎ IsIn bs a

All-remove :
    {A : Type 0} (P : A → Type 0) (front : List A) (a : A) (back : List A)
    → All P (front ++ (a ∷ back))
    → P a × All P (front ++ back)
All-remove P [] a back all = all
All-remove P (x ∷ front) a back all =
    let rest = All-remove P front a back all.1 in (rest.0, (all.0, rest.1))

All-IsIn :
    (b : Answer) (some_answers history : List Answer)
    → All (IsIn history) some_answers
    → All (IsIn (b ∷ history)) some_answers
All-IsIn b [] history all = tt
All-IsIn b (x ∷ xs) history all = (inr all.0, All-IsIn b xs history all.1)

module _ (cfg : WarmerConfig) where
  -- An entry of the cache comes from an answer for its host, and goes stale the clamped lifetime of
  -- the record after the time of the call.
  pub record Source (history : List Answer) (host : Bytes) (e : CacheEntry) : Type 0 where
    pub from : Answer
    pub lifetime : ℕ
    pub happened : IsIn history from
    pub for_host : from.call.host ≡ host
    pub same : from.resolved ≡ e.resolved
    pub clamped : clamp cfg from.resolved.ttl ≡ ok lifetime
    pub until : e.expires_at_ms ≡ expiry from.call.now_ms lifetime

  abbrev Sourced : List Answer → Bytes × CacheEntry → Type 0
  Sourced history p = Source history p.0 p.1

  Sourced-cons :
      (b : Answer) (history : List Answer) (m : Cache)
      → All (Sourced history) m
      → All (Sourced (b ∷ history)) m
  Sourced-cons b history [] all = tt
  Sourced-cons b history (x ∷ m) all = (
    record {
      from = all.0.from;
      lifetime = all.0.lifetime;
      happened = inr all.0.happened;
      for_host = all.0.for_host;
      same = all.0.same;
      clamped = all.0.clamped;
      until = all.0.until;
    },
    Sourced-cons b history m all.1,
  )

  -- Every entry has its source, and every answer that waits to be written is in the history.
  Kept : State → Type 0
  Kept s = All (Sourced s.history) s.cache × All (IsIn s.history) s.answered

  store-Sourced :
      (s : State) (a : Answer) (cache : Cache)
      → All (Sourced s.history) s.cache
      → IsIn s.history a
      → store cfg s.cache a.call.host a.call.now_ms a.resolved ≡ ok cache
      → All (Sourced s.history) cache
  unfolding store
  store-Sourced s a cache all i h = ok_elim (clamp cfg a.resolved.ttl) _ h λ ttl clamped made.
      subst (All (Sourced s.history)) (ok-injective made) (
        All-put (Sourced s.history) s.cache a.call.host _ all (record {
          from = a;
          lifetime = ttl;
          happened = i;
          for_host = refl;
          same = refl;
          clamped = clamped;
          until = refl;
        }))

  Step-Kept : (s s' : State) → Step cfg s s' → Kept s → Kept s'
  unfolding Kept evict_expired
  Step-Kept _ _ (miss s c h) k = k
  Step-Kept _ _ (answer s front back c r h) k =
      (Sourced-cons _ s.history s.cache k.0, (inl refl, All-IsIn _ s.answered s.history k.1))
  Step-Kept _ _ (fail s front back c h) k = k
  Step-Kept _ _ (write s front back a cache h stored) k =
      let all : All (IsIn s.history) (front ++ (a ∷ back)) = subst (All (IsIn s.history)) h k.1 in
      let apart = All-remove (IsIn s.history) front a back all in
      (store-Sourced s a cache k.0 apart.0 stored, apart.1)
  Step-Kept _ _ (evict s now_ms) k = (All-retain (Sourced s.history) _ s.cache k.0, k.1)

  Reachable-Kept : (s : State) → Reachable cfg s → Kept s
  unfolding Kept
  Reachable-Kept _ started = (tt, tt)
  Reachable-Kept _ (stepped r s r' step) = Step-Kept r s step (Reachable-Kept r r')

  -- An answer in the history for the host, whose lifetime has not run out.
  pub record WasResolved (s : State) (host : Bytes) (now_ms : ℕ) : Type 0 where
    pub from : Answer
    pub lifetime : ℕ
    pub happened : IsIn s.history from
    pub for_host : from.call.host ≡ host
    pub clamped : clamp cfg from.resolved.ttl ≡ ok lifetime
    pub in_time : now_ms < expiry from.call.now_ms lifetime

  -- However the calls of `warm` interleave: a host that is warm was resolved for
  -- a call at some earlier point, and the lifetime of that record, clamped and counted from the time of the call, has not run out.
  pub is_warm-WasResolved :
      (s : State) (host : Bytes) (now_ms : ℕ)
      → Reachable cfg s
      → is_warm s.cache host now_ms ≡ true
      → WasResolved s host now_ms
  unfolding is_warm Kept
  is_warm-WasResolved s host now_ms r warm = elim (Option-cases (get s.cache host)) [
    | inl missing ↦ absurd (true≢false (sym warm ∙ ap (is_live now_ms) missing))
    | inr (e, there) ↦
        let source : Source s.history host e =
          All-get (Sourced s.history) s.cache host (Reachable-Kept s r).0 there in
        let live : ltb now_ms e.expires_at_ms ≡ true = sym (ap (is_live now_ms) there) ∙ warm in
        record {
          from = source.from;
          lifetime = source.lifetime;
          happened = source.happened;
          for_host = source.for_host;
          clamped = source.clamped;
          in_time = subst (λ n. now_ms < n) source.until (ltb→lt now_ms e.expires_at_ms live);
        }
  ]
