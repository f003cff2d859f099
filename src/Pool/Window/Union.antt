-- ===== src/Pool/Window/Union.antt =====
-- What the server accepts: the SNIs of the epoch and of its neighbours, so that a client whose clock
-- is up to one epoch off is accepted.
use native.Mathlib.Nat.{lt-div-mul-add, div-lt_iff_lt-mul, div-le_self, add-mul}
use reality_hydra.Base.{
  ℕ, min, max, ◌+◌, ◌-◌, ◌*◌, ◌/◌, ◌^◌, ◌≤◌, ◌<◌, ◌≡◌, refl, sym, ap, ◌∙◌, ◌⊎◌, inl, inr, Bool,
  true, false, ◌||◌, List, [], ◌∷◌, Bytes, text_eq, text_eq→eq, arith, Bool-cases,
}
use reality_hydra.Base.Sort.{insert, sort}
use reality_hydra.Proto.{Hmac}
use reality_hydra.Proto.Parse.{abs_diff}
use reality_hydra.Pool.{
  Floats, Rng, PoolEntry, MasterList, ActivePool, by_sni, has_sni, contains, from_unsorted,
  epoch_at, epoch_window, max_u64,
}
use reality_hydra.Pool.Sampler.{keyed_epoch_subset}
use reality_hydra.Pool.Window.{or_insert, insert_all, union_epochs, accepted_pool_window}

or_self : (a b : Bool) → (a || (a || b)) ≡ (a || b)
or_self a b = ground arith

or_first : (b c : Bool) → (true || b || c) ≡ true
or_first b c = ground arith

or_middle : (a c : Bool) → (a || true || c) ≡ true
or_middle a c = ground arith

or_end : (a b : Bool) → (a || b || true) ≡ true
or_end a b = ground arith

module _ {F : Type 0} where
  has_sni-insert :
      (e : PoolEntry F) (es : List (PoolEntry F)) (s : Bytes)
      → has_sni (insert by_sni e es) s ≡ (text_eq e.sni s || has_sni es s)
  unfolding insert has_sni
  has_sni-insert e [] s = refl
  has_sni-insert e (y ∷ ys) s = ground (arith, has_sni-insert e ys s)

  pub has_sni-sort :
      (es : List (PoolEntry F)) (s : Bytes) → has_sni (sort by_sni es) s ≡ has_sni es s
  unfolding sort has_sni
  has_sni-sort [] s = refl
  has_sni-sort (e ∷ es) s =
      has_sni-insert e (sort by_sni es) s ∙ ap (λ b. text_eq e.sni s || b) (has_sni-sort es s)

  has_sni-or_insert :
      (e : PoolEntry F) (es : List (PoolEntry F)) (s : Bytes)
      → has_sni (or_insert e es) s ≡ (text_eq e.sni s || has_sni es s)
  unfolding or_insert has_sni
  has_sni-or_insert e [] s = refl
  has_sni-or_insert e (y ∷ ys) s = elim (Bool-cases (text_eq e.sni y.sni)) [
    | inl same ↦
        rw (same, ap (λ t. text_eq t s) (text_eq→eq e.sni y.sni same))
          (sym (or_self (text_eq y.sni s) (has_sni ys s)))
    | inr other ↦ ground (arith, has_sni-or_insert e ys s)
  ]

  has_sni-insert_all :
      (es union : List (PoolEntry F)) (s : Bytes)
      → has_sni (insert_all es union) s ≡ (has_sni es s || has_sni union s)
  unfolding insert_all has_sni
  has_sni-insert_all [] union s = refl
  has_sni-insert_all (e ∷ es) union s =
      ground (arith, has_sni-insert_all es (or_insert e union) s, has_sni-or_insert e union s)

epoch_step : (a b m : ℕ) → 0 < m → a ≤ b + m → a / m ≤ b / m + 1
epoch_step a b m pos h =
    let below : b < b / m * m + m = lt-div-mul-add pos in
    let step : a < (b / m + 2) * m = omega (arith, add-mul (b / m) 2 m) in
    let less : a / m < b / m + 2 = (div-lt_iff_lt-mul pos).1 step in omega arith

near :
    (client server len : ℕ)
    → abs_diff client server ≤ len
    → (epoch_at client len ≡ epoch_at server len - 1)
      ⊎ ((epoch_at client len ≡ epoch_at server len)
          ⊎ (epoch_at client len ≡ epoch_at server len + 1))
unfolding epoch_at
near client server len h =
    let pos : 0 < max len 1 = omega arith in
    let early : client ≤ server + max len 1 = ground arith in
    let late : server ≤ client + max len 1 = ground arith in
    omega (
      arith,
      epoch_step client server (max len 1) pos early,
      epoch_step server client (max len 1) pos late,
    )

epoch_at_bound : (t len : ℕ) → epoch_at t len ≤ t
unfolding epoch_at
epoch_at_bound t len = div-le_self t (max len 1)

-- Where an epoch of one window is for a clock that is off by one epoch.
place :
    (client server e : ℕ)
    → client < 2 ^ 64
    → (client ≡ server - 1) ⊎ ((client ≡ server) ⊎ (client ≡ server + 1))
    → (e ≡ client - 1) ⊎ ((e ≡ client) ⊎ (e ≡ min (client + 1) max_u64))
    → ((e ≡ server - 1) ⊎ ((e ≡ server) ⊎ (e ≡ min (server + 1) max_u64)))
      ⊎ ((e + 2 ≡ server) ⊎ (e ≡ server + 2))
place client server e small apart of_client = omega (arith, small, apart, of_client)

or_last : (a b c : Bool) → (c || (b || (a || false))) ≡ (a || b || c)
or_last a b c = ground arith

module _ (fl : Floats) (rng : Rng fl.F) (h : Hmac) (master_secret server_salt : Bytes)
    (master : MasterList fl.F) (k : ℕ) where
  abbrev pool_of : ℕ → ActivePool fl.F
  pool_of epoch = keyed_epoch_subset fl rng h master_secret server_salt master epoch k

  -- An SNI is accepted in an epoch exactly when it is in the pool of the epoch before (of epoch 0
  -- itself at 0), of the epoch, or of the epoch after (of the last `u64` itself there).
  pub contains-accepted_pool_window :
      (epoch : ℕ) (s : Bytes)
      → contains (accepted_pool_window fl rng h master_secret server_salt master k epoch) s ≡ (
          contains (pool_of (epoch - 1)) s
          || contains (pool_of epoch) s
          || contains (pool_of (min (epoch + 1) max_u64)) s)
  unfolding accepted_pool_window union_epochs from_unsorted has_sni
  contains-accepted_pool_window epoch s =
      rw
        (
          has_sni-sort
              (union_epochs fl rng h master_secret server_salt master k (epoch_window epoch) []) s,
          has_sni-insert_all (pool_of (min (epoch + 1) max_u64)).entries
              (insert_all (pool_of epoch).entries (insert_all (pool_of (epoch - 1)).entries [])) s,
          has_sni-insert_all (pool_of epoch).entries (insert_all (pool_of (epoch - 1)).entries [])
              s,
          has_sni-insert_all (pool_of (epoch - 1)).entries [] s,
        )
        (or_last (contains (pool_of (epoch - 1)) s) (contains (pool_of epoch) s)
          (contains (pool_of (min (epoch + 1) max_u64)) s))

  -- With the clocks apart by at most the length of an epoch, an SNI of the pool of the client's own epoch
  -- is in the server's window.
  pub accepted_within_skew :
      (client server len : ℕ) (s : Bytes)
      → client < 2 ^ 64
      → abs_diff client server ≤ len
      → contains (pool_of (epoch_at client len)) s ≡ true
      → contains
          (accepted_pool_window fl rng h master_secret server_salt master k (epoch_at server len))
          s
        ≡ true
  accepted_within_skew client server len s c n p =
      let window = contains-accepted_pool_window (epoch_at server len) s in
      elim (near client server len n) [
        | inl before ↦ rw window (
            rw (sym before) (
              rw p (
                or_first (contains (pool_of (epoch_at server len)) s)
                  (contains (pool_of (min (epoch_at server len + 1) max_u64)) s))))
        | inr (inl same) ↦ rw window (rw (sym same) (rw p (or_middle _ _)))
        | inr (inr after) ↦
            let unsaturated : min (epoch_at server len + 1) max_u64 ≡ epoch_at client len =
              omega (arith, epoch_at_bound client len) in
            rw (window, unsaturated, p)
              (or_end (contains (pool_of (epoch_at server len - 1)) s)
                (contains (pool_of (epoch_at server len)) s))
      ]

  in_window :
      (epoch e : ℕ) (s : Bytes)
      → (e ≡ epoch - 1) ⊎ ((e ≡ epoch) ⊎ (e ≡ min (epoch + 1) max_u64))
      → contains (pool_of e) s ≡ true
      → contains (accepted_pool_window fl rng h master_secret server_salt master k epoch) s ≡ true
  in_window epoch e s (inl before) p = rw (contains-accepted_pool_window epoch s) (
      rw (sym before) (
        rw p
          (or_first (contains (pool_of epoch) s) (contains (pool_of (min (epoch + 1) max_u64)) s))))
  in_window epoch e s (inr (inl same)) p =
      rw (contains-accepted_pool_window epoch s) (rw (sym same) (rw p (or_middle _ _)))
  in_window epoch e s (inr (inr after)) p = rw (contains-accepted_pool_window epoch s) (
      rw (sym after)
        (rw p (or_end (contains (pool_of (epoch - 1)) s) (contains (pool_of epoch) s))))

  -- The epoch of a pool that has the SNI, among those of the window.
  of_window :
      (epoch : ℕ) (s : Bytes)
      → contains (accepted_pool_window fl rng h master_secret server_salt master k epoch) s ≡ true
      → (e : ℕ) × ((e ≡ epoch - 1) ⊎ ((e ≡ epoch) ⊎ (e ≡ min (epoch + 1) max_u64)))
        × (contains (pool_of e) s ≡ true)
  of_window epoch s there =
      let parts = sym (contains-accepted_pool_window epoch s) ∙ there in
      elim (Bool-cases (contains (pool_of (epoch - 1)) s)) [
        | inl p ↦ (epoch - 1, inl refl, p)
        | inr not_before ↦ elim (Bool-cases (contains (pool_of epoch) s)) [
          | inl p ↦ (epoch, inr (inl refl), p)
          | inr not_now ↦
              (min (epoch + 1) max_u64, inr (inr refl), sym (rw (not_before, not_now) refl) ∙ parts)
        ]
      ]

  -- A client draws its SNI from the window of its own clock's epoch. With the clocks apart by at most the
  -- length of an epoch, the server's window has it; or it is not of the pool of the client's own epoch,
  -- and is of one two epochs before or after the server's.
  pub drawn_within_skew :
      (client server len : ℕ) (s : Bytes)
      → client < 2 ^ 64
      → abs_diff client server ≤ len
      → contains
          (accepted_pool_window fl rng h master_secret server_salt master k (epoch_at client len))
          s
        ≡ true
      → (contains
            (accepted_pool_window fl rng h master_secret server_salt master k (epoch_at server len))
            s
          ≡ true)
        ⊎ ((contains (pool_of (epoch_at client len)) s ≡ false)
            × (far : ℕ) × (contains (pool_of far) s ≡ true)
            × ((far + 2 ≡ epoch_at server len) ⊎ (far ≡ epoch_at server len + 2)))
  drawn_within_skew client server len s c n drawn =
      let (e, of_client, p) = of_window (epoch_at client len) s drawn in
      elim (Bool-cases (contains (pool_of (epoch_at client len)) s)) [
        | inl own ↦ inl (accepted_within_skew client server len s c n own)
        | inr other ↦
            elim (place (epoch_at client len) (epoch_at server len) e
              (omega (arith, c, epoch_at_bound client len)) (near client server len n) of_client) [
                | inl here ↦ inl (in_window (epoch_at server len) e s here p)
                | inr far ↦ inr (other, e, p, far)
              ]
      ]
