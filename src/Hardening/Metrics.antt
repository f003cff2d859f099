-- ===== src/Hardening/Metrics.antt =====
-- crates/hardening/src/metrics.rs: the counters and their snapshots. `none` is the panic on a name that
-- no counter has. An `AtomicU64` is its value; `fetch_add` wraps, and one step is one call of it.
pub mod Delta
use reality_hydra.Base.{
  ℕ, ◌+◌, ◌-◌, ◌%◌, ◌^◌, Option, none, some, List, [], ◌∷◌, map, Bytes, StringMap, get as entry,
  put, ascii,
}

-- `Metrics::ALL_NAMES`
unfoldable pub all_names : List Bytes
unfolding ascii
all_names =
    ascii "epoch_transitions"
    ∷ ascii "selections"
    ∷ ascii "sticky_hits"
    ∷ ascii "dns_resolutions"
    ∷ ascii "dns_cache_hits"
    ∷ ascii "dns_failures"
    ∷ ascii "health_checks"
    ∷ ascii "healthy_entries"
    ∷ ascii "unhealthy_entries"
    ∷ ascii "tls_handshakes"
    ∷ ascii "tls_failures"
    ∷ ascii "auth_built"
    ∷ []

pub record CounterSet : Type 0 where
  pub counters : StringMap ℕ

-- Entries put into a `HashMap` one after the other.
unfoldable pub collect : List (Bytes × ℕ) → StringMap ℕ → StringMap ℕ
collect [] m = m
collect ((name, n) ∷ rest) m = collect rest (put m name n)

unfoldable pub counter_set : CounterSet
unfolding collect all_names
counter_set = record { counters = collect (map (λ name. (name, 0)) all_names) [] }

unfoldable pub fetch_add : CounterSet → Bytes → ℕ → Option ℕ → Option CounterSet
fetch_add set name n none = none
fetch_add set name n (some old) =
    some (record { counters = put set.counters name ((old + n) % 2 ^ 64) })

unfoldable pub add : CounterSet → Bytes → ℕ → Option CounterSet
unfolding fetch_add
add set name n = fetch_add set name n (entry set.counters name)

unfoldable pub inc : CounterSet → Bytes → Option CounterSet
unfolding fetch_add
inc set name = fetch_add set name 1 (entry set.counters name)

unfoldable pub get : CounterSet → Bytes → Option ℕ
get set name = entry set.counters name

pub record Snapshot : Type 0 where
  pub counters : List (Bytes × ℕ)

unfoldable pub reading : Bytes → Option ℕ → Option (List (Bytes × ℕ)) → Option (List (Bytes × ℕ))
reading name (some n) (some rest) = some ((name, n) ∷ rest)
reading name (some n) none = none
reading name none rest = none

unfoldable pub readings : CounterSet → List Bytes → Option (List (Bytes × ℕ))
unfolding get reading
readings set [] = some []
readings set (name ∷ names) = reading name (get set name) (readings set names)

unfoldable pub taken : Option (List (Bytes × ℕ)) → Option Snapshot
taken none = none
taken (some counters) = some (record { counters = counters })

unfoldable pub take : CounterSet → Option Snapshot
unfolding readings taken all_names
take set = taken (readings set all_names)

-- `copied().unwrap_or(0)`
unfoldable pub or_zero : Option ℕ → ℕ
or_zero none = 0
or_zero (some n) = n

unfoldable pub delta : Snapshot → Snapshot → List (Bytes × ℕ)
unfolding collect or_zero
delta later earlier =
    map (λ (c : Bytes × ℕ). (c.0, c.1 - or_zero (entry (collect earlier.counters []) c.0)))
      later.counters
