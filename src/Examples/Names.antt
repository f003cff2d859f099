-- ===== src/Examples/Names.antt =====
-- A warmer that has resolved one name.
use reality_hydra.Base.{◌≡◌, refl, true, [], ◌∷◌, Bytes, get, put, none, ok, text_eq}
use reality_hydra.Dns.{Resolved, default_config, clamp, Cache, expiry, peek, is_warm, store}
use reality_hydra.Dns.Steps.{
  Call, Answer, State, start, miss, answer, write, Reachable, started, stepped, WasResolved,
  is_warm-WasResolved,
}

abbrev host : Bytes
host = b'a' ∷ []

-- One address, for a minute.
abbrev found : Resolved
found = record { addrs = (192 ∷ 0 ∷ 2 ∷ 1 ∷ []) ∷ []; ttl = 60000000000 }

abbrev asked : Call
asked = record { host = host; now_ms = 5 }

abbrev told : Answer
told = record { call = asked; resolved = found }

abbrev held : Cache
held = (host, record { resolved = found; expires_at_ms = 60005 }) ∷ []

abbrev waiting_state : State
waiting_state = record { cache = []; waiting = asked ∷ []; answered = []; history = [] }

abbrev answered_state : State
answered_state = record { cache = []; waiting = []; answered = told ∷ []; history = told ∷ [] }

abbrev warm_state : State
warm_state = record { cache = held; waiting = []; answered = []; history = told ∷ [] }

nothing_there : peek [] host 5 ≡ none
unfolding peek get
nothing_there = refl

found_is_stored : store default_config [] host 5 found ≡ ok held
unfolding store clamp expiry put
found_is_stored = refl

warm_state-Reachable : Reachable default_config warm_state
warm_state-Reachable =
    stepped answered_state warm_state
      (stepped waiting_state answered_state
        (stepped start waiting_state started (miss start asked nothing_there))
        (answer waiting_state [] [] asked found refl))
      (write answered_state [] [] told held refl found_is_stored)

held-is_warm : is_warm held host 60004 ≡ true
unfolding is_warm get text_eq
held-is_warm = refl

is_warm-WasResolved_example : WasResolved default_config warm_state host 60004
is_warm-WasResolved_example =
    is_warm-WasResolved default_config warm_state host 60004 warm_state-Reachable held-is_warm
