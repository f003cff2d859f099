-- ===== src/Health/Check.antt =====
-- crates/health-checker/src: coherence.rs, prober.rs, report.rs and checker.rs, from the observations
-- of an entry to the pruned pool. `IpNet`, the resolver and the TLS probe are parameters.
-- Durations are in nanoseconds.
use reality_hydra.Base.{
  ℕ, ◌/◌, ◌%◌, ◌^◌, Bool, true, false, ◌&&◌, ◌||◌, not, List, [], ◌∷◌, Bytes, Option, none, some,
  ltb, leb, if◌then◌else◌, text_eq, Result, ok, err, ◌>>=◌, ◌>>◌, ensure, ok_or, map_err,
}
use reality_hydra.Pool.{PoolEntry, MasterList, ActivePool, from_unsorted}
use reality_hydra.Dns.{Resolved, ResolveError}
use reality_hydra.Health.{sni_matches_any}

-- The messages of the libraries are left out.
pub data HealthError : Type 0 where
  bad_cidr : Bytes → HealthError
  empty_allowlist : HealthError
  inverted_latency_band : ℕ → ℕ → HealthError
  resolve_failed : Bytes → HealthError
  probe_failed : Bytes → Bytes → HealthError

-- `ipnet::IpNet`; an address is its bytes.
pub record Nets : Type 1 where
  pub IpNet : Type 0
  pub parse : Bytes → Option IpNet
  pub covers : IpNet → Bytes → Bool

pub record LatencyBand : Type 0 where
  pub min_rtt : ℕ
  pub max_rtt : ℕ

-- `as_millis() as u64`
abbrev pub millis : ℕ → ℕ
millis d = (d / 1000000) % 2 ^ 64

-- `LatencyBand::new`
unfoldable pub new_band : ℕ → ℕ → Result HealthError LatencyBand
new_band min_rtt max_rtt =
    ensure (not (ltb max_rtt min_rtt)) (inverted_latency_band (millis min_rtt) (millis max_rtt))
    >> ok (record { min_rtt = min_rtt; max_rtt = max_rtt })

unfoldable pub within : LatencyBand → ℕ → Bool
within band rtt = leb band.min_rtt rtt && leb rtt band.max_rtt

abbrev pub default_band : LatencyBand
default_band = record { min_rtt = 0; max_rtt = 2000000000 }

pub record TlsObservation : Type 0 where
  pub is_tls13 : Bool
  pub alpn : Option Bytes
  pub leaf_san_dns_names : List Bytes
  pub rtt : ℕ

-- b"h2"
abbrev pub h2 : Bytes
h2 = 104 ∷ 50 ∷ []

unfoldable pub is_h2 : Option Bytes → Bool
is_h2 none = false
is_h2 (some alpn) = text_eq alpn h2

unfoldable pub alpn_is_h2 : TlsObservation → Bool
unfolding is_h2
alpn_is_h2 obs = is_h2 obs.alpn

pub record Health : Type 0 where
  pub sni : Bytes
  pub coherent : Bool
  pub san_match : Bool
  pub alpn_h2 : Bool
  pub tls13 : Bool
  pub latency_ok : Bool

unfoldable pub is_healthy : Health → Bool
is_healthy v = v.coherent && v.san_match && v.alpn_h2 && v.tls13 && v.latency_ok

unfoldable pub healthy_snis : List Health → List Bytes
unfolding is_healthy
healthy_snis [] = []
healthy_snis (v ∷ vs) = if is_healthy v then v.sni ∷ healthy_snis vs else healthy_snis vs

-- `HashSet::contains` of the healthy SNIs.
unfoldable pub has_text : List Bytes → Bytes → Bool
has_text [] s = false
has_text (t ∷ ts) s = text_eq t s || has_text ts s

module _ {F : Type 0} where
  -- The filter over the entries of the master list.
  unfoldable pub keep_healthy : List Bytes → List (PoolEntry F) → List (PoolEntry F)
  keep_healthy healthy [] = []
  keep_healthy healthy (e ∷ es) =
      if has_text healthy e.sni then e ∷ keep_healthy healthy es else keep_healthy healthy es

  unfoldable pub prune : MasterList F → List Health → ActivePool F
  unfolding keep_healthy healthy_snis has_text
  prune master reports = from_unsorted (keep_healthy (healthy_snis reports) master.entries)

module _ (nets : Nets) where
  -- The loop over the texts.
  unfoldable pub parse_nets : List Bytes → Result HealthError (List nets.IpNet)
  parse_nets [] = ok []
  parse_nets (cidr ∷ cidrs) = ok_or (nets.parse cidr) (bad_cidr cidr) >>= λ net.
      parse_nets cidrs >>= λ rest. ok (net ∷ rest)

  non_empty : List nets.IpNet → Result HealthError (List nets.IpNet)
  non_empty [] = err empty_allowlist
  non_empty (net ∷ rest) = ok (net ∷ rest)

  -- `CoherenceAllowlist::parse`; the allowlist is its networks.
  unfoldable pub parse_allowlist : List Bytes → Result HealthError (List nets.IpNet)
  unfolding parse_nets non_empty
  parse_allowlist cidrs = parse_nets cidrs >>= non_empty

  unfoldable pub any_covers : List nets.IpNet → Bytes → Bool
  any_covers [] ip = false
  any_covers (net ∷ rest) ip = nets.covers net ip || any_covers rest ip

  unfoldable pub all_covered : List nets.IpNet → List Bytes → Bool
  all_covered allow [] = true
  all_covered allow (ip ∷ ips) = any_covers allow ip && all_covered allow ips

  unfoldable pub contains_all : List nets.IpNet → List Bytes → Bool
  unfolding all_covered any_covers
  contains_all allow [] = false
  contains_all allow (ip ∷ ips) = all_covered allow (ip ∷ ips)

  -- `resolver` by the SNI; `inspector` by the destination and the SNI.
  pub record HealthChecker : Type 0 where
    pub resolver : Bytes → Result ResolveError Resolved
    pub inspector : Bytes → Bytes → Result HealthError TlsObservation
    pub allowlist : List nets.IpNet
    pub latency : LatencyBand
    pub dest : Bytes

  module _ (checker : HealthChecker) where
    -- `check`, by the SNI of the entry.
    unfoldable pub check : Bytes → Result HealthError Health
    unfolding contains_all alpn_is_h2 within
    check sni =
        map_err (λ (e : ResolveError). resolve_failed sni) (checker.resolver sni) >>= λ resolved.
        checker.inspector checker.dest sni >>= λ obs. ok (record {
          sni = sni;
          coherent = contains_all checker.allowlist resolved.addrs;
          san_match = sni_matches_any sni obs.leaf_san_dns_names;
          alpn_h2 = alpn_is_h2 obs;
          tls13 = obs.is_tls13;
          latency_ok = within checker.latency obs.rtt;
        })

    -- The loop of `check_all`.
    unfoldable pub check_entries :
        {F : Type 0} → List (PoolEntry F) → Result HealthError (List Health)
    unfolding check
    check_entries [] = ok []
    check_entries (e ∷ es) = check e.sni >>= λ v. check_entries es >>= λ vs. ok (v ∷ vs)

    unfoldable pub check_all : {F : Type 0} → MasterList F → Result HealthError (List Health)
    unfolding check_entries
    check_all master = check_entries master.entries
