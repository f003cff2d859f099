-- ===== src/Examples/Checks.antt =====
-- Two entries, of which one resolves into the allowlist.
use reality_hydra.Base.{ℕ, ◌≡◌, ◌↔◌, refl, true, [], ◌∷◌, Bytes, false, some, ok, text_eq}
use reality_hydra.Pool.{MasterList, contains, has_sni}
use reality_hydra.Health.{
  sni_matches_any, dns_name_matches, matches_normal, matches_pattern, one_label, split_once,
  has_dot, lower, trim_dots,
}
use reality_hydra.Health.Check.{
  Nets, h2, is_h2, alpn_is_h2, within, Health, HealthChecker, prune, check, check_entries,
  check_all, contains_all, all_covered, any_covers, default_band,
}
use reality_hydra.Health.Pruned.{Passes, prune-Passes}
use reality_hydra.Examples.Fixtures.{entry_a, entry_b}

-- A network is an address.
abbrev hosts : Nets
hosts = record { IpNet = Bytes; parse = λ cidr. some cidr; covers = text_eq }

abbrev checker : HealthChecker hosts
checker = record {
  resolver = λ sni. ok (record { addrs = sni ∷ []; ttl = 60 });
  inspector = λ dest sni.
      ok (record { is_tls13 = true; alpn = some h2; leaf_san_dns_names = sni ∷ []; rtt = 5 });
  allowlist = (b'a' ∷ []) ∷ [];
  latency = default_band;
  dest = b'd' ∷ [];
}

abbrev master : MasterList ℕ
master = record { entries = entry_a ∷ entry_b ∷ [] }

abbrev verdict_a : Health
verdict_a = record {
  sni = b'a' ∷ [];
  coherent = true;
  san_match = true;
  alpn_h2 = true;
  tls13 = true;
  latency_ok = true;
}

abbrev verdict_b : Health
verdict_b = record {
  sni = b'b' ∷ [];
  coherent = false;
  san_match = true;
  alpn_h2 = true;
  tls13 = true;
  latency_ok = true;
}

complete : check_all hosts checker master ≡ ok (verdict_a ∷ verdict_b ∷ [])
unfolding check_all check_entries check contains_all all_covered any_covers alpn_is_h2 is_h2 within
    sni_matches_any dns_name_matches matches_normal matches_pattern one_label split_once has_dot
    lower trim_dots text_eq
complete = refl

prune-Passes_example :
    (contains (prune master (verdict_a ∷ verdict_b ∷ [])) (b'a' ∷ []) ≡ true)
    ↔ ((has_sni master.entries (b'a' ∷ []) ≡ true) × Passes hosts checker (b'a' ∷ []))
prune-Passes_example =
    prune-Passes hosts checker master (verdict_a ∷ verdict_b ∷ []) (b'a' ∷ []) complete
