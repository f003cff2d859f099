-- ===== src/Health/Pruned.antt =====
-- Which entries of the master list are left in the pool after a check of all of them.
use mathlib.Core.Path.{subst}
use mathlib.Core.Bool.{false≢true}
use reality_hydra.Base.{
  ℕ, ◌≤◌, ◌≡◌, ◌≢◌, refl, sym, ap, ◌∙◌, ◌↔◌, inl, inr, Bool, true, false, ◌&&◌, ◌||◌, List, [], ◌∷◌,
  Bytes, All, Option, none, some, Bool-cases, &&-split, leb, leb→le, le→leb, text_eq, text_eq→eq,
  Result, ok, err, panic, ok_elim, ok-injective, arith, map_err,
}
use reality_hydra.Pool.{PoolEntry, MasterList, has_sni, contains, from_unsorted}
use reality_hydra.Pool.Window.Union.{has_sni-sort}
use reality_hydra.Dns.{Resolved, ResolveError}
use reality_hydra.Health.{sni_matches_any}
use reality_hydra.Health.Check.{
  resolve_failed, Nets, LatencyBand, within, TlsObservation, h2, is_h2, alpn_is_h2, Health,
  is_healthy, healthy_snis, has_text, keep_healthy, prune, any_covers, all_covered, contains_all,
  HealthChecker, check, check_entries, check_all,
}

module _ {F : Type 0} where
  has_sni-keep_healthy :
      (healthy : List Bytes) (es : List (PoolEntry F)) (s : Bytes)
      → has_sni (keep_healthy healthy es) s ≡ (has_sni es s && has_text healthy s)
  unfolding keep_healthy has_sni
  has_sni-keep_healthy healthy [] s = refl
  has_sni-keep_healthy healthy (e ∷ es) s = elim (Bool-cases (text_eq e.sni s)) [
    | inr other ↦ ground (arith, has_sni-keep_healthy healthy es s)
    | inl same ↦
        let at_s : has_text healthy e.sni ≡ has_text healthy s =
          ap (has_text healthy) (text_eq→eq e.sni s same) in
        ground (arith, has_sni-keep_healthy healthy es s, at_s)
  ]

module _ (nets : Nets) (checker : HealthChecker nets) where
  -- The SNI resolves to some addresses, all in the allowlist, and the destination, asked with it,
  -- speaks TLS 1.3 and HTTP/2 in time, with a certificate whose names cover it.
  pub record Passes (sni : Bytes) : Type 0 where
    pub resolved : Resolved
    pub obs : TlsObservation
    pub answers : checker.resolver sni ≡ ok resolved
    pub probed : checker.inspector checker.dest sni ≡ ok obs
    pub some_address : resolved.addrs ≢ []
    pub covered : All (λ ip. any_covers nets checker.allowlist ip ≡ true) resolved.addrs
    pub named : sni_matches_any sni obs.leaf_san_dns_names ≡ true
    pub speaks_h2 : obs.alpn ≡ some h2
    pub speaks_tls13 : obs.is_tls13 ≡ true
    pub not_early : checker.latency.min_rtt ≤ obs.rtt
    pub not_late : obs.rtt ≤ checker.latency.max_rtt

  all_covered_iff :
      (ips : List Bytes)
      → (all_covered nets checker.allowlist ips ≡ true)
        ↔ All (λ ip. any_covers nets checker.allowlist ip ≡ true) ips
  unfolding all_covered
  all_covered_iff [] = (λ h. tt, λ h. refl)
  all_covered_iff (ip ∷ ips) =
      let rest = all_covered_iff ips in
      (
        λ h.
            let both = &&-split (any_covers nets checker.allowlist ip) _ h in
            (both.0, rest.0 both.1),
        λ h. rw (h.0) (rest.1 h.1),
      )

  contains_all_iff :
      (ips : List Bytes)
      → (contains_all nets checker.allowlist ips ≡ true)
        ↔ ((ips ≢ []) × All (λ ip. any_covers nets checker.allowlist ip ≡ true) ips)
  unfolding contains_all
  contains_all_iff [] = (λ h. cc, λ h. absurd (h.0 refl))
  contains_all_iff (ip ∷ ips) =
      (λ h. (λ e. cc, (all_covered_iff (ip ∷ ips)).0 h), λ h. (all_covered_iff (ip ∷ ips)).1 h.1)

  is_h2_iff : (alpn : Option Bytes) → (is_h2 alpn ≡ true) ↔ (alpn ≡ some h2)
  unfolding is_h2 text_eq
  is_h2_iff none = (λ h. cc, λ h. cc)
  is_h2_iff (some a) = (λ h. ap some (text_eq→eq a h2 h), λ h. ap is_h2 h)

  within_iff :
      (band : LatencyBand) (rtt : ℕ)
      → (within band rtt ≡ true) ↔ ((band.min_rtt ≤ rtt) × (rtt ≤ band.max_rtt))
  unfolding within
  within_iff band rtt = (
    λ h. let both = &&-split (leb band.min_rtt rtt) _ h in (leb→le _ _ both.0, leb→le _ _ both.1),
    λ h. rw (le→leb band.min_rtt rtt h.0, le→leb rtt band.max_rtt h.1) refl,
  )

  map_err_ok : {E G A : Type 0} (f : E → G) (m : Result E A) {a : A} → map_err f m ≡ ok a → m ≡ ok a
  map_err_ok f (ok a) h = ap ok (ok-injective h)
  map_err_ok f (err e) h = cc
  map_err_ok f panic h = cc

  healthy_parts :
      (a b c d e : Bool)
      → (a && b && c && d && e) ≡ true
      → (a ≡ true) × (b ≡ true) × (c ≡ true) × (d ≡ true) × (e ≡ true)
  healthy_parts true true true true true h = (refl, refl, refl, refl, refl)
  healthy_parts false b c d e h = cc
  healthy_parts true false c d e h = cc
  healthy_parts true true false d e h = cc
  healthy_parts true true true false e h = cc
  healthy_parts true true true true false h = cc

  -- The verdict on two observations.
  abbrev verdict : Bytes → Resolved → TlsObservation → Health
  verdict sni resolved obs = record {
    sni = sni;
    coherent = contains_all nets checker.allowlist resolved.addrs;
    san_match = sni_matches_any sni obs.leaf_san_dns_names;
    alpn_h2 = alpn_is_h2 obs;
    tls13 = obs.is_tls13;
    latency_ok = within checker.latency obs.rtt;
  }

  verdict-Passes :
      (sni : Bytes) (resolved : Resolved) (obs : TlsObservation)
      → checker.resolver sni ≡ ok resolved
      → checker.inspector checker.dest sni ≡ ok obs
      → (is_healthy (verdict sni resolved obs) ≡ true) ↔ Passes sni
  unfolding is_healthy alpn_is_h2
  verdict-Passes sni resolved obs answers probed = (
    λ h.
        let (coherent, named, http2, tls13, timely) = healthy_parts _ _ _ _ _ h in
        let addresses = (contains_all_iff resolved.addrs).0 coherent in
        let bounds = (within_iff checker.latency obs.rtt).0 timely in
        record {
          resolved = resolved;
          obs = obs;
          answers = answers;
          probed = probed;
          some_address = addresses.0;
          covered = addresses.1;
          named = named;
          speaks_h2 = (is_h2_iff obs.alpn).0 http2;
          speaks_tls13 = tls13;
          not_early = bounds.0;
          not_late = bounds.1;
        },
    λ (p : Passes sni).
        let same : p.resolved ≡ resolved = ok-injective (sym p.answers ∙ answers) in
        let same_obs : p.obs ≡ obs = ok-injective (sym p.probed ∙ probed) in
        let coherent : contains_all nets checker.allowlist resolved.addrs ≡ true =
          ap (λ (r : Resolved). contains_all nets checker.allowlist r.addrs) (sym same)
          ∙ (contains_all_iff p.resolved.addrs).1 (p.some_address, p.covered) in
        let named : sni_matches_any sni obs.leaf_san_dns_names ≡ true =
          ap (λ (o : TlsObservation). sni_matches_any sni o.leaf_san_dns_names) (sym same_obs)
          ∙ p.named in
        let http2 : is_h2 obs.alpn ≡ true =
          ap (λ (o : TlsObservation). is_h2 o.alpn) (sym same_obs)
          ∙ (is_h2_iff p.obs.alpn).1 p.speaks_h2 in
        let tls13 : obs.is_tls13 ≡ true =
          ap (λ (o : TlsObservation). o.is_tls13) (sym same_obs) ∙ p.speaks_tls13 in
        let timely : within checker.latency obs.rtt ≡ true =
          ap (λ (o : TlsObservation). within checker.latency o.rtt) (sym same_obs)
          ∙ (within_iff checker.latency p.obs.rtt).1 (p.not_early, p.not_late) in
        rw (coherent, named, http2, tls13, timely) refl,
  )

  check-verdict :
      (sni : Bytes) {v : Health}
      → check nets checker sni ≡ ok v
      → (v.sni ≡ sni) × ((is_healthy v ≡ true) ↔ Passes sni)
  unfolding check
  check-verdict sni {v} h =
      ok_elim (map_err (λ (e : ResolveError). resolve_failed sni) (checker.resolver sni)) _ h
        (λ resolved answers on.
          ok_elim (checker.inspector checker.dest sni) _ on (λ obs probed made.
            let same : verdict sni resolved obs ≡ v = ok-injective made in
            subst (λ (u : Health). (u.sni ≡ sni) × ((is_healthy u ≡ true) ↔ Passes sni)) same
              (refl, verdict-Passes sni resolved obs (map_err_ok _ _ answers) probed)))

  has_text-cons :
      (v : Health) (vs : List Health) (s : Bytes)
      → has_text (healthy_snis (v ∷ vs)) s
        ≡ ((is_healthy v && text_eq v.sni s) || has_text (healthy_snis vs) s)
  unfolding healthy_snis has_text
  has_text-cons v vs s = elim (Bool-cases (is_healthy v)) [
    | inl good ↦ rw good refl
    | inr bad ↦ rw bad refl
  ]

  or_right : (a b : Bool) → b ≡ true → (a || b) ≡ true
  or_right true b h = refl
  or_right false b h = h

  check_entries→Passes :
      {F : Type 0} (es : List (PoolEntry F)) {vs : List Health} (s : Bytes)
      → check_entries nets checker es ≡ ok vs
      → has_text (healthy_snis vs) s ≡ true
      → Passes s
  unfolding check_entries has_text healthy_snis
  check_entries→Passes [] {vs} s h found = absurd (
      false≢true (ap (λ (us : List Health). has_text (healthy_snis us) s) (ok-injective h) ∙ found))
  check_entries→Passes (e ∷ es) {vs} s h found =
      ok_elim (check nets checker e.sni) _ h (λ v checked on.
        ok_elim (check_entries nets checker es) _ on (λ us rest made.
          let whole =
            sym (has_text-cons v us s)
            ∙ ap (λ (ws : List Health). has_text (healthy_snis ws) s) (ok-injective made)
            ∙ found in
          elim (Bool-cases (is_healthy v && text_eq v.sni s)) [
            | inl here ↦
                let (v_sni, verdict_iff) = check-verdict e.sni checked in
                let both = &&-split (is_healthy v) (text_eq v.sni s) here in
                subst Passes (sym v_sni ∙ text_eq→eq v.sni s both.1) (verdict_iff.0 both.0)
            | inr later ↦
                check_entries→Passes es s rest
                  (sym (ap (λ b. b || has_text (healthy_snis us) s) later) ∙ whole)
          ]))

  Passes→check_entries :
      {F : Type 0} (es : List (PoolEntry F)) {vs : List Health} (s : Bytes)
      → check_entries nets checker es ≡ ok vs
      → has_sni es s ≡ true
      → Passes s
      → has_text (healthy_snis vs) s ≡ true
  unfolding check_entries has_sni
  Passes→check_entries [] s h there p = cc
  Passes→check_entries (e ∷ es) {vs} s h there p =
      ok_elim (check nets checker e.sni) _ h (λ v checked on.
        ok_elim (check_entries nets checker es) _ on (λ us rest made.
          let (v_sni, verdict_iff) = check-verdict e.sni checked in
          sym (ap (λ (ws : List Health). has_text (healthy_snis ws) s) (ok-injective made))
          ∙ has_text-cons v us s
          ∙ elim (Bool-cases (text_eq e.sni s)) [
            | inl here ↦
                let good = verdict_iff.1 (subst Passes (sym (text_eq→eq e.sni s here)) p) in
                rw (good, v_sni, here) refl
            | inr other ↦
                or_right (is_healthy v && text_eq v.sni s) _ (
                  Passes→check_entries es s rest (sym (ap (λ b. b || has_sni es s) other) ∙ there)
                    p)
          ]))

  -- After a check of all entries, an SNI is in the pruned pool exactly when it is one of the master
  -- list's and passes on every axis.
  pub prune-Passes :
      {F : Type 0} (master : MasterList F) (reports : List Health) (s : Bytes)
      → check_all nets checker master ≡ ok reports
      → (contains (prune master reports) s ≡ true) ↔ ((has_sni master.entries s ≡ true) × Passes s)
  unfolding check_all prune from_unsorted
  prune-Passes master reports s h =
      let kept : contains (prune master reports) s
          ≡ (has_sni master.entries s && has_text (healthy_snis reports) s) =
        has_sni-sort (keep_healthy (healthy_snis reports) master.entries) s
        ∙ has_sni-keep_healthy (healthy_snis reports) master.entries s in
      (
        λ there.
            let both = &&-split (has_sni master.entries s) _ (sym kept ∙ there) in
            (both.0, check_entries→Passes master.entries s h both.1),
        λ p. kept ∙ rw (p.0, Passes→check_entries master.entries s h p.0 p.1) refl,
      )
