-- ===== src/Core/Dns/Deadline.antt =====
-- The quorum of resolvers is asked before the deadline, under every configuration that starts.
use testing_platform_backend.Assets.Verification.{DnsOutcome, ResolverOutcome}
use testing_platform_backend.Core.Dns.{
  DnsError, DnsProcess, DnsResolverConfig, DnsSettings, Network, Reply, admit_check, ask_resolvers,
  dns_not_configured, dns_settings_are_coherent, no_answer, no_nameservers, nxdomain,
  other_dns_error, other_error, query_one, replied, resolve_txt, timed_out,
}
use testing_platform_backend.Prelude.{
  Bool, Bool-cases, List, Result, Result-cases, [], ap, arith, count, err, false, inl, inr, leb,
  length, min, ok, ok-injective, refl, subst, suc, true, zero, ℕ, ◌*◌, ◌+◌, ◌-◌, ◌<◌, ◌==◌, ◌∷◌,
  ◌≡◌, ◌≤◌,
}

abbrev pub is_attempted : ResolverOutcome → Bool
is_attempted o = elim o.outcome [ DnsOutcome.not_attempted ↦ false | _ ↦ true ]

query_one_attempted :
    (r : DnsResolverConfig) (reply : Reply) → is_attempted (query_one r reply) ≡ true
unfolding query_one
query_one_attempted r nxdomain = refl
query_one_attempted r no_answer = refl
query_one_attempted r no_nameservers = refl
query_one_attempted r timed_out = refl
query_one_attempted r other_dns_error = refl
query_one_attempted r other_error = refl
query_one_attempted r (replied ad strings) = refl

module _ (net : Network) (per_query deadline : ℕ) where
  ask_resolvers-count :
      (m elapsed : ℕ) (rs : List DnsResolverConfig)
      → ((r : DnsResolverConfig) (given : ℕ) → (net r given).1 ≤ given)
      → 0 < per_query
      → m ≤ length rs
      → elapsed + m * per_query ≤ deadline
      → m ≤ count is_attempted (ask_resolvers net per_query deadline elapsed rs)
  unfolding ask_resolvers
  ask_resolvers-count zero elapsed rs law pos fits room = omega arith
  ask_resolvers-count (suc m) elapsed [] law pos fits room = absurd (omega arith)
  ask_resolvers-count (suc m) elapsed (r ∷ rs) law pos fits room =
      let given : ℕ = min per_query (deadline - elapsed) in
      let early : leb deadline elapsed ≡ false = ground arith in
      let took : (net r given).1 ≤ per_query = omega (arith, law r given) in
      let rest : m
          ≤ count is_attempted
              (ask_resolvers net per_query deadline (elapsed + (net r given).1) rs) =
        ask_resolvers-count m (elapsed + (net r given).1) rs law pos (omega arith) (grind arith) in
      rw (ask_resolvers, early, query_one_attempted r (net r given).0) (omega (arith, rest))

admitted_nonempty :
    (s : DnsSettings) (now : ℕ) (p : DnsProcess) (x : Unit {0})
    → (admit_check s now p).0 ≡ ok x
    → (length s.resolvers == 0) ≡ false
unfolding admit_check
admitted_nonempty s now p x h = elim (Bool-cases (length s.resolvers == 0)) [
  | inl y ↦
      let clash : ◌≡◌ {A = Result DnsError (Unit {0})} (err dns_not_configured) (ok x) =
        rw (admit_check, y) at h in
      cc
  | inr n ↦ n
]

settings_cover :
    (s : DnsSettings)
    → dns_settings_are_coherent s ≡ ok tt
    → (length s.resolvers == 0) ≡ false
    → (0 < s.query_timeout)
      × (s.resolver_quorum ≤ length s.resolvers)
      × (s.resolver_quorum * s.query_timeout ≤ s.total_deadline)
unfolding dns_settings_are_coherent
settings_cover s h n = ground arith

-- Under settings that the checks at start accept, a check that is admitted asks at least as many
-- resolvers as the quorum, as long as each lookup takes at most the time that it is given.
pub resolve_txt-quorum :
    (s : DnsSettings) (net : Network) (now : ℕ) (p after : DnsProcess)
    (outcomes : List ResolverOutcome)
    → dns_settings_are_coherent s ≡ ok tt
    → ((r : DnsResolverConfig) (given : ℕ) → (net r given).1 ≤ given)
    → resolve_txt s net now p ≡ (ok outcomes, after)
    → s.resolver_quorum ≤ count is_attempted outcomes
unfolding dns_settings_are_coherent resolve_txt
resolve_txt-quorum s net now p after outcomes settings law h =
    elim (Result-cases (admit_check s now p).0) [
      | inl (x, e) ↦
          let clash : ◌≡◌ {A = Result DnsError (List ResolverOutcome)} (err x) (ok outcomes) =
            ap (λ v. v.0) (rw (resolve_txt, e) at h) in
          cc
      | inr (x, e) ↦
          let same : ◌≡◌ {A = Result DnsError (List ResolverOutcome)}
              (ok (ask_resolvers net s.query_timeout s.total_deadline 0 s.resolvers))
              (ok outcomes) =
            ap (λ v. v.0) (rw (resolve_txt, e) at h) in
          let (positive, enough, room) =
            settings_cover s settings (admitted_nonempty s now p x e) in
          subst (λ o. s.resolver_quorum ≤ count is_attempted o) (ok-injective same)
            (ask_resolvers-count net s.query_timeout s.total_deadline s.resolver_quorum 0
              s.resolvers law positive enough (omega (arith, room)))
    ]
