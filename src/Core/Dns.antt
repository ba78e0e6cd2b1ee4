-- ===== src/Core/Dns.antt =====
-- core/dns_utils.py, and the checks of core/settings.py on what it uses. Spans of time are whole
-- ticks of the monotonic clock. Every configured resolver speaks DoT: an entry for DoH raises in a
-- build without its extras, and is left out.
pub mod Budget
pub mod Deadline
use testing_platform_backend.Assets.Verification.{
  DnsOutcome, ResolverOutcome, answered, name_not_found, no_record, not_attempted, server_failure,
  timeout, transport_failure,
}
use testing_platform_backend.Prelude.{
  Bool, List, Option, Result, String, [], err, false, if◌then◌else◌, leb, length, ltb, max, min,
  none, ok, require, some, str_eq, true, ℕ, ◌&&◌, ◌*◌, ◌+◌, ◌-◌, ◌==◌, ◌>>=◌, ◌>>◌, ◌||◌, ◌∷◌,
}

pub record DnsResolverConfig : Type 0 where
  pub address : String
  pub tls_hostname : Option String
  pub doh_url : Option String

pub record DnsSettings : Type 0 where
  pub resolvers : List DnsResolverConfig
  pub resolver_quorum : ℕ
  pub query_timeout : ℕ
  pub total_deadline : ℕ
  pub max_concurrent_queries : ℕ
  pub global_rate_limit : ℕ
  pub global_rate_window : ℕ

pub data DnsSettingsError : Type 0 where
  field_out_of_range quorum_too_large bulkhead_too_wide : DnsSettingsError
  deadline_below_timeout deadline_below_quorum : DnsSettingsError

-- the bounds of the `Field`s
abbrev pub fields_in_range : DnsSettings → Bool
fields_in_range s =
    leb 1 s.resolver_quorum
    && ltb 0 s.query_timeout
    && ltb 0 s.total_deadline
    && leb 1 s.max_concurrent_queries
    && leb 1 s.global_rate_limit
    && leb 1 s.global_rate_window

-- `_verification_dns_settings_are_coherent`; the pool has 15 connections
unfoldable pub dns_settings_are_coherent : DnsSettings → Result DnsSettingsError (Unit {0})
dns_settings_are_coherent s = do
  require (fields_in_range s) field_out_of_range
  require (length s.resolvers == 0 || leb s.resolver_quorum (length s.resolvers)) quorum_too_large
  require (ltb s.max_concurrent_queries 15) bulkhead_too_wide
  require (leb s.query_timeout s.total_deadline) deadline_below_timeout
  require (length s.resolvers == 0 || leb (s.resolver_quorum * s.query_timeout) s.total_deadline)
      deadline_below_quorum
  ok tt

-- `_OutboundBudget`
pub record OutboundBudget : Type 0 where
  pub window_started : ℕ
  pub spent : ℕ

-- `_limit`
abbrev pub budget_limit : DnsSettings → ℕ
budget_limit s = s.global_rate_limit * max 1 (length s.resolvers)

-- the window that `now` falls in
abbrev pub rolled : DnsSettings → ℕ → OutboundBudget → OutboundBudget
rolled s now b =
    if leb (b.window_started + s.global_rate_window) now
    then record { window_started = now; spent = 0 }
    else b

-- `try_spend`
unfoldable pub try_spend : DnsSettings → ℕ → ℕ → OutboundBudget → Bool × OutboundBudget
try_spend s queries now b =
    let w = rolled s now b in
    if ltb (budget_limit s) (w.spent + queries)
    then (false, w)
    else (true, record w { spent = w.spent + queries })

-- How `client.resolve` ends: with an answer, its AD bit and the strings of its records, or with an
-- exception. The last one stands for every exception that is no `DNSException`.
pub data Reply : Type 0 where
  nxdomain no_answer no_nameservers timed_out other_dns_error other_error : Reply
  replied : Bool → List (List (List ℕ)) → Reply

-- `a or b` on optional texts
abbrev pub or_text : Option String → String → String
or_text none d = d
or_text (some s) d = if str_eq s "" then d else s

abbrev pub resolver_id_of : DnsResolverConfig → String
resolver_id_of r = or_text r.tls_hostname (or_text r.doh_url r.address)

abbrev pub without_answer : DnsResolverConfig → DnsOutcome → ResolverOutcome
without_answer r o = record {
  resolver_id = resolver_id_of r;
  outcome = o;
  authenticated = false;
  strings = [];
}

-- `_query_one`, by the reply
unfoldable pub query_one : DnsResolverConfig → Reply → ResolverOutcome
query_one r nxdomain = without_answer r name_not_found
query_one r no_answer = without_answer r no_record
query_one r no_nameservers = without_answer r server_failure
query_one r timed_out = without_answer r timeout
query_one r other_dns_error = without_answer r transport_failure
query_one r other_error = without_answer r transport_failure
query_one r (replied ad strings) = record {
  resolver_id = resolver_id_of r;
  outcome = answered;
  authenticated = ad;
  strings = strings;
}

-- The network: for a resolver and the time that it is given, the reply and the time until the next
-- reading of the clock.
abbrev pub Network : Type 0
Network = DnsResolverConfig → ℕ → Reply × ℕ

-- the loop of `resolve_txt`, with the time spent so far
unfoldable pub ask_resolvers : Network → ℕ → ℕ → ℕ → List DnsResolverConfig → List ResolverOutcome
unfolding query_one
ask_resolvers net per_query deadline spent [] = []
ask_resolvers net per_query deadline spent (r ∷ rs) =
    let (reply, took) = net r (min per_query (deadline - spent)) in
    let unasked = ask_resolvers net per_query deadline spent rs in
    let asked = ask_resolvers net per_query deadline (spent + took) rs in
    if leb deadline spent
    then without_answer r not_attempted ∷ unasked
    else query_one r reply ∷ asked

pub data DnsError : Type 0 where
  dns_not_configured dns_capacity : DnsError

-- the process: the permits of the semaphore that are taken, and the budget
pub record DnsProcess : Type 0 where
  pub in_flight : ℕ
  pub budget : OutboundBudget

-- the admission of `resolve_txt`: a permit, then the charge for the whole check
unfoldable pub admit_check : DnsSettings → ℕ → DnsProcess → Result DnsError (Unit {0}) × DnsProcess
unfolding try_spend
admit_check s now p =
    if length s.resolvers == 0
    then (err dns_not_configured, p)
    else if leb s.max_concurrent_queries p.in_flight
    then (err dns_capacity, p)
    else let (granted, b) = try_spend s (length s.resolvers) now p.budget in
      if granted
      then (ok tt, record { in_flight = p.in_flight + 1; budget = b })
      else (err dns_capacity, record p { budget = b })

-- the `finally` of a check that took its permit
abbrev pub release : DnsProcess → DnsProcess
release p = record p { in_flight = p.in_flight - 1 }

-- `resolve_txt` of one caller, with the configured timeouts
unfoldable pub resolve_txt :
    DnsSettings → Network → ℕ → DnsProcess → Result DnsError (List ResolverOutcome) × DnsProcess
unfolding admit_check ask_resolvers
resolve_txt s net now p =
    let (admission, taken) = admit_check s now p in
    elim admission [
      | err e ↦ (err e, taken)
      | ok _ ↦
          (ok (ask_resolvers net s.query_timeout s.total_deadline 0 s.resolvers), release taken)
    ]
