-- ===== src/Examples/Checks.antt =====
-- The theorems on checks of domains, on engines and on their words at concrete values.
use testing_platform_backend.Assets.Check.{Pending, finish_check, proof_of}
use testing_platform_backend.Assets.Check.Claims.{AssetsOk}
use testing_platform_backend.Assets.Check.Proofs.{Proves, finish_check-Proves, judged}
use testing_platform_backend.Assets.Check.Runs.{
  AssetSteps, AssetSteps-AssetsOk, checks, none_yet, starts, then_step,
}
use testing_platform_backend.Assets.Check.Success.{Succeeds, finish_check-Succeeds}
use testing_platform_backend.Assets.Service.{Caller, Challenging, fresh_challenge, start_challenge}
use testing_platform_backend.Assets.Tables.{
  AssetsDb, DomainVerification, challenge_for, domain_asset, put_proof,
}
use testing_platform_backend.Assets.Verification.{
  ResolverOutcome, answered, evaluate, no_record, token_matches,
}
use testing_platform_backend.Core.Dns.{
  DnsProcess, DnsResolverConfig, DnsSettings, Network, dns_settings_are_coherent, no_answer,
  resolve_txt, without_answer,
}
use testing_platform_backend.Core.Dns.Budget.{admitted, admitted-le}
use testing_platform_backend.Core.Dns.Deadline.{is_attempted, resolve_txt-quorum}
use testing_platform_backend.Core.Enums.{exact, grade_a_plus, high, medium, zone}
use testing_platform_backend.Core.Rls.{set_org_context}
use testing_platform_backend.Modules.Child.{
  child_main, join_spaces, last_line, progress_line, returned_report,
}
use testing_platform_backend.Modules.Child.Pipe.{run_engine-child_main}
use testing_platform_backend.Modules.Dnssec.{DnssecReport, finding_of, normalize}
use testing_platform_backend.Modules.Dnssec.Checks.{normalize-validate_check_id}
use testing_platform_backend.Modules.Execution.{
  Message, Ran, Round, gives, line, no_object, reported, run_engine,
}
use testing_platform_backend.Modules.Execution.Loop.{Finished, Stalls, run_engine-ends}
use testing_platform_backend.Modules.Findings.{NormalizedFinding, validate_check_id}
use testing_platform_backend.Modules.Namespaced.{codes}
use testing_platform_backend.Modules.Vocabulary.{
  EngineVocabulary, canonical, chainvalidator_table, engine_vocabulary, grade_value,
  map_engine_grade, map_severity, upper,
}
use testing_platform_backend.Modules.Vocabulary.Folding.{Declares, map_severity_iff}
use testing_platform_backend.Modules.Vocabulary.Grades.{map_engine_grade_iff}
use testing_platform_backend.Prelude.{
  All, List, Option, Some, [], arith, count, none, ok, refl, some, suc, true, zero, ℕ, ◌+◌, ◌↔◌,
  ◌∷◌, ◌≡◌, ◌≤◌, ◌⊎◌,
}
use testing_platform_backend.Text.{strip, text_eq}

abbrev challenging : Challenging
challenging = record { token_ttl_seconds = 1000; record_prefix = codes "nc3" }

abbrev caller : Caller
caller = record { organization_id = 7; user_id = some 4; asset_id = 3 }

abbrev no_challenges : AssetsDb
no_challenges = record {
  assets =
      record { id = 3; organization_id = 7; asset_type = domain_asset; value = codes "example.lu" }
      ∷ [];
  proofs = [];
  challenges = [];
  organizations = record { id = 7; name = codes "unnamed"; named_at = none } ∷ [];
}

abbrev started_tables : AssetsDb
started_tables = (start_challenge challenging caller 100 (codes "ab") exact no_challenges).1

abbrev pending : Pending
pending = record {
  value = codes "example.lu";
  record_name = codes "_nc3-verify.example.lu";
  token = codes "ab";
  requested_scope = exact;
}

abbrev signed_reply : ResolverOutcome
signed_reply = record {
  resolver_id = "resolver.example";
  outcome = answered;
  authenticated = true;
  strings = (codes "ab" ∷ []) ∷ [];
}

abbrev replies : List ResolverOutcome
replies = signed_reply ∷ []

abbrev checked_tables : AssetsDb
checked_tables = (finish_check 2 caller 200 pending replies started_tables).1

first_steps : AssetSteps challenging 2 no_challenges checked_tables
first_steps =
    then_step no_challenges started_tables checked_tables
      (then_step no_challenges no_challenges started_tables (none_yet no_challenges)
        (starts caller 100 (codes "ab") exact no_challenges started_tables refl))
      (checks caller 200 pending replies started_tables checked_tables refl)

no_challenges-AssetsOk : AssetsOk no_challenges
no_challenges-AssetsOk = _

AssetSteps-AssetsOk_example : AssetsOk checked_tables
AssetSteps-AssetsOk_example =
    AssetSteps-AssetsOk challenging 2 no_challenges checked_tables first_steps
      no_challenges-AssetsOk

abbrev first_proof : DomainVerification
first_proof = proof_of caller 200 pending (judged 2 caller 200 pending replies)

abbrev renewed_tables : AssetsDb
renewed_tables = (start_challenge challenging caller 300 (codes "cd") zone checked_tables).1

finish_check-Proves_example :
    (checked_tables.proofs ≡ started_tables.proofs)
    ⊎ (Proves 2 caller 200 pending replies started_tables
        × (checked_tables.proofs ≡ put_proof first_proof started_tables.proofs))
finish_check-Proves_example = finish_check-Proves 2 caller 200 pending replies started_tables

started-Proves : Proves 2 caller 200 pending replies started_tables
unfolding start_challenge challenge_for set_org_context text_eq evaluate token_matches
started-Proves = record {
  standing = fresh_challenge challenging caller 100 (codes "ab") exact (record {
    id = 3;
    organization_id = 7;
    asset_type = domain_asset;
    value = codes "example.lu";
  });
  is_standing = refl;
  same_token = refl;
  not_lapsed = omega arith;
  in_favour = refl;
  unclaimed = refl;
}

finish_check-Succeeds_example :
    Succeeds 2 caller 200 pending replies started_tables started-Proves.standing
unfolding start_challenge set_org_context
finish_check-Succeeds_example =
    finish_check-Succeeds 2 caller 200 pending replies started_tables started-Proves refl

abbrev one_resolver : DnsResolverConfig
one_resolver = record {
  address = "192.0.2.1";
  tls_hostname = some "resolver.example";
  doh_url = none;
}

abbrev dns_settings : DnsSettings
dns_settings = record {
  resolvers = one_resolver ∷ one_resolver ∷ [];
  resolver_quorum = 2;
  query_timeout = 3;
  total_deadline = 10;
  max_concurrent_queries = 4;
  global_rate_limit = 5;
  global_rate_window = 60;
}

admitted-le_example :
    admitted dns_settings ((100, 2) ∷ (150, 8) ∷ []) (record { window_started = 90; spent = 4 })
    ≤ 20
admitted-le_example =
    admitted-le dns_settings 100 ((100, 2) ∷ (150, 8) ∷ [])
      (record { window_started = 90; spent = 4 }) (omega arith)
      ((omega arith, omega arith), ((omega arith, omega arith), tt))

abbrev lame_network : Network
lame_network = λ r given. (no_answer, given)

abbrev idle_process : DnsProcess
idle_process = record { in_flight = 0; budget = record { window_started = 90; spent = 4 } }

abbrev lame_outcomes : List ResolverOutcome
lame_outcomes = without_answer one_resolver no_record ∷ without_answer one_resolver no_record ∷ []

resolve_txt-quorum_example : 2 ≤ count is_attempted lame_outcomes
unfolding dns_settings_are_coherent resolve_txt
resolve_txt-quorum_example =
    resolve_txt-quorum dns_settings lame_network 100 idle_process
      (record { in_flight = 0; budget = record { window_started = 90; spent = 6 } }) lame_outcomes
      refl (λ r given. omega arith) refl

abbrev silent_rounds : ℕ → Round
silent_rounds i = record { now = 50 + i; poll = line (no_object i) }

run_engine-ends_example :
    ((r : Ran) × (run_engine 11 10 50 silent_rounds ≡ ok (some r))
      × Finished 60 silent_rounds 10 r.finish)
    ⊎ (Stalls 60 silent_rounds 10 × (run_engine 99 10 50 silent_rounds ≡ ok none))
run_engine-ends_example = run_engine-ends 10 50 10 silent_rounds 99 (omega arith) (omega arith)

abbrev no_text : List ℕ → List ℕ
no_text m = m

abbrev one_call : List (Message × List (Option Message))
one_call = (codes "log", some (codes "half") ∷ none ∷ some (codes "way") ∷ []) ∷ []

abbrev fed : ℕ → Round
fed i = record {
  now = 50 + i;
  poll = elim i [
    | zero ↦
        line (progress_line (codes "log") (some (codes "half") ∷ none ∷ some (codes "way") ∷ []))
    | suc n ↦ line (last_line ok no_text (returned_report 6))
  ];
}

run_engine-child_main_example :
    run_engine 2 10 50 fed
    ≡ ok (
        some
          (record { emitted = (codes "log", codes "half way") ∷ []; finish = gives (reported 6) }))
unfolding child_main join_spaces
run_engine-child_main_example =
    run_engine-child_main ok no_text 10 50 fed one_call (returned_report 6) (omega arith)
      (refl, omega arith, (refl, omega arith, tt))

abbrev chain_vocabulary : EngineVocabulary
chain_vocabulary = record { name = codes "chainvalidator"; table = chainvalidator_table }

map_severity_iff_example :
    (map_severity chain_vocabulary (codes " Bogus") ≡ ok high)
    ↔ Some (Declares (canonical (codes " Bogus")) high) chainvalidator_table
unfolding engine_vocabulary text_eq
map_severity_iff_example =
    map_severity_iff (codes "chainvalidator") chainvalidator_table chain_vocabulary (codes " Bogus")
      high refl

map_engine_grade_iff_example :
    (map_engine_grade (codes "a+ ") ≡ ok grade_a_plus)
    ↔ (upper (strip (codes "a+ ")) ≡ grade_value grade_a_plus)
map_engine_grade_iff_example = map_engine_grade_iff (codes "a+ ") grade_a_plus

abbrev report : DnssecReport
report = record {
  domain = codes "example.lu";
  report_status = some (codes "BOGUS");
  report_evidence = none;
  chain =
      record {
        link_status = some (codes "insecure");
        zone_name = codes "lu";
        parent_zone = [];
        link_evidence = none;
      }
      ∷ [];
  leaf = none;
}

abbrev report_findings : List NormalizedFinding
report_findings =
    finding_of (codes "dnssec.chain_of_trust") high (codes "DNSSEC validation failed")
      (codes
        "chainvalidator validated the DNSSEC chain of trust for example.lu and reported bogus.")
      (codes "example.lu") none
    ∷ finding_of (codes "dnssec.delegation.insecure") medium (codes "Delegation lu is insecure")
        (codes "The delegation to lu from the root is insecure.") (codes "lu") none
    ∷ []

normalize-validate_check_id_example :
    All (λ f. validate_check_id f.check_id (codes "dnssec") ≡ ok f.check_id) report_findings
unfolding engine_vocabulary normalize text_eq
normalize-validate_check_id_example =
    normalize-validate_check_id (codes "chainvalidator") chain_vocabulary refl no_text report
      report_findings refl
