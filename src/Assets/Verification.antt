-- ===== src/Assets/Verification.antt =====
-- domains/assets/verification.py: the match of a token, the status, and the verdict on the answers
-- of the resolvers.
pub mod Verdicts
use testing_platform_backend.Core.Enums.{
  VerificationScope, VerificationStatus, exact, expired, pending, verified, zone,
}
use testing_platform_backend.Prelude.{
  Bool, List, Option, String, [], all, any, false, if◌then◌else◌, keep, leb, length, ltb, map, none,
  not, some, true, ℕ, ◌&&◌, ◌++◌, ◌==◌, ◌||◌, ◌∷◌,
}
use testing_platform_backend.Text.{text_eq}

-- `DnsOutcome` of core/dns_utils.py
pub data DnsOutcome : Type 0 where
  answered no_record name_not_found timeout server_failure : DnsOutcome
  transport_failure not_attempted : DnsOutcome

pub record ResolverOutcome : Type 0 where
  pub resolver_id : String
  pub outcome : DnsOutcome
  pub authenticated : Bool
  pub strings : List (List (List ℕ))

pub data VerificationFailureCode : Type 0 where
  record_not_found name_not_there token_mismatch resolver_failure : VerificationFailureCode
  corroboration_not_reached challenge_expired challenge_superseded : VerificationFailureCode
  zone_requires_dnssec resolver_unavailable capacity_exhausted claim_lost : VerificationFailureCode

abbrev pub is_ascii : ℕ → Bool
is_ascii c = ltb c 128

-- `b"".join(strings)`
abbrev pub join : List (List ℕ) → List ℕ
join [] = []
join (s ∷ ss) = s ++ join ss

-- `token_matches`: each record of the set is joined on its own
unfoldable pub token_matches : List ℕ → List (List (List ℕ)) → Bool
token_matches token rrset =
    if not (all is_ascii token) then false else any (λ strings. text_eq (join strings) token) rrset

unfoldable pub compute_status : Bool → Option ℕ → ℕ → VerificationStatus
compute_status has_proof token_expires_at now =
    if has_proof then verified else elim token_expires_at [
      | none ↦ expired
      | some at ↦ if ltb now at then pending else expired
    ]

pub record CheckVerdict : Type 0 where
  pub is_verified : Bool
  pub failure_code : Option VerificationFailureCode
  pub dnssec_validated : Bool
  pub resolvers : List String
  pub corroborating_answers : ℕ

-- `outcome in _PLATFORM_OUTCOMES`
abbrev pub is_platform_outcome : DnsOutcome → Bool
is_platform_outcome timeout = true
is_platform_outcome transport_failure = true
is_platform_outcome not_attempted = true
is_platform_outcome _ = false

abbrev pub is_answered : DnsOutcome → Bool
is_answered answered = true
is_answered _ = false

abbrev is_no_record : DnsOutcome → Bool
is_no_record no_record = true
is_no_record _ = false

abbrev is_name_not_found : DnsOutcome → Bool
is_name_not_found name_not_found = true
is_name_not_found _ = false

-- The first row of `_NO_ANSWER_CODES` whose outcome was seen; its last two rows and the default
-- have one code.
unfoldable pub no_answer_code : List ResolverOutcome → VerificationFailureCode
no_answer_code outcomes =
    if any (λ o. is_no_record o.outcome) outcomes
    then record_not_found
    else if any (λ o. is_name_not_found o.outcome) outcomes
    then name_not_there
    else resolver_failure

abbrev pub refused : VerificationFailureCode → CheckVerdict
refused code = record {
  is_verified = false;
  failure_code = some code;
  dnssec_validated = false;
  resolvers = [];
  corroborating_answers = 0;
}

-- no resolver answered
unfoldable pub judge_silence : List ResolverOutcome → CheckVerdict
unfolding no_answer_code
judge_silence outcomes =
    if not (length outcomes == 0) && all (λ o. is_platform_outcome o.outcome) outcomes
    then refused resolver_unavailable
    else refused (no_answer_code outcomes)

abbrev pub is_zone : VerificationScope → Bool
is_zone zone = true
is_zone exact = false

abbrev pub has_no_strings : ResolverOutcome → Bool
has_no_strings o = elim o.strings [ [] ↦ true | _ ∷ _ ↦ false ]

-- a refusal that says which resolvers carried the token
abbrev pub short_of : List ResolverOutcome → VerificationFailureCode → CheckVerdict
short_of carrying code = record {
  is_verified = false;
  failure_code = some code;
  dnssec_validated = false;
  resolvers = map (λ o. o.resolver_id) carrying;
  corroborating_answers = length carrying;
}

abbrev pub accepted : List ResolverOutcome → CheckVerdict
accepted carrying = record {
  is_verified = true;
  failure_code = none;
  dnssec_validated = all (λ o. o.authenticated) carrying;
  resolvers = map (λ o. o.resolver_id) carrying;
  corroborating_answers = length carrying;
}

-- the answers that carry the token, by the two bars
unfoldable pub judge_carrying : List ResolverOutcome → VerificationScope → ℕ → CheckVerdict
judge_carrying carrying requested_scope quorum =
    let validated = all (λ o. o.authenticated) carrying in
    if is_zone requested_scope && not validated
    then short_of carrying zone_requires_dnssec
    else if validated || leb quorum (length carrying)
    then accepted carrying
    else short_of carrying corroboration_not_reached

-- some resolver answered
unfoldable pub judge_answers : List ResolverOutcome → List ℕ → VerificationScope → ℕ → CheckVerdict
unfolding judge_carrying
judge_answers answers token requested_scope quorum =
    elim (keep (λ o. token_matches token o.strings) answers) [
      | [] ↦ refused (if all has_no_strings answers then record_not_found else token_mismatch)
      | o ∷ os ↦ judge_carrying (o ∷ os) requested_scope quorum
    ]

-- `evaluate`; the two scopes are all the members, so the `ValueError` cannot be raised
unfoldable pub evaluate : List ResolverOutcome → List ℕ → VerificationScope → ℕ → CheckVerdict
unfolding judge_silence judge_answers
evaluate outcomes token requested_scope quorum = elim (keep (λ o. is_answered o.outcome) outcomes) [
  | [] ↦ judge_silence outcomes
  | o ∷ os ↦ judge_answers (o ∷ os) token requested_scope quorum
]
