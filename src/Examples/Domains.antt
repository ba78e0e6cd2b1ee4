-- ===== src/Examples/Domains.antt =====
-- The theorems on asset verification and on the second factor at concrete values.
use testing_platform_backend.Assets.Verification.{ResolverOutcome, answered, evaluate}
use testing_platform_backend.Assets.Verification.Verdicts.{Enough, carrying_of, evaluate-Enough}
use testing_platform_backend.Auth.Mfa.{
  MfaPolicy, Primitives, confirmed_mfa, hash_recovery_code, invalid_mfa_code, matching_step,
  require_mfa_unlocked, spend_code, step_at,
}
use testing_platform_backend.Auth.Service.{Request, confirm_mfa, verify_mfa}
use testing_platform_backend.Auth.Service.Activation.{Confirms, confirm_mfa-Confirms}
use testing_platform_backend.Auth.Service.Confirm.{verify_mfa-recovery_once}
use testing_platform_backend.Auth.Service.Verify.{again, verify_mfa-advances}
use testing_platform_backend.Auth.Tables.{AuthDb, UserMfa, consume_recovery_code}
use testing_platform_backend.Core.Enums.{zone}
use testing_platform_backend.Modules.Namespaced.{codes}
use testing_platform_backend.Prelude.{
  List, Option, [], err, false, length, none, refl, some, true, ℕ, ◌+◌, ◌<◌, ◌↔◌, ◌∷◌, ◌≡◌, ◌≢◌,
}
use testing_platform_backend.Text.{lower, text_eq}

-- "example.lu" and "a.example.lu"
abbrev apex : List ℕ
apex = codes "example.lu"

abbrev inner_name : List ℕ
inner_name = codes "a.example.lu"

abbrev inner_most_name : List ℕ
inner_most_name = codes "b.A.example.lu."

abbrev signed_answer : ResolverOutcome
signed_answer = record {
  resolver_id = "resolver.example";
  outcome = answered;
  authenticated = true;
  strings = ((97 ∷ []) ∷ (98 ∷ []) ∷ []) ∷ [];
}

evaluate-Enough_example :
    ((evaluate (signed_answer ∷ []) (97 ∷ 98 ∷ []) zone 2).is_verified ≡ true) ↔ (
      (carrying_of (signed_answer ∷ []) (97 ∷ 98 ∷ []) ≢ [])
      × Enough (carrying_of (signed_answer ∷ []) (97 ∷ 98 ∷ [])) zone 2)
evaluate-Enough_example = evaluate-Enough (signed_answer ∷ []) (97 ∷ 98 ∷ []) zone 2

-- the code of a step is the step itself, and a digest is a length
abbrev pub primitives : Primitives
primitives = record {
  verify_totp = λ secret code s. text_eq code (s ∷ []);
  sha256 = length;
  session_id_at = λ n. n + 50;
  token_at = λ n. n ∷ [];
  fresh_codes = λ _. [];
}

abbrev policy : MfaPolicy
policy = record { failed_threshold = 3; lockout_base_seconds = 900; lockout_cap_seconds = 86400 }

abbrev factor : UserMfa
factor = record {
  user_id = 4;
  totp_secret = some 77;
  confirmed_at = some 100;
  last_used_step = some 8;
  failed_count = 1;
  lockout_count = 0;
  locked_until = none;
}

abbrev auth_db : UserMfa → Option ℕ → AuthDb
auth_db row revoked = record {
  factors = row ∷ [];
  recovery_codes = record { user_id = 4; code_hash = 2; used_at = none; superseded_at = none } ∷ [];
  sessions =
      record {
        id = 5;
        user_id = 4;
        token_hash = 91;
        created_at = 100;
        last_seen_at = 200;
        revoked_at = revoked;
        mfa_verified_at = none;
      }
      ∷ [];
  drawn = 0;
}

abbrev asked : Request
asked = record { user = 4; session_id = 5; now = 300 }

abbrev code_of_step : List ℕ
code_of_step = 10 ∷ []

abbrev verified_db : AuthDb
verified_db =
    (verify_mfa primitives policy asked true (some code_of_step) none (auth_db factor none)).1

abbrev later_code : List ℕ
later_code = 11 ∷ []

abbrev verified_again_db : AuthDb
verified_again_db =
    (verify_mfa primitives policy (again primitives policy asked 50 310) false (some later_code)
      none verified_db).1

verify_mfa-advances_example :
    (secret : ℕ) × (m : ℕ) × (m' : ℕ) × (matching_step primitives secret code_of_step (step_at 300)
      ≡ some m)
    × (matching_step primitives secret later_code (step_at 310) ≡ some m')
    × (m < m')
unfolding verify_mfa confirmed_mfa require_mfa_unlocked spend_code matching_step text_eq step_at
verify_mfa-advances_example =
    verify_mfa-advances primitives policy asked true code_of_step none (auth_db factor none)
      verified_db (some 50) false later_code none 50 310 verified_db verified_again_db none refl
      refl refl

abbrev recovered_db : AuthDb
recovered_db =
    (verify_mfa primitives policy asked false none (some (97 ∷ 45 ∷ 98 ∷ []))
      (auth_db factor none)).1

verify_mfa-recovery_once_example :
    (verify_mfa primitives policy
      (again primitives policy asked 5 400)
      false
      none
      (some (65 ∷ 98 ∷ []))
      recovered_db).0
    ≡ err invalid_mfa_code
unfolding verify_mfa confirmed_mfa require_mfa_unlocked spend_code consume_recovery_code
    hash_recovery_code lower
verify_mfa-recovery_once_example =
    verify_mfa-recovery_once primitives policy asked false (97 ∷ 45 ∷ 98 ∷ []) (auth_db factor none)
      recovered_db none false (65 ∷ 98 ∷ []) 5 400 refl refl

abbrev fresh_factor : UserMfa
fresh_factor = record factor { confirmed_at = none; last_used_step = none }

-- the calling session was revoked at 290
confirm_mfa-Confirms_example :
    Confirms primitives policy asked code_of_step
      (auth_db fresh_factor (some 290))
      (confirm_mfa primitives policy asked code_of_step (auth_db fresh_factor (some 290)))
confirm_mfa-Confirms_example =
    confirm_mfa-Confirms primitives policy asked code_of_step (auth_db fresh_factor (some 290))
