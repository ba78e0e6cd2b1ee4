-- ===== src/Examples/Registering.antt =====
-- The theorems on registration at concrete values.
use testing_platform_backend.Auth.Accounts.{AppUser}
use testing_platform_backend.Auth.Consents.{
  Statement, StatementAnswer, acceptance, active_acceptance_statements, consents,
}
use testing_platform_backend.Auth.Login.{LoginResult, login}
use testing_platform_backend.Auth.Registration.{
  Platform, Provisioning, RegistrationSubmission, integrity_error, is_id_taken, is_owner_taken,
  register, registrant, wrapped_at,
}
use testing_platform_backend.Auth.Registration.Entrance.{login-register}
use testing_platform_backend.Auth.Registration.Receipts.{Receipts, register-Receives}
use testing_platform_backend.Auth.Registration.Twice.{register_twice}
use testing_platform_backend.Core.Crypto.{wrap_key}
use testing_platform_backend.Core.Enums.{organization_admin}
use testing_platform_backend.Examples.Access.{address, lockout, vault, vault_laws}
use testing_platform_backend.Examples.Domains.{primitives}
use testing_platform_backend.Modules.Namespaced.{codes}
use testing_platform_backend.Prelude.{[], arith, err, none, ok, refl, ◌+◌, ◌∷◌, ◌≡◌}
use testing_platform_backend.Text.{lower, text_eq}

abbrev provisioning : Provisioning
provisioning = record {
  uuid_at = λ n. n + 100;
  key_at = λ n. n ∷ [];
  app_encryption_master_key_version = 1;
  evidence_json = λ email ip agent. email;
}

abbrev terms : Statement
terms = record {
  id = 11;
  statement_key = codes "terms";
  version = codes "1";
  response_kind = acceptance;
  required_context_type = none;
  effective_at = 5;
  retired_at = none;
}

abbrev platform : Platform
platform = record {
  accounts = record {
    users = [];
    credentials = [];
    envelopes = [];
    auth = record { factors = []; recovery_codes = []; sessions = []; drawn = 0 };
  };
  organizations = [];
  statements = terms ∷ [];
  responses = [];
}

abbrev terms_answer : StatementAnswer
terms_answer = record { answered_key = codes "terms"; answered_version = codes "1" }

abbrev submission : RegistrationSubmission
submission = record {
  email = codes "A@b.lu";
  password = codes "secret";
  statement_responses = terms_answer ∷ [];
  client_ip = [];
  user_agent = [];
}

abbrev registered_user : AppUser
registered_user = record {
  id = 101;
  organization_id = 100;
  email = address;
  disabled_at = none;
  organization_role = organization_admin;
}

abbrev registered : Platform
registered = (register vault provisioning 10 submission platform).1

login-register_example :
    (r : LoginResult) × ((login primitives vault lockout
        (codes "A@b.lu")
        (codes "secret")
        20
        registered.accounts).0
      ≡ ok r)
unfolding register text_eq wrapped_at is_id_taken registrant lower is_owner_taken
login-register_example =
    login-register vault provisioning primitives lockout 10 20 submission platform registered
      registered_user vault_laws refl

register-Receives_example :
    Receipts vault provisioning 10 submission platform registered_user registered
unfolding register text_eq wrapped_at is_id_taken registrant lower is_owner_taken
register-Receives_example =
    register-Receives vault provisioning 10 submission platform registered registered_user
      vault_laws refl

abbrev hasty : RegistrationSubmission
hasty = record submission { statement_responses = terms_answer ∷ terms_answer ∷ [] }

register_twice_example :
    register vault provisioning 10 hasty platform ≡ (err integrity_error, platform)
unfolding consents wrapped_at wrap_key is_id_taken active_acceptance_statements text_eq
    is_owner_taken
register_twice_example =
    register_twice vault provisioning 10 hasty platform
      (record { ciphertext = 1 ∷ 1 ∷ 0 ∷ []; nonce = vault.nonce_at 0; master_key_version = 1 })
      (record { ciphertext = 1 ∷ 1 ∷ 1 ∷ []; nonce = vault.nonce_at 1; master_key_version = 1 })
      terms_answer refl refl refl refl refl refl (omega arith)
