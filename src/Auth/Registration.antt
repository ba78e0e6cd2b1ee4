-- ===== src/Auth/Registration.antt =====
-- `register` of domains/auth/service.py: the rows of a new workspace, and the receipts of the
-- consent. One transaction: what it returns or raises, and the committed tables.
pub mod Consent
pub mod Entrance
pub mod Twice
pub mod Signed
pub mod Receipts
use testing_platform_backend.Assets.Tables.{Organization}
use testing_platform_backend.Auth.Accounts.{
  Accounts, AppUser, KeyEnvelope, UserCredential, has_email, has_id, is_credential_of,
  is_envelope_of,
}
use testing_platform_backend.Auth.Consents.{
  Statement, StatementAnswer, StatementResponse, active_acceptance_statements, answers, consents,
}
use testing_platform_backend.Auth.Login.{Vault, encrypt_password, envelope_aad}
use testing_platform_backend.Core.Crypto.{CryptoError, WrappedKey, encrypt, wrap_key}
use testing_platform_backend.Core.Enums.{organization_admin}
use testing_platform_backend.Examples.Access.{address}
use testing_platform_backend.Modules.Namespaced.{codes}
use testing_platform_backend.Prelude.{
  Bool, List, Option, Result, [], any, err, find, if◌then◌else◌, is_some, length, none, not, ok,
  some, ℕ, ◌&&◌, ◌*◌, ◌++◌, ◌+◌, ◌==◌, ◌||◌, ◌∷◌,
}
use testing_platform_backend.Text.{lower}

-- `RegistrationSubmission`, with the client of the request
pub record RegistrationSubmission : Type 0 where
  pub email : List ℕ
  pub password : List ℕ
  pub statement_responses : List StatementAnswer
  pub client_ip : List ℕ
  pub user_agent : List ℕ

pub record Platform : Type 0 where
  pub accounts : Accounts
  pub organizations : List Organization
  pub statements : List Statement
  pub responses : List StatementResponse

-- What `uuid7` and `generate_key` draw, by how much was drawn, the version of the master key, and the
-- JSON text of the evidence for an address, a client and its agent.
pub record Provisioning : Type 0 where
  pub uuid_at : ℕ → ℕ
  pub key_at : ℕ → List ℕ
  pub app_encryption_master_key_version : ℕ
  pub evidence_json : List ℕ → List ℕ → List ℕ → List ℕ

-- `integrity_error` is a refusal of any other unique index, which nothing handles.
pub data RegistrationError : Type 0 where
  consent_missing email_taken integrity_error : RegistrationError
  wrapping_failed : CryptoError → RegistrationError

abbrev pub evidence_aad : List ℕ
evidence_aad = 3 ∷ []

abbrev pub dek_aad : List ℕ
dek_aad = 4 ∷ []

-- `uq_statement_response_account_level`
abbrev pub is_receipt : ℕ → ℕ → StatementResponse → Bool
is_receipt statement_id envelope_id r =
    r.statement_id == statement_id && r.envelope_id == envelope_id

-- what the receipts of one registration share
pub record Signing : Type 0 where
  pub organization_id : ℕ
  pub envelope_id : ℕ
  pub now : ℕ
  pub evidence : List ℕ
  pub user_kek : List ℕ

module _ (v : Vault) (x : Provisioning) where
  abbrev pub receipt : Signing → ℕ → Statement → StatementResponse
  receipt g draw s = record {
    organization_id = g.organization_id;
    statement_id = s.id;
    envelope_id = g.envelope_id;
    responded_at = g.now;
    response_evidence_encrypted =
        encrypt v.aead (v.nonce_at draw) g.evidence (x.key_at draw) evidence_aad;
    wrapped_dek = encrypt v.aead (v.nonce_at (draw + 1)) (x.key_at draw) g.user_kek dek_aad;
  }

  -- the loop over the answers; `none` is an error of the index or of a missing key
  unfoldable pub add_receipts :
      Signing
      → ℕ
      → List Statement
      → List StatementAnswer
      → List StatementResponse
      → Option (List StatementResponse)
  unfolding encrypt
  add_receipts g draw required [] rows = some rows
  add_receipts g draw required (a ∷ given) rows = elim (find (answers a) required) [
    | none ↦ none
    | some s ↦
        if any (is_receipt s.id g.envelope_id) rows
        then none
        else add_receipts g (draw + 2) required given (rows ++ (receipt g draw s ∷ []))
  ]

  abbrev pub organization_row : ℕ → Organization
  organization_row id = record { id = id; name = codes "Workspace"; named_at = none }

  unfoldable pub registrant : ℕ → ℕ → List ℕ → AppUser
  registrant id organization_id address = record {
    id = id;
    organization_id = organization_id;
    email = lower address;
    disabled_at = none;
    organization_role = organization_admin;
  }

  abbrev pub envelope_row : ℕ → ℕ → Option ℕ → WrappedKey → KeyEnvelope
  envelope_row id organization_id user w = record {
    id = id;
    organization_id = organization_id;
    user_id = user;
    wrapped_kek = w.ciphertext;
    wrapping_nonce = w.nonce;
    master_key_version = w.master_key_version;
  }

  abbrev pub credential_row : ℕ → ℕ → ℕ → List ℕ → List ℕ → UserCredential
  credential_row user draw now password user_kek = record {
    user_id = user;
    password_ciphertext = encrypt_password v draw password user_kek;
    failed_login_count = 0;
    locked_until = none;
    password_updated_at = now;
  }

  -- an envelope of the organization itself
  abbrev pub is_organization_envelope : ℕ → KeyEnvelope → Bool
  is_organization_envelope organization_id e =
      e.organization_id == organization_id && not (is_some e.user_id)

  -- the primary keys of the organization and of the user, which are drawn
  unfoldable pub is_id_taken : ℕ → ℕ → Platform → Bool
  is_id_taken organization_id user db =
      any (λ (o : Organization). o.id == organization_id) db.organizations
      || any (has_id user) db.accounts.users

  -- the unique indexes of the rows that refer to them
  unfoldable pub is_owner_taken : ℕ → ℕ → Platform → Bool
  is_owner_taken organization_id user db =
      any (is_organization_envelope organization_id) db.accounts.envelopes
      || any (is_envelope_of user) db.accounts.envelopes
      || any (is_credential_of user) db.accounts.credentials

  -- the tables with the organization, its user, and the keys of both
  unfoldable pub provisioned :
      ℕ
      → RegistrationSubmission
      → WrappedKey
      → WrappedKey
      → List StatementResponse
      → Platform
      → Platform
  provisioned now submission org_wrapped user_wrapped responses db =
      let d = db.accounts.auth.drawn in
      let org_id = x.uuid_at d in
      let user_id = x.uuid_at (d + 1) in
      record db {
        organizations = db.organizations ++ (organization_row org_id ∷ []);
        responses = responses;
        accounts = record db.accounts {
          users = db.accounts.users ++ (registrant user_id org_id submission.email ∷ []);
          envelopes =
              db.accounts.envelopes
              ++ (envelope_row (x.uuid_at (d + 2)) org_id none org_wrapped
                  ∷ envelope_row (x.uuid_at (d + 3)) org_id (some user_id) user_wrapped
                  ∷ []);
          credentials =
              db.accounts.credentials
              ++ (credential_row user_id (d + 2) now submission.password (x.key_at (d + 1)) ∷ []);
          auth = record db.accounts.auth {
            drawn = d + 4 + 2 * length submission.statement_responses;
          };
        };
      }

  unfoldable pub signing : ℕ → RegistrationSubmission → Platform → Signing
  signing now submission db =
      let d = db.accounts.auth.drawn in
      record {
        organization_id = x.uuid_at d;
        envelope_id = x.uuid_at (d + 3);
        now = now;
        evidence =
            x.evidence_json (lower submission.email) submission.client_ip submission.user_agent;
        user_kek = x.key_at (d + 1);
      }

  -- the inserts of `register`, once both keys are wrapped
  unfoldable pub provision :
      ℕ
      → RegistrationSubmission
      → WrappedKey
      → WrappedKey
      → Platform
      → Result RegistrationError AppUser × Platform
  unfolding add_receipts active_acceptance_statements
  provision now submission org_wrapped user_wrapped db =
      let d = db.accounts.auth.drawn in
      if is_id_taken (x.uuid_at d) (x.uuid_at (d + 1)) db
      then (err integrity_error, db)
      else if any (has_email (lower submission.email)) db.accounts.users
      then (err email_taken, db)
      else if is_owner_taken (x.uuid_at d) (x.uuid_at (d + 1)) db
      then (err integrity_error, db)
      else elim (add_receipts (signing now submission db) (d + 4)
          (active_acceptance_statements now db.statements) submission.statement_responses
          db.responses) [
            | none ↦ (err integrity_error, db)
            | some responses ↦ (
              ok (registrant (x.uuid_at (d + 1)) (x.uuid_at d) submission.email),
              provisioned now submission org_wrapped user_wrapped responses db,
            )
          ]

  unfoldable pub wrapped_at : ℕ → ℕ → Result CryptoError WrappedKey
  wrapped_at draw nonce =
      wrap_key v.aead v.app_encryption_master_key x.app_encryption_master_key_version
        (v.nonce_at nonce) (x.key_at draw) envelope_aad

  -- `register`
  unfoldable pub register :
      ℕ → RegistrationSubmission → Platform → Result RegistrationError AppUser × Platform
  unfolding consents active_acceptance_statements wrap_key provision
  register now submission db =
      let d = db.accounts.auth.drawn in
      if not
        (consents (active_acceptance_statements now db.statements) submission.statement_responses)
      then (err consent_missing, db)
      else elim (wrapped_at d d) [
        | err e ↦ (err (wrapping_failed e), db)
        | ok org_wrapped ↦ elim (wrapped_at (d + 1) (d + 1)) [
          | err e ↦ (err (wrapping_failed e), db)
          | ok user_wrapped ↦ provision now submission org_wrapped user_wrapped db
        ]
      ]
