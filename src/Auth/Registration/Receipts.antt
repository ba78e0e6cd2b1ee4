-- ===== src/Auth/Registration/Receipts.antt =====
-- The receipts of a registration.
use testing_platform_backend.Auth.Accounts.{Accounts, AppUser, KeyEnvelope, user_envelope}
use testing_platform_backend.Auth.Consents.{
  Statement, StatementResponse, active_acceptance_statements, answers, consents, has_answer,
  is_required,
}
use testing_platform_backend.Auth.Login.{Vault, envelope_aad, unwrap_user_kek}
use testing_platform_backend.Auth.Login.Rotation.{VaultLaws}
use testing_platform_backend.Auth.Registration.{
  Platform, Provisioning, RegistrationSubmission, dek_aad, envelope_row, evidence_aad, provisioned,
  register, registrant, signing, wrapped_at,
}
use testing_platform_backend.Auth.Registration.Consent.{Registered, register-Registered}
use testing_platform_backend.Auth.Registration.Entrance.{provisioned-found}
use testing_platform_backend.Auth.Registration.Signed.{add_receipts-Signs, answer_to, answered_same}
use testing_platform_backend.Core.Crypto.{WrappedKey, decrypt, wrap_key}
use testing_platform_backend.Core.Crypto.Opening.{unwrap_key-wrap_key}
use testing_platform_backend.Prelude.{
  All, All-map, Bool, List, Some, all, all-All, arith, find, ok, refl, some, subst, sym, true, ℕ,
  ◌&&◌, ◌+◌, ◌≡◌,
}

module _ (v : Vault) (x : Provisioning) where
  -- The row is the receipt of the user for the statement, under that envelope: its key is unwrapped
  -- with that key of the user, and opens the evidence of the submission.
  abbrev pub Receives :
      ℕ
      → RegistrationSubmission
      → AppUser
      → KeyEnvelope
      → List ℕ
      → Statement
      → StatementResponse
      → Type 0
  Receives now submission u e kek s r =
      (r.statement_id ≡ s.id)
      × (r.envelope_id ≡ e.id)
      × (r.organization_id ≡ u.organization_id)
      × (r.responded_at ≡ now)
      × ((dek : List ℕ) × (decrypt v.aead r.wrapped_dek kek dek_aad ≡ ok dek)
          × (decrypt v.aead r.response_evidence_encrypted dek evidence_aad
              ≡ ok (x.evidence_json u.email submission.client_ip submission.user_agent)))

  -- what a registration leaves behind for the statements that were active
  abbrev pub Receipts : ℕ → RegistrationSubmission → Platform → AppUser → Platform → Type 0
  Receipts now submission db u after =
      (e : KeyEnvelope) × (kek : List ℕ) × (user_envelope u.id after.accounts ≡ some e)
      × (unwrap_user_kek v u.id after.accounts ≡ ok kek)
      × All
          (λ s.
            (t : Statement) × (find (answers (answer_to s))
                (active_acceptance_statements now db.statements)
              ≡ some t)
            × Some (Receives now submission u e kek t) after.responses)
          (active_acceptance_statements now db.statements)

  user_kek_opens :
      (user draw : ℕ) (kek : List ℕ) (w : WrappedKey) (e : KeyEnvelope) (db : Accounts)
      → VaultLaws v
      → user_envelope user db ≡ some e
      → (e.wrapped_kek ≡ w.ciphertext) × (e.wrapping_nonce ≡ w.nonce)
      → wrap_key v.aead v.app_encryption_master_key x.app_encryption_master_key_version
          (v.nonce_at draw)
          kek
          envelope_aad
        ≡ ok w
      → unwrap_user_kek v user db ≡ ok kek
  unfolding unwrap_user_kek
  user_kek_opens user draw kek w e db laws found same wrapped =
      let opens =
        unwrap_key-wrap_key v.aead laws.aead_laws v.app_encryption_master_key
          x.app_encryption_master_key_version (v.nonce_at draw) kek envelope_aad w wrapped in
      rw (unwrap_user_kek, found, same.0, same.1, opens) refl

  provisioned-Receipts :
      (now : ℕ) (submission : RegistrationSubmission) (db after : Platform) (u : AppUser)
      (g : Registered v x now submission db after u)
      → VaultLaws v
      → Receipts now submission db
          (registrant v x
            (x.uuid_at (db.accounts.auth.drawn + 1))
            (x.uuid_at db.accounts.auth.drawn)
            submission.email)
          (provisioned v x now submission g.org_wrapped g.user_wrapped g.rows db)
  unfolding consents provisioned registrant signing wrapped_at
  provisioned-Receipts now submission db after u g laws =
      let d : ℕ = db.accounts.auth.drawn in
      let user : ℕ = x.uuid_at (d + 1) in
      let kek : List ℕ = x.key_at (d + 1) in
      let e : KeyEnvelope =
        envelope_row v x (x.uuid_at (d + 3)) (x.uuid_at d) (some user) g.user_wrapped in
      let final : Platform =
        provisioned v x now submission g.org_wrapped g.user_wrapped g.rows db in
      let (found, credential, there, envelope) =
        provisioned-found v x now submission db after u g in
      let active : List Statement = active_acceptance_statements now db.statements in
      let passed : all (has_answer submission.statement_responses) active ≡ true =
        both_pass (all (has_answer submission.statement_responses) active)
          (all (is_required active) submission.statement_responses) g.consented in
      (
        e,
        kek,
        envelope,
        user_kek_opens user (d + 1) kek g.user_wrapped e final.accounts laws envelope (refl, refl)
            g.wraps,
        All-map (λ s. has_answer submission.statement_responses s ≡ true) _ active
            (λ s k.
              add_receipts-Signs v x (signing v x now submission db) (d + 4) active
                submission.statement_responses db.responses g.rows (answer_to s) laws g.receipts
                (answered_same s submission.statement_responses k))
            (all-All (has_answer submission.statement_responses) active passed),
      )
    where
      both_pass : (a b : Bool) → (a && b) ≡ true → a ≡ true
      both_pass a b q = ground arith

  -- After a registration that succeeds, the tables hold an envelope of the new user that unwraps to a
  -- key, and every acceptance statement that was active has a receipt there under that envelope: of
  -- the user's organization and of that instant, for the active statement of that key and version,
  -- with a data key that the key of the user unwraps and that opens the evidence of the submission.
  pub register-Receives :
      (now : ℕ) (submission : RegistrationSubmission) (db after : Platform) (u : AppUser)
      → VaultLaws v
      → register v x now submission db ≡ (ok u, after)
      → Receipts now submission db u after
  register-Receives now submission db after u laws h =
      let g = register-Registered v x now submission db after u h in
      subst (λ (t : Platform). Receipts now submission db u t) (sym g.written)
        (subst
          (λ (w : AppUser).
            Receipts now submission db w
              (provisioned v x now submission g.org_wrapped g.user_wrapped g.rows db))
          (sym g.returned) (provisioned-Receipts now submission db after u g laws))
