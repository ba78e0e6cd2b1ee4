-- ===== src/Auth/Consents.antt =====
-- Statements, answers and receipts (domains/statements/models.py and schemas.py), with the check of
-- consent of `register` in domains/auth/service.py.
use testing_platform_backend.Prelude.{
  Bool, List, Option, all, any, false, is_some, keep, leb, not, true, ℕ, ◌&&◌,
}
use testing_platform_backend.Text.{text_eq}

pub data StatementResponseKind : Type 0 where
  acceptance attestation : StatementResponseKind

pub record Statement : Type 0 where
  pub id : ℕ
  pub statement_key : List ℕ
  pub version : List ℕ
  pub response_kind : StatementResponseKind
  pub required_context_type : Option (List ℕ)
  pub effective_at : ℕ
  pub retired_at : Option ℕ

-- a receipt without a context, as registration writes it
pub record StatementResponse : Type 0 where
  pub organization_id : ℕ
  pub statement_id : ℕ
  pub envelope_id : ℕ
  pub responded_at : ℕ
  pub response_evidence_encrypted : List ℕ
  pub wrapped_dek : List ℕ

-- `StatementResponseSubmission`
pub record StatementAnswer : Type 0 where
  pub answered_key : List ℕ
  pub answered_version : List ℕ

abbrev pub is_acceptance : StatementResponseKind → Bool
is_acceptance acceptance = true
is_acceptance attestation = false

-- the WHERE clause of `active_acceptance_statements`
abbrev pub is_active : ℕ → Statement → Bool
is_active now s =
    is_acceptance s.response_kind
    && not (is_some s.required_context_type)
    && leb s.effective_at now
    && not (is_some s.retired_at)

-- `active_acceptance_statements`
unfoldable pub active_acceptance_statements : ℕ → List Statement → List Statement
active_acceptance_statements now = keep (is_active now)

-- the pairs of key and version are the same
abbrev pub answers : StatementAnswer → Statement → Bool
answers a s = text_eq s.statement_key a.answered_key && text_eq s.version a.answered_version

-- a required statement is answered, and an answer is to a required statement
abbrev pub has_answer : List StatementAnswer → Statement → Bool
has_answer given s = any (λ a. answers a s) given

abbrev pub is_required : List Statement → StatementAnswer → Bool
is_required required a = any (answers a) required

-- neither `missing` nor `unknown`
unfoldable pub consents : List Statement → List StatementAnswer → Bool
consents required given = all (has_answer given) required && all (is_required required) given
