-- ===== src/Worker/Db.antt =====
-- The tables that the pipeline works on, and what one transaction selects under its role and its
-- context (worker/db.py, core/rls.py).
use testing_platform_backend.Core.Enums.{FindingStatus}
use testing_platform_backend.Core.Rls.{
  Context, Role, no_context, reaches, set_guest_job_context, set_org_context,
}
use testing_platform_backend.Modules.Findings.{Text}
use testing_platform_backend.Modules.Rows.{FindingRow, ScanResultRow}
use testing_platform_backend.Prelude.{Bool, List, Option, String, none, some, ℕ, ◌&&◌, ◌==◌}
use testing_platform_backend.Worker.Models.{ScanJob, ScanTask}

-- What the program takes from other packages: the ids that `uuid7()` draws, `json.dumps` of a list
-- of texts, and `instant + relativedelta(months=12)`.
pub record External : Type 0 where
  pub uuid7 : ℕ → ℕ
  pub dumps : List Text → Text
  pub twelve_months_after : ℕ → ℕ

pub record AssetRow : Type 0 where
  pub id : ℕ
  pub organization_id : Option ℕ
  pub value : String

pub record UploadRow : Type 0 where
  pub id : ℕ
  pub organization_id : Option ℕ
  pub storage_key : Option String

pub record StoredResult : Type 0 where
  pub id : ℕ
  pub row : ScanResultRow

pub record StoredFinding : Type 0 where
  pub id : ℕ
  pub status : FindingStatus
  pub row : FindingRow

-- `drawn` counts the ids drawn so far.
pub record Db : Type 0 where
  pub jobs : List ScanJob
  pub tasks : List ScanTask
  pub results : List StoredResult
  pub findings : List StoredFinding
  pub assets : List AssetRow
  pub uploads : List UploadRow
  pub drawn : ℕ

-- The role of the connection and the context of the transaction.
pub record Session : Type 0 where
  pub role : Role
  pub context : Context

-- `_set_hint_context` at the start of a transaction
unfoldable pub hint_session : Role → Option ℕ → Option ℕ → Session
unfolding set_org_context set_guest_job_context
hint_session role (some org) job = record {
  role = role;
  context = set_org_context org none no_context;
}
hint_session role none (some job) = record {
  role = role;
  context = set_guest_job_context job no_context;
}
hint_session role none none = record { role = role; context = no_context }

module _ (s : Session) where
  abbrev pub sees_job : ScanJob → Bool
  sees_job j = reaches s.role s.context j.organization_id j.id

  abbrev pub sees_task : ScanTask → Bool
  sees_task t = reaches s.role s.context t.organization_id t.scan_job_id

  -- `SELECT … FROM scan_job WHERE id = …`
  abbrev pub is_job : ℕ → ScanJob → Bool
  is_job id j = j.id == id && sees_job j

  -- `SELECT … FROM scan_task WHERE id = …`
  abbrev pub is_task : ℕ → ScanTask → Bool
  is_task id t = t.id == id && sees_task t

  -- `SELECT … FROM scan_task WHERE scan_job_id = …`
  abbrev pub is_child : ℕ → ScanTask → Bool
  is_child job_id t = t.scan_job_id == job_id && sees_task t
