-- ===== src/Core/Rls.antt =====
-- core/rls.py and the tenant policies of migration 0d5679b5500d: the three settings that the row
-- policies read, and the rows that a session reaches.
pub mod Reach
use testing_platform_backend.Prelude.{Bool, Option, false, none, some, true, ℕ, ◌==◌, ◌||◌}

-- A setting: never set in this transaction, set to the empty string, or set to an id.
pub data Guc : Type 0 where
  unset cleared : Guc
  asserted : ℕ → Guc

pub record Context : Type 0 where
  pub org : Guc
  pub user : Guc
  pub job : Guc

-- `SET LOCAL` ends with the transaction.
abbrev pub no_context : Context
no_context = record { org = unset; user = unset; job = unset }

-- `"" if value is None else str(value)`
abbrev guc : Option ℕ → Guc
guc none = cleared
guc (some u) = asserted u

-- `_set_all`: the three settings in one statement, whatever they were
unfoldable pub set_all : Option ℕ → Option ℕ → Option ℕ → Context → Context
set_all o u j previous = record { org = guc o; user = guc u; job = guc j }

-- The types of the ids exclude the `None` that the three helpers refuse.
unfoldable pub set_org_context : ℕ → Option ℕ → Context → Context
unfolding set_all
set_org_context org_id user_id = set_all (some org_id) user_id none

unfoldable pub set_user_context : ℕ → Context → Context
unfolding set_all
set_user_context user_id = set_all none (some user_id) none

unfoldable pub set_guest_job_context : ℕ → Context → Context
unfolding set_all
set_guest_job_context job_id = set_all none none (some job_id)

-- `NULLIF(current_setting(name, true), '')::uuid`
abbrev pub current : Guc → Option ℕ
current unset = none
current cleared = none
current (asserted u) = some u

-- SQL's `=`, which a NULL on either side fails
abbrev pub sql_eq : Option ℕ → Option ℕ → Bool
sql_eq (some a) (some b) = a == b
sql_eq _ _ = false

-- the roles `nc3_app`, under the tenant policies, and `app_platform`, whose duty policies read no
-- setting
pub data Role : Type 0 where
  app platform : Role

-- the predicate of `scan_job` and `scan_task`: by the row's organization and by its job
unfoldable pub reaches : Role → Context → Option ℕ → ℕ → Bool
reaches platform c organization_id job_id = true
reaches app c organization_id job_id =
    sql_eq organization_id (current c.org) || sql_eq (some job_id) (current c.job)
