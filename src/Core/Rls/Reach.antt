-- ===== src/Core/Rls/Reach.antt =====
-- Which rows a session under the tenant policies reaches.
use testing_platform_backend.Core.Rls.{
  Context, app, no_context, reaches, set_guest_job_context, set_org_context, set_user_context,
}
use testing_platform_backend.Prelude.{Option, arith, false, some, true, ℕ, ◌↔◌, ◌≡◌}

-- Whatever was asserted before in the transaction, an organization context reaches the rows of
-- that organization and no other.
pub reaches-set_org_context :
    (c : Context) (org : ℕ) (user row_org : Option ℕ) (row_job : ℕ)
    → (reaches app (set_org_context org user c) row_org row_job ≡ true) ↔ (row_org ≡ some org)
unfolding reaches set_org_context
reaches-set_org_context c org user row_org row_job = ground arith

-- A guest context reaches the rows of its job and no other, whoever owns them.
reaches-set_guest_job_context :
    (c : Context) (job : ℕ) (row_org : Option ℕ) (row_job : ℕ)
    → (reaches app (set_guest_job_context job c) row_org row_job ≡ true) ↔ (row_job ≡ job)
unfolding reaches set_guest_job_context
reaches-set_guest_job_context c job row_org row_job = ground arith

-- A user context, and a transaction in which no context was asserted, reach no row at all.
reaches-no_context :
    (c : Context) (u : ℕ) (row_org : Option ℕ) (row_job : ℕ)
    → (reaches app (set_user_context u c) row_org row_job ≡ false)
      × (reaches app no_context row_org row_job ≡ false)
unfolding reaches set_user_context
reaches-no_context c u row_org row_job = ground arith
