-- ===== src/Modules/Runners/Clamps.antt =====
-- Whatever the options of a launch hold, the run of the engine is admitted and ends.
use testing_platform_backend.Modules.Execution.{Ran, Round, run_engine}
use testing_platform_backend.Modules.Execution.Loop.{Finished, Stalls, run_engine-ends}
use testing_platform_backend.Modules.Runners.{
  RawOption, clamp_dnssec_budget, or_default, raw_bool, raw_negative, raw_not_finite, raw_number,
  raw_refused,
}
use testing_platform_backend.Prelude.{
  Bool-cases, arith, false, inl, inr, none, ok, some, suc, true, ℕ, ◌*◌, ◌+◌, ◌<◌, ◌==◌, ◌≡◌, ◌≤◌,
  ◌⊎◌,
}

or_default-bounds :
    (default_budget max_budget value : ℕ)
    → 0 < default_budget
    → default_budget ≤ max_budget
    → (0 < or_default default_budget max_budget value)
      × (or_default default_budget max_budget value ≤ max_budget)
or_default-bounds default_budget max_budget value h k = elim (Bool-cases (value == 0)) [
  | inl y ↦ rw y (h, k)
  | inr n ↦ let positive : 0 < value = ground arith in rw n (omega (arith, positive), omega arith)
]

clamp_dnssec_budget-bounds :
    (raw : RawOption) → (0 < clamp_dnssec_budget raw) × (clamp_dnssec_budget raw ≤ 120000)
unfolding clamp_dnssec_budget
clamp_dnssec_budget-bounds (raw_bool true) =
    or_default-bounds 60000 120000 1000 (omega arith) (omega arith)
clamp_dnssec_budget-bounds (raw_bool false) =
    or_default-bounds 60000 120000 0 (omega arith) (omega arith)
clamp_dnssec_budget-bounds (raw_number n thousandths) =
    or_default-bounds 60000 120000 (1000 * n + thousandths) (omega arith) (omega arith)
clamp_dnssec_budget-bounds raw_negative = (omega arith, omega arith)
clamp_dnssec_budget-bounds raw_not_finite = (omega arith, omega arith)
clamp_dnssec_budget-bounds raw_refused = (omega arith, omega arith)

-- With the budget that the DNSSEC runner makes of any option, a run of the engine is admitted, and
-- ends by the first round in which the clock reads two minutes after its start, unless a message
-- stalls.
run_engine-clamp_dnssec_budget :
    (raw : RawOption) (started j : ℕ) (rounds : ℕ → Round) (fuel : ℕ)
    → started + 120000 ≤ (rounds j).now
    → ((r : Ran) × (run_engine (suc j) (clamp_dnssec_budget raw) started rounds ≡ ok (some r))
        × Finished (started + clamp_dnssec_budget raw) rounds j r.finish)
      ⊎ (Stalls (started + clamp_dnssec_budget raw) rounds j
          × (run_engine fuel (clamp_dnssec_budget raw) started rounds ≡ ok none))
run_engine-clamp_dnssec_budget raw started j rounds fuel late =
    let (positive, most) = clamp_dnssec_budget-bounds raw in
    run_engine-ends (clamp_dnssec_budget raw) started j rounds fuel positive (omega (arith, most))
