-- ===== src/Modules/Runners.antt =====
-- modules/dnssec/runner.py and modules/pqc/runner.py: the bounds on the options of a launch. A span
-- is a number of milliseconds; what is finer is left out.
pub mod Clamps
use testing_platform_backend.Prelude.{
  Bool, Option, false, if◌then◌else◌, leb, min, none, some, true, ℕ, ◌&&◌, ◌*◌, ◌+◌, ◌==◌,
}

-- A value of the options, by what `float` makes of it: a boolean, a number of at least zero in units
-- and thousandths, a negative one, one that is not finite, or a refusal.
pub data RawOption : Type 0 where
  raw_bool : Bool → RawOption
  raw_number : ℕ → ℕ → RawOption
  raw_negative raw_not_finite raw_refused : RawOption

abbrev pub or_default : ℕ → ℕ → ℕ → ℕ
or_default default_budget max_budget value =
    if value == 0 then default_budget else min value max_budget

-- `_clamp_budget` of the DNSSEC runner, where a boolean is the number 0 or 1
unfoldable pub clamp_dnssec_budget : RawOption → ℕ
clamp_dnssec_budget (raw_bool true) = or_default 60000 120000 1000
clamp_dnssec_budget (raw_bool false) = or_default 60000 120000 0
clamp_dnssec_budget (raw_number n thousandths) = or_default 60000 120000 (1000 * n + thousandths)
clamp_dnssec_budget raw_negative = 60000
clamp_dnssec_budget raw_not_finite = 60000
clamp_dnssec_budget raw_refused = 60000

-- `_clamp_budget` of the post-quantum runner
unfoldable pub clamp_pqc_budget : RawOption → ℕ
clamp_pqc_budget (raw_number n thousandths) = or_default 30000 60000 (1000 * n + thousandths)
clamp_pqc_budget _ = 30000

-- `_clamp_port`
unfoldable pub clamp_port : RawOption → Option ℕ
clamp_port (raw_number n thousandths) =
    if thousandths == 0 && leb 1 n && leb n 65535 then some n else none
clamp_port _ = none
