-- ===== src/Providers/Budget.antt =====
-- The budget verdict (imageshield/providers/budget.py). Money is an integer number of micro-dollars:
-- the columns behind it hold at most six decimals, so that every sum here is exact, as in Decimal.
use silver_invention.Prelude.{Option, none, some, Bool, true, false, if◌then◌else◌}
use silver_invention.Prelude.Int.{ℤ, pos, ◌+ℤ◌, ◌-ℤ◌, ltb_ℤ}

-- The texts of `detail`, with the values that the code formats into them.
pub data BudgetDetail : Type 0 where
  no_daily_budget : BudgetDetail
  cost_unknown : ℤ → BudgetDetail
  over_budget : ℤ → ℤ → ℤ → ℤ → BudgetDetail
  headroom_after : ℤ → BudgetDetail

pub record BudgetVerdict : Type 0 where
  pub allowed : Bool
  pub detail : BudgetDetail

unfoldable pub verdict : Option ℤ → Option ℤ → ℤ → BudgetVerdict
verdict cost none spent = record { allowed = true; detail = no_daily_budget }
verdict none (some budget) spent = record { allowed = false; detail = cost_unknown budget }
verdict (some cost) (some budget) spent =
    let projected = spent +ℤ cost in
    if ltb_ℤ budget projected
    then record { allowed = false; detail = over_budget spent cost projected budget }
    else record { allowed = true; detail = headroom_after (budget -ℤ projected) }

-- `max(a, 0)`
abbrev at_least_zero : ℤ → ℤ
at_least_zero a = if ltb_ℤ a (pos 0) then pos 0 else a

unfoldable pub headroom : Option ℤ → ℤ → Option ℤ
headroom none spent = none
headroom (some budget) spent = some (at_least_zero (budget -ℤ spent))
