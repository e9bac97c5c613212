-- ===== src/Payroll/Brackets.antt =====
-- calculatePaye, and the brackets that the workspace snapshot publishes.
use kigali_pack.Base.{ℕ, ◌+◌, ◌-◌, ◌*◌, ◌/◌, Option, none, some, List, [], ◌∷◌, leb, if◌then◌else◌}

-- `Math.round(n / d)` for natural n.
abbrev pub round_div : ℕ → ℕ → ℕ
round_div n d = (2 * n + d) / (2 * d)

pub record PayeResult : Type 0 where
  pub paye_tax : ℕ

-- The running `payeTax` before it is rounded, in tenths of a franc.
unfoldable pub paye_tenths : ℕ → ℕ
paye_tenths gross_salary =
    if leb gross_salary 60000
    then 0
    else if leb gross_salary 100000
    then (gross_salary - 60000) * 1
    else if leb gross_salary 200000
    then 40000 * 1 + (gross_salary - 100000) * 2
    else 40000 * 1 + 100000 * 2 + (gross_salary - 200000) * 3

unfoldable pub calculate_paye : ℕ → PayeResult
unfolding paye_tenths
calculate_paye gross_salary = record { paye_tax = round_div (paye_tenths gross_salary) 10 }

-- One entry of RRA_PAYE_PROGRESSIVE_LAYERS, without its labels. The rate is in tenths.
pub record PayeLayer : Type 0 where
  pub min_gross_salary_rwf : ℕ
  pub max_gross_salary_rwf : Option ℕ
  pub marginal_rate : ℕ
  pub cumulative_base_tax_rwf : ℕ

abbrev layer : ℕ → Option ℕ → ℕ → ℕ → PayeLayer
layer lo hi rate base = record {
  min_gross_salary_rwf = lo;
  max_gross_salary_rwf = hi;
  marginal_rate = rate;
  cumulative_base_tax_rwf = base;
}

abbrev pub rra_paye_progressive_layers : List PayeLayer
rra_paye_progressive_layers =
    layer 0 (some 60000) 0 0
    ∷ layer 60001 (some 100000) 1 0
    ∷ layer 100001 (some 200000) 2 4000
    ∷ layer 200001 none 3 24000
    ∷ []
