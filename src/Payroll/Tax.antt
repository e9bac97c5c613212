-- ===== src/Payroll/Tax.antt =====
-- What calculatePaye computes: the tax of the published brackets, growing with the salary.
use kigali_pack.Base.{
  ℕ, ◌+◌, ◌-◌, ◌*◌, ◌≤◌, ◌≡◌, Bool, true, ◌&&◌, Option, none, some, List, [], ◌∷◌, arith, leb,
  if◌then◌else◌,
}
use kigali_pack.Payroll.Brackets.{
  round_div, paye_tenths, calculate_paye, PayeLayer, rra_paye_progressive_layers,
}

abbrev up_to : ℕ → Option ℕ → Bool
up_to gross none = true
up_to gross (some hi) = leb gross hi

abbrev in_layer : ℕ → PayeLayer → Bool
in_layer gross l = leb l.min_gross_salary_rwf gross && up_to gross l.max_gross_salary_rwf

-- The published formula of the layer that holds a salary: the base tax of the layer, and the
-- marginal rate on what lies above the layer's lower end. The first layer begins at 0, each later
-- one a franc above the end of the layer before it.
abbrev pub layered_tax : List PayeLayer → ℕ → ℕ
layered_tax [] gross = 0
layered_tax (l ∷ ls) gross =
    if in_layer gross l
    then l.cumulative_base_tax_rwf * 10 + (gross - (l.min_gross_salary_rwf - 1)) * l.marginal_rate
    else layered_tax ls gross

-- The computed tax is that of the published bracket table, rounded to whole francs.
pub calculate_paye-layers :
    (gross : ℕ)
    → (calculate_paye gross).paye_tax ≡ round_div (layered_tax rra_paye_progressive_layers gross) 10
unfolding calculate_paye
calculate_paye-layers gross = ground arith

paye_tenths_mono : (g h : ℕ) → g ≤ h → paye_tenths g ≤ paye_tenths h
unfolding paye_tenths
paye_tenths_mono g h le = ground arith

pub paye_tenths_slope : (g h : ℕ) → g ≤ h → paye_tenths h ≤ paye_tenths g + 3 * (h - g)
unfolding paye_tenths
paye_tenths_slope g h le = ground arith

-- A higher salary never pays less tax, and the tax grows by at most three tenths of the raise,
-- rounded up to a franc.
pub calculate_paye_growth :
    (g h : ℕ)
    → g ≤ h
    → let tax = λ (s : ℕ). (calculate_paye s).paye_tax in
      (tax g ≤ tax h) × (10 * tax h ≤ 10 * tax g + 3 * (h - g) + 9)
unfolding calculate_paye
calculate_paye_growth g h le = omega (arith, paye_tenths_mono g h le, paye_tenths_slope g h le)
