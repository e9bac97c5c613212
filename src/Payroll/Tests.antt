-- ===== src/Payroll/Tests.antt =====
-- Runs of the payroll calculations.
use kigali_pack.Base.{ℕ, ◌+◌, ◌-◌, ◌*◌, ◌≤◌, ◌≡◌, refl, arith}
use kigali_pack.Payroll.Brackets.{round_div, calculate_paye, rra_paye_progressive_layers}
use kigali_pack.Payroll.Deductions.{calculate_payroll_summary, compute_rra_tax_brackets}
use kigali_pack.Payroll.Tax.{layered_tax, calculate_paye-layers, calculate_paye_growth}
use kigali_pack.Payroll.Net.{
  net_take_home-add-total_deductions, compute_rra_tax_brackets-calculate_payroll_summary,
}

calculate_paye_250000 : (calculate_paye 250000).paye_tax ≡ 39000
unfolding calculate_paye
calculate_paye_250000 = refl

calculate_paye-layers_example :
    (calculate_paye 250000).paye_tax ≡ round_div (layered_tax rra_paye_progressive_layers 250000) 10
calculate_paye-layers_example = calculate_paye-layers 250000

calculate_paye_growth_example :
    let tax = λ (s : ℕ). (calculate_paye s).paye_tax in
    (tax 99995 ≤ tax 100005) × (10 * tax 100005 ≤ 10 * tax 99995 + 3 * (100005 - 99995) + 9)
calculate_paye_growth_example = calculate_paye_growth 99995 100005 (omega arith)

net_take_home-add-total_deductions_example :
    let s = calculate_payroll_summary 250000 in
    (s.total_deductions ≤ 250000)
    × (s.net_take_home + s.total_deductions ≡ 250000)
    × (s.total_deductions ≡ s.paye_tax + s.rssb.employee_pension + s.rssb.employee_maternity)
net_take_home-add-total_deductions_example = net_take_home-add-total_deductions 250000

compute_rra_tax_brackets-calculate_payroll_summary_example :
    let b = compute_rra_tax_brackets 250000 in
    let s = calculate_payroll_summary 250000 in
    (b.paye_progressive_tax ≡ s.paye_tax)
    × (b.net_take_home_after_paye + b.paye_progressive_tax ≡ 250000)
    × (b.net_take_home_after_paye ≡ s.net_take_home + s.employee_rssb)
compute_rra_tax_brackets-calculate_payroll_summary_example =
    compute_rra_tax_brackets-calculate_payroll_summary 250000
