-- ===== src/Payroll/Net.antt =====
-- What calculatePayrollSummary leaves of a salary.
use kigali_pack.Base.{ℕ, ◌+◌, ◌*◌, ◌≤◌, ◌≡◌, refl, arith}
use kigali_pack.Payroll.Brackets.{paye_tenths}
use kigali_pack.Payroll.Tax.{paye_tenths_slope}
use kigali_pack.Payroll.Deductions.{
  calculate_rssb, calculate_payroll_summary, compute_rra_tax_brackets,
}

paye_tenths_le : (g : ℕ) → paye_tenths g ≤ 3 * g
unfolding paye_tenths
paye_tenths_le g = ground arith

-- The deductions never pass the salary, and with the take-home pay they add up to it.
pub net_take_home-add-total_deductions :
    (g : ℕ)
    → let s = calculate_payroll_summary g in
      (s.total_deductions ≤ g)
      × (s.net_take_home + s.total_deductions ≡ g)
      × (s.total_deductions ≡ s.paye_tax + s.rssb.employee_pension + s.rssb.employee_maternity)
unfolding calculate_payroll_summary
net_take_home-add-total_deductions g = omega (arith, paye_tenths_le g)

-- A raise never lowers the take-home pay by more than the two francs, which the roundings of the
-- tax and of the two contributions can take.
pub net_take_home_growth :
    (g h : ℕ)
    → g ≤ h
    → (calculate_payroll_summary g).net_take_home ≤ (calculate_payroll_summary h).net_take_home + 2
unfolding calculate_payroll_summary
net_take_home_growth g h le =
    omega (arith, paye_tenths_slope g h le, paye_tenths_le g, paye_tenths_le h)

-- The employer's and the employee's maternity contributions are equal, and the pension of the
-- employer is never below that of the employee.
pub calculate_rssb_shares :
    (g : ℕ)
    → let r = calculate_rssb g in
      (r.employee_maternity ≡ r.employer_maternity)
      × (r.employee_pension ≤ r.employer_pension)
      × (r.total_employee_deduction ≤ r.total_employer_contribution)
      × (r.total_employer_contribution ≤ g)
unfolding calculate_rssb
calculate_rssb_shares g = omega arith

-- For a salary of whole francs the tax endpoint and the payroll summary agree: they report the same
-- tax, what the tax endpoint leaves of the salary and the tax add up to the salary, and the
-- take-home pay is that less the contributions.
pub compute_rra_tax_brackets-calculate_payroll_summary :
    (g : ℕ)
    → let b = compute_rra_tax_brackets g in
      let s = calculate_payroll_summary g in
      (b.paye_progressive_tax ≡ s.paye_tax)
      × (b.net_take_home_after_paye + b.paye_progressive_tax ≡ g)
      × (b.net_take_home_after_paye ≡ s.net_take_home + s.employee_rssb)
unfolding compute_rra_tax_brackets calculate_payroll_summary
compute_rra_tax_brackets-calculate_payroll_summary g =
    (refl, omega (arith, paye_tenths_le g), omega (arith, paye_tenths_le g))
