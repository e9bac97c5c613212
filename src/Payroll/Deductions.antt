-- ===== src/Payroll/Deductions.antt =====
-- calculateRssb, calculatePayrollSummary and computeRraTaxBrackets.
use kigali_pack.Base.{ℕ, ◌+◌, ◌-◌, ◌*◌}
use kigali_pack.Payroll.Brackets.{round_div, PayeResult, calculate_paye}

pub record RssbBreakdown : Type 0 where
  pub gross_salary : ℕ
  pub employee_pension : ℕ
  pub employer_pension : ℕ
  pub employee_maternity : ℕ
  pub employer_maternity : ℕ
  pub total_employee_deduction : ℕ
  pub total_employer_contribution : ℕ

unfoldable pub calculate_rssb : ℕ → RssbBreakdown
calculate_rssb gross =
    let employee_pension = round_div (gross * 3) 100 in
    let employer_pension = round_div (gross * 5) 100 in
    let employee_maternity = round_div (gross * 3) 1000 in
    let employer_maternity = round_div (gross * 3) 1000 in
    record {
      gross_salary = gross;
      employee_pension = employee_pension;
      employer_pension = employer_pension;
      employee_maternity = employee_maternity;
      employer_maternity = employer_maternity;
      total_employee_deduction = employee_pension + employee_maternity;
      total_employer_contribution = employer_pension + employer_maternity;
    }

pub record PayrollSummary : Type 0 where
  pub gross_salary : ℕ
  pub paye_tax : ℕ
  pub employee_rssb : ℕ
  pub employer_rssb : ℕ
  pub total_deductions : ℕ
  pub net_take_home : ℕ
  pub paye : PayeResult
  pub rssb : RssbBreakdown

-- The subtraction is the source's, for the deductions never pass the salary (Payroll/Net).
unfoldable pub calculate_payroll_summary : ℕ → PayrollSummary
unfolding calculate_rssb calculate_paye
calculate_payroll_summary gross =
    let paye = calculate_paye gross in
    let rssb = calculate_rssb gross in
    let total_deductions = paye.paye_tax + rssb.total_employee_deduction in
    record {
      gross_salary = gross;
      paye_tax = paye.paye_tax;
      employee_rssb = rssb.total_employee_deduction;
      employer_rssb = rssb.total_employer_contribution;
      total_deductions = total_deductions;
      net_take_home = gross - total_deductions;
      paye = paye;
      rssb = rssb;
    }

pub record TaxBreakdown : Type 0 where
  pub input_gross_salary : ℕ
  pub paye_progressive_tax : ℕ
  pub standard_vat_eighteen_percent : ℕ
  pub net_take_home_after_paye : ℕ

unfoldable pub compute_rra_tax_brackets : ℕ → TaxBreakdown
unfolding calculate_paye
compute_rra_tax_brackets gross =
    let paye = calculate_paye gross in
    record {
      input_gross_salary = gross;
      paye_progressive_tax = paye.paye_tax;
      standard_vat_eighteen_percent = round_div (gross * 18) 100;
      net_take_home_after_paye = round_div (gross - paye.paye_tax) 1;
    }
