-- ===== src/Billing/Db.antt =====
-- The database of the billing services, and what they take from the framework and the runtime.
use kigali_pack.Base.{ℕ, ◌<◌, ◌≤◌, Bool, String}
use kigali_pack.Orm.{Repository}
use kigali_pack.Data.{
  member_key, api_key_key, plan_key, subscription_key, invoice_key, payment_request_key,
  audit_log_key, notification_key,
}

-- The repositories that the services are given.
pub record Orm : Type 1 where
  pub members : Repository member_key
  pub api_keys : Repository api_key_key
  pub plans : Repository plan_key
  pub subscriptions : Repository subscription_key
  pub invoices : Repository invoice_key
  pub payment_requests : Repository payment_request_key
  pub audit_logs : Repository audit_log_key
  pub notifications : Repository notification_key

pub record Db (orm : Orm) : Type 0 where
  pub members : orm.members.Rows
  pub api_keys : orm.api_keys.Rows
  pub plans : orm.plans.Rows
  pub subscriptions : orm.subscriptions.Rows
  pub invoices : orm.invoices.Rows
  pub payment_requests : orm.payment_requests.Rows
  pub audit_logs : orm.audit_logs.Rows
  pub notifications : orm.notifications.Rows

-- A whole number, over the native natural numbers: `negsuc n` is - (1 + n).
pub data ℤ : Type 0 where
  pos negsuc : ℕ → ℤ

-- Calendar arithmetic of `Date` in the server's time zone, and the case mapping of texts. A month
-- later is later, and days forwards do not take a time back; what days backwards do is left open.
-- `setDate` cuts a fraction of a day off. Times before 1970 are not represented.
pub record Runtime : Type 0 where
  pub add_month : ℕ → ℕ
  pub add_days : ℤ → ℕ → ℕ
  pub to_upper : String → String
  pub trim_is_empty : String → Bool
  pub add_month_later : (t : ℕ) → t < add_month t
  pub add_days_later : (d t : ℕ) → t ≤ add_days (pos d) t
