-- ===== src/Data/Billing.antt =====
-- Plans, subscriptions, invoices, payment requests, the audit log and the notifications.
-- Amounts are whole hundredths of a franc, dates are milliseconds.
use kigali_pack.Base.{ℕ, Bool, Option, List, String, refl}
use kigali_pack.Orm.{Keyed}
use kigali_pack.Data.Accounts.{OrganizationRole}

pub record Plan : Type 0 where
  pub id : ℕ
  pub code : String
  pub name : String
  pub description : Option String
  pub price_monthly_rwf : ℕ
  pub rate_limit_per_hour : Option ℕ
  pub features : List String
  pub is_active : Bool

pub data SubscriptionStatus : Type 0 where
  pending active rejected expired cancelled past_due : SubscriptionStatus

pub record Subscription : Type 0 where
  pub id : ℕ
  pub developer_name : String
  pub plan_id : ℕ
  pub status : SubscriptionStatus
  pub current_period_start : ℕ
  pub current_period_end : ℕ
  pub cancelled_at : Option ℕ

pub data InvoiceStatus : Type 0 where
  draft open_invoice paid void : InvoiceStatus

-- `due_date` is the day of that time.
pub record Invoice : Type 0 where
  pub id : ℕ
  pub subscription_id : ℕ
  pub amount_rwf : ℕ
  pub status : InvoiceStatus
  pub due_date : ℕ
  pub paid_at : Option ℕ

pub data PaymentRequestStatus : Type 0 where
  pending approved rejected : PaymentRequestStatus

pub record PaymentRequest : Type 0 where
  pub id : ℕ
  pub user_id : ℕ
  pub user_email : String
  pub subscription_id : Option ℕ
  pub plan_id : Option ℕ
  pub amount : ℕ
  pub status : PaymentRequestStatus
  pub admin_notes : Option String
  pub rejection_reason : Option String
  pub reviewed_by : Option ℕ
  pub reviewed_by_email : Option String
  pub reviewed_at : Option ℕ

pub data AuditAction : Type 0 where
  payment_approved payment_rejected subscription_created subscription_activated : AuditAction
  subscription_cancelled subscription_expired plan_created plan_updated : AuditAction
  plan_disabled plan_deleted user_suspended user_activated user_role_changed : AuditAction
  user_deleted invoice_created invoice_status_changed api_limit_overridden : AuditAction

pub data TargetType : Type 0 where
  payment_request subscription plan user : TargetType

pub record AuditLog : Type 0 where
  pub id : ℕ
  pub action : AuditAction
  pub actor_id : Option ℕ
  pub actor_email : Option String
  pub actor_role : Option OrganizationRole
  pub target_id : Option ℕ
  pub target_email : Option String
  pub target_type : Option TargetType

pub data NotificationType : Type 0 where
  payment_submitted payment_approved payment_rejected subscription_activated : NotificationType
  subscription_expiring subscription_expired plan_changed admin_action : NotificationType

pub record Notification : Type 0 where
  pub id : ℕ
  pub user_id : Option ℕ
  pub user_email : Option String
  pub kind : NotificationType
  pub read : Bool
  pub read_at : Option ℕ

abbrev pub plan_key : Keyed Plan
plan_key = record {
  key = λ e. e.id;
  set_key = λ i e. record e { id = i };
  key-set_key = λ i e. refl;
  set_key-key = λ e. refl;
}

abbrev pub subscription_key : Keyed Subscription
subscription_key = record {
  key = λ e. e.id;
  set_key = λ i e. record e { id = i };
  key-set_key = λ i e. refl;
  set_key-key = λ e. refl;
}

abbrev pub invoice_key : Keyed Invoice
invoice_key = record {
  key = λ e. e.id;
  set_key = λ i e. record e { id = i };
  key-set_key = λ i e. refl;
  set_key-key = λ e. refl;
}

abbrev pub payment_request_key : Keyed PaymentRequest
payment_request_key = record {
  key = λ e. e.id;
  set_key = λ i e. record e { id = i };
  key-set_key = λ i e. refl;
  set_key-key = λ e. refl;
}

abbrev pub audit_log_key : Keyed AuditLog
audit_log_key = record {
  key = λ e. e.id;
  set_key = λ i e. record e { id = i };
  key-set_key = λ i e. refl;
  set_key-key = λ e. refl;
}

abbrev pub notification_key : Keyed Notification
notification_key = record {
  key = λ e. e.id;
  set_key = λ i e. record e { id = i };
  key-set_key = λ i e. refl;
  set_key-key = λ e. refl;
}
