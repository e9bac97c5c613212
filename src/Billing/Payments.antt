-- ===== src/Billing/Payments.antt =====
-- BillingAdminService.approvePayment (modules/billing/billing-admin.service.ts), with the rows that
-- both reviews write.
-- The several `new Date()` of one request read one time, `now`.
pub mod Approval
pub mod Rejection
pub mod Once
pub mod Success
mod Tests
use text.Mathlib.Text.{◌==◌ as str_eq}
use kigali_pack.Base.{
  ℕ, ◌≡◌, Bool, true, false, ◌&&◌, not, Option, none, some, String, ◌==◌, if◌then◌else◌,
}
use kigali_pack.Service.{
  Exception, bad_request, not_found, query_failed, Action, pure, throw, ◌>>=◌, ◌>>◌, found,
  throw_if, modify, change, DataSource, gets,
}
use kigali_pack.Data.{
  Member, JwtPayload, ApiKey, Plan, Subscription, Invoice, PaymentRequest, PaymentRequestStatus,
  SubscriptionStatus, InvoiceStatus, AuditAction, TargetType, NotificationType, AuditLog,
  Notification,
}
use kigali_pack.Billing.Db.{Orm, Db, Runtime}

abbrev pub is_pending : PaymentRequestStatus → Bool
is_pending PaymentRequestStatus.pending = true
is_pending _ = false

pub data ReviewStatus : Type 0 where
  approved rejected : ReviewStatus

-- The reply; `subscription_id` is absent from that of a rejection.
pub record ReviewReply : Type 0 where
  pub payment_request_id : ℕ
  pub subscription_id : Option ℕ
  pub status : ReviewStatus

-- `where: { id }`, where an absent `id` is no condition.
abbrev pub by_id : Option ℕ → ℕ → Bool
by_id none i = true
by_id (some id) i = i == id

-- `where: { developerName, isActive: true }`
abbrev pub active_key_of : String → ApiKey → Bool
active_key_of name k = str_eq k.developer_name name && k.is_active

abbrev pub with_tier : String → ApiKey → ApiKey
with_tier tier k = record k { tier = tier }

abbrev pub payment_audit : AuditAction → JwtPayload → PaymentRequest → AuditLog
payment_audit action admin p = record {
  id = 0;
  action = action;
  actor_id = some admin.sub;
  actor_email = some admin.email;
  actor_role = some admin.role;
  target_id = some p.user_id;
  target_email = some p.user_email;
  target_type = some TargetType.payment_request;
}

abbrev pub payment_notice : NotificationType → PaymentRequest → Notification
payment_notice kind p = record {
  id = 0;
  user_id = some p.user_id;
  user_email = some p.user_email;
  kind = kind;
  read = false;
  read_at = none;
}

module _ (orm : Orm) (data_source : DataSource (Db orm)) (rt : Runtime) where
  open orm use {
    members, api_keys, plans, subscriptions, invoices, payment_requests, audit_logs, notifications,
  }

  abbrev pub save_payment : PaymentRequest → Action (Db orm) (Unit {0})
  save_payment p =
      modify (λ db. record db { payment_requests = payment_requests.save p db.payment_requests })

  abbrev pub save_subscription : Subscription → Action (Db orm) (Unit {0})
  save_subscription s =
      modify (λ db. record db { subscriptions = subscriptions.save s db.subscriptions })

  abbrev pub insert_subscription : Subscription → Action (Db orm) Subscription
  insert_subscription s = change (λ db.
      let (s', rows) = subscriptions.insert s db.subscriptions in
      (s', record db { subscriptions = rows }))

  abbrev pub insert_invoice : Invoice → Action (Db orm) (Unit {0})
  insert_invoice i = modify (λ db. record db { invoices = (invoices.insert i db.invoices).1 })

  abbrev pub insert_audit : AuditLog → Action (Db orm) (Unit {0})
  insert_audit a = modify (λ db. record db { audit_logs = (audit_logs.insert a db.audit_logs).1 })

  -- The column `user_id` is `NOT NULL`.
  abbrev pub insert_notification : Notification → Action (Db orm) (Unit {0})
  insert_notification n = do
    found (λ db. n.user_id) query_failed
    modify (λ db. record db { notifications = (notifications.insert n db.notifications).1 })

  -- The payment request, if it waits for a review.
  pub pending_request : ℕ → Action (Db orm) PaymentRequest
  pending_request id = do
    p ← found (λ db. payment_requests.find_one (λ r. r.id == id) db.payment_requests) not_found
    throw_if (not (is_pending p.status)) bad_request
    pure p

  -- The subscription that the request names, if it names one that is there.
  pub named_subscription : PaymentRequest → Action (Db orm) (Option Subscription)
  named_subscription p = gets (λ db. elim p.subscription_id [
    | none ↦ none
    | some sid ↦ subscriptions.find_one (λ s. s.id == sid) db.subscriptions
  ])

  pub find_plan : PaymentRequest → Db orm → Option Plan
  find_plan p db = plans.find_one (λ q. by_id p.plan_id q.id) db.plans

  pub find_member : PaymentRequest → Db orm → Option Member
  find_member p db = members.find_one (λ m. m.id == p.user_id) db.members

  abbrev pub new_subscription : ℕ → Plan → Member → Subscription
  new_subscription now plan member = record {
    id = 0;
    developer_name = member.organization.slug;
    plan_id = plan.id;
    status = SubscriptionStatus.active;
    current_period_start = now;
    current_period_end = rt.add_month now;
    cancelled_at = none;
  }

  -- `if (!subscription) { … } else { … }`
  pub activate_subscription :
      ℕ → PaymentRequest → Option Subscription → Action (Db orm) Subscription
  activate_subscription now p none = do
    plan ← found (find_plan p) not_found
    member ← found (find_member p) not_found
    insert_subscription (new_subscription now plan member)
  activate_subscription now p (some s) = do
    let s' = record s {
      status = SubscriptionStatus.active;
      current_period_start = now;
      current_period_end = rt.add_month now;
    }
    save_subscription s'
    pure s'

  -- The tier of the member's active keys becomes the code of the plan that was paid for.
  pub raise_tier : PaymentRequest → Db orm → Db orm
  raise_tier p db = elim (find_member p db) [
    | none ↦ db
    | some member ↦ elim (find_plan p db) [
      | none ↦ db
      | some plan ↦ record db {
        api_keys =
            api_keys.update (active_key_of member.organization.slug) (with_tier plan.code)
              db.api_keys;
      }
    ]
  ]

  abbrev pub as_approved : ℕ → JwtPayload → Option String → PaymentRequest → PaymentRequest
  as_approved now admin admin_notes p = record p {
    status = PaymentRequestStatus.approved;
    reviewed_by = some admin.sub;
    reviewed_by_email = some admin.email;
    reviewed_at = some now;
    admin_notes = admin_notes;
  }

  -- From the invoice to the reply.
  pub finish_approval : ℕ → JwtPayload → PaymentRequest → Subscription → Action (Db orm) ReviewReply
  finish_approval now admin p s = do
    insert_invoice (record {
      id = 0;
      subscription_id = s.id;
      amount_rwf = p.amount;
      status = InvoiceStatus.paid;
      due_date = s.current_period_end;
      paid_at = some now;
    })
    modify (raise_tier p)
    insert_audit (payment_audit AuditAction.payment_approved admin p)
    insert_notification (payment_notice NotificationType.payment_approved p)
    pure (record {
      payment_request_id = p.id;
      subscription_id = some s.id;
      status = ReviewStatus.approved;
    })

  pub approve_payment_body : ℕ → ℕ → JwtPayload → Option String → Action (Db orm) ReviewReply
  approve_payment_body now id admin admin_notes = do
    payment_request ← pending_request id
    let p = as_approved now admin admin_notes payment_request
    save_payment p
    named ← named_subscription p
    s ← activate_subscription now p named
    finish_approval now admin p s

  pub approve_payment : ℕ → ℕ → JwtPayload → Option String → Action (Db orm) ReviewReply
  approve_payment now id admin admin_notes =
      data_source.transaction (approve_payment_body now id admin admin_notes)
