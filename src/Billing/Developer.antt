-- ===== src/Billing/Developer.antt =====
-- BillingService.subscribe, cancel and getSubscription (modules/billing/billing.service.ts): what a
-- developer does with its own subscription.
pub mod Single
mod Tests
use text.Mathlib.Text.{◌==◌ as str_eq}
use kigali_pack.Base.{ℕ, Bool, true, false, ◌&&◌, Option, none, some, String, ◌==◌, if◌then◌else◌}
use kigali_pack.Service.{not_found, Action, pure, ◌>>=◌, ◌>>◌, found, gets, modify, DataSource}
use kigali_pack.Data.{Plan, Subscription, SubscriptionStatus, InvoiceStatus}
use kigali_pack.Billing.Db.{Orm, Db, Runtime}
use kigali_pack.Billing.Payments.{save_subscription, insert_subscription, insert_invoice}
use kigali_pack.Billing.Subscriptions.{find_active_plan, tier_keys, cancelled_from}

abbrev pub is_active : SubscriptionStatus → Bool
is_active SubscriptionStatus.active = true
is_active _ = false

-- `where: { developerName, status: ACTIVE }`
abbrev pub active_of : String → Subscription → Bool
active_of name s = str_eq s.developer_name name && is_active s.status

pub record SubscribeReply : Type 0 where
  pub subscription : Subscription
  pub invoice_status : InvoiceStatus

pub record CancelReply : Type 0 where
  pub cancelled_at : ℕ
  pub downgraded_to : String

module _ (orm : Orm) (data_source : DataSource (Db orm)) (rt : Runtime) where
  open orm use {plans, subscriptions}

  pub find_active : String → Db orm → Option Subscription
  find_active name db = subscriptions.find_one (active_of name) db.subscriptions

  -- `if (existing) { … }`
  pub cancel_existing : ℕ → Option Subscription → Db orm → Db orm
  cancel_existing now none db = db
  cancel_existing now (some s) db = record db {
    subscriptions = subscriptions.save (cancelled_from orm data_source rt now s) db.subscriptions;
  }

  abbrev pub subscription_to : ℕ → String → Plan → Subscription
  subscription_to now name plan = record {
    id = 0;
    developer_name = name;
    plan_id = plan.id;
    status = SubscriptionStatus.active;
    current_period_start = now;
    current_period_end = rt.add_month now;
    cancelled_at = none;
  }

  -- From the invoice to the reply.
  pub finish_subscribe : ℕ → String → Plan → Subscription → Action (Db orm) SubscribeReply
  finish_subscribe now name plan s = do
    let free = plan.price_monthly_rwf == 0
    let status = if free then InvoiceStatus.paid else InvoiceStatus.open_invoice
    insert_invoice orm data_source rt (record {
      id = 0;
      subscription_id = s.id;
      amount_rwf = plan.price_monthly_rwf;
      status = status;
      due_date = rt.add_month now;
      paid_at = if free then some now else none;
    })
    modify (tier_keys orm data_source rt name plan.code)
    pure (record { subscription = s; invoice_status = status })

  pub subscribe_body : ℕ → String → Plan → Action (Db orm) SubscribeReply
  subscribe_body now name plan = do
    existing ← gets (find_active name)
    modify (cancel_existing now existing)
    s ← insert_subscription orm data_source rt (subscription_to now name plan)
    finish_subscribe now name plan s

  -- `name` is the `developerName` of the API key that calls.
  pub subscribe : ℕ → String → String → Action (Db orm) SubscribeReply
  subscribe now name plan_code = do
    plan ← found (find_active_plan orm data_source rt plan_code) not_found
    data_source.transaction (subscribe_body now name plan)

  -- `if (freePlan) { … }`
  pub downgrade : String → Db orm → Db orm
  downgrade name db = elim (plans.find_one (λ p. str_eq p.code "FREE") db.plans) [
    | none ↦ db
    | some plan ↦ tier_keys orm data_source rt name "FREE" db
  ]

  pub cancel : ℕ → String → Action (Db orm) CancelReply
  cancel now name = do
    s ← found (find_active name) not_found
    save_subscription orm data_source rt (cancelled_from orm data_source rt now s)
    modify (downgrade name)
    pure (record { cancelled_at = now; downgraded_to = "FREE" })
