-- ===== src/Billing/Subscriptions.antt =====
-- BillingAdminService.approveSubscription, rejectSubscription, cancelSubscription,
-- expireSubscription, extendSubscription and changeSubscriptionPlan
-- (modules/billing/billing-admin.service.ts).
pub mod Steps
pub mod Performed
pub mod Life
mod Tests
use text.Mathlib.Text.{◌==◌ as str_eq}
use kigali_pack.Base.{
  ℕ, ◌≡◌, Bool, true, false, ◌&&◌, not, Option, none, some, String, ◌==◌, if◌then◌else◌,
}
use kigali_pack.Service.{
  bad_request, not_found, Action, pure, ◌>>=◌, ◌>>◌, found, throw_if, modify, DataSource,
}
use kigali_pack.Data.{
  JwtPayload, Plan, Subscription, SubscriptionStatus, AuditAction, TargetType, AuditLog,
}
use kigali_pack.Billing.Db.{Orm, Db, ℤ, Runtime}
use kigali_pack.Billing.Payments.{active_key_of, with_tier, save_subscription, insert_audit}

abbrev pub awaits : SubscriptionStatus → Bool
awaits SubscriptionStatus.pending = true
awaits _ = false

abbrev pub revived : SubscriptionStatus → SubscriptionStatus
revived SubscriptionStatus.expired = SubscriptionStatus.active
revived status = status

-- The reply; `new_period_end` is that of an extension alone, `status` is absent from the reply of
-- a change of plan.
pub record SubscriptionReply : Type 0 where
  pub subscription_id : ℕ
  pub status : Option SubscriptionStatus
  pub new_period_end : Option ℕ

abbrev subscription_audit : AuditAction → JwtPayload → Subscription → AuditLog
subscription_audit action admin s = record {
  id = 0;
  action = action;
  actor_id = some admin.sub;
  actor_email = some admin.email;
  actor_role = some admin.role;
  target_id = some s.id;
  target_email = none;
  target_type = some TargetType.subscription;
}

abbrev replied : Subscription → SubscriptionReply
replied s = record { subscription_id = s.id; status = some s.status; new_period_end = none }

module _ (orm : Orm) (data_source : DataSource (Db orm)) (rt : Runtime) where
  open orm use {api_keys, plans, subscriptions}

  unfoldable pub load_subscription : ℕ → Action (Db orm) Subscription
  load_subscription id =
      found (λ db. subscriptions.find_one (λ s. s.id == id) db.subscriptions) not_found

  -- The save and the audit entry with which each operation ends.
  pub store :
      AuditAction
      → JwtPayload
      → Subscription
      → SubscriptionReply
      → Action (Db orm) SubscriptionReply
  store action admin s reply = do
    save_subscription orm data_source rt s
    insert_audit orm data_source rt (subscription_audit action admin s)
    pure reply

  abbrev pub approved_from : ℕ → Subscription → Subscription
  approved_from now s = record s {
    status = SubscriptionStatus.active;
    current_period_start = now;
    current_period_end = rt.add_month now;
  }

  pub approve_subscription : ℕ → ℕ → JwtPayload → Action (Db orm) SubscriptionReply
  approve_subscription now id admin = data_source.transaction (do
    s ← load_subscription id
    throw_if (not (awaits s.status)) bad_request
    store AuditAction.subscription_activated admin (approved_from now s)
        (replied (approved_from now s)))

  abbrev pub rejected_from : Subscription → Subscription
  rejected_from s = record s { status = SubscriptionStatus.rejected }

  pub reject_subscription : ℕ → JwtPayload → Action (Db orm) SubscriptionReply
  reject_subscription id admin = data_source.transaction (do
    s ← load_subscription id
    throw_if (not (awaits s.status)) bad_request
    store AuditAction.subscription_cancelled admin (rejected_from s) (replied (rejected_from s)))

  abbrev pub cancelled_from : ℕ → Subscription → Subscription
  cancelled_from now s = record s { status = SubscriptionStatus.cancelled; cancelled_at = some now }

  pub cancel_subscription : ℕ → ℕ → JwtPayload → Action (Db orm) SubscriptionReply
  cancel_subscription now id admin = data_source.transaction (do
    s ← load_subscription id
    store AuditAction.subscription_cancelled admin (cancelled_from now s)
        (replied (cancelled_from now s)))

  abbrev pub expired_from : Subscription → Subscription
  expired_from s = record s { status = SubscriptionStatus.expired }

  pub expire_subscription : ℕ → JwtPayload → Action (Db orm) SubscriptionReply
  expire_subscription id admin = data_source.transaction (do
    s ← load_subscription id
    store AuditAction.subscription_expired admin (expired_from s) (replied (expired_from s)))

  -- The route checks neither the sign nor the type of `days`; here it is a number, whose fraction
  -- is cut off.
  abbrev pub extended_from : ℤ → Subscription → Subscription
  extended_from days s = record s {
    status = revived s.status;
    current_period_end = rt.add_days days s.current_period_end;
  }

  pub extend_subscription : ℕ → ℤ → JwtPayload → Action (Db orm) SubscriptionReply
  extend_subscription id days admin = data_source.transaction (do
    s ← load_subscription id
    let s' = extended_from days s
    store AuditAction.subscription_activated admin s'
        (record (replied s') { new_period_end = some s'.current_period_end }))

  unfoldable pub find_active_plan : String → Db orm → Option Plan
  find_active_plan code db =
      plans.find_one (λ p. str_eq p.code (rt.to_upper code) && p.is_active) db.plans

  -- The tier of the active keys of a developer becomes the code of a plan.
  unfoldable pub tier_keys : String → String → Db orm → Db orm
  tier_keys developer_name tier db = record db {
    api_keys = api_keys.update (active_key_of developer_name) (with_tier tier) db.api_keys;
  }

  pub change_subscription_plan : ℕ → String → JwtPayload → Action (Db orm) SubscriptionReply
  change_subscription_plan id plan_code admin = data_source.transaction (do
    s ← load_subscription id
    plan ← found (find_active_plan plan_code) not_found
    let s' = record s { plan_id = plan.id }
    save_subscription orm data_source rt s'
    modify (tier_keys s'.developer_name plan.code)
    insert_audit orm data_source rt (subscription_audit AuditAction.plan_updated admin s')
    pure (record { subscription_id = s'.id; status = none; new_period_end = none }))
