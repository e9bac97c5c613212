-- ===== src/Billing/Cron.antt =====
-- BillingCronService.expireSubscriptions and checkExpiredSubscriptions
-- (modules/billing/billing-cron.service.ts), and SubscriptionGuard.canActivate
-- (modules/billing/guards/subscription.guard.ts). None of them runs in a transaction.
pub mod Expiry
mod Tests
use text.Mathlib.Text.{◌==◌ as str_eq}
use kigali_pack.Base.{
  ℕ, Bool, true, false, ◌&&◌, Option, none, some, List, [], ◌∷◌, String, ◌==◌, ltb, if◌then◌else◌,
}
use kigali_pack.Service.{
  Result, ok, forbidden, Action, pure, throw, ◌>>=◌, ◌>>◌, found, gets, modify, DataSource,
}
use kigali_pack.Data.{
  Subscription, SubscriptionStatus, AuditAction, AuditLog, NotificationType, Notification,
}
use kigali_pack.Billing.Db.{Orm, Db, Runtime}
use kigali_pack.Billing.Payments.{insert_audit, insert_notification}

abbrev pub is_active : SubscriptionStatus → Bool
is_active SubscriptionStatus.active = true
is_active _ = false

-- `{ status: ACTIVE, currentPeriodEnd: LessThan(now) }`
abbrev pub overdue : ℕ → Subscription → Bool
overdue now s = is_active s.status && ltb s.current_period_end now

abbrev pub expired : Subscription → Subscription
expired s = record s { status = SubscriptionStatus.expired }

-- `where: { developerName, status: ACTIVE }`
abbrev pub active_of : String → Subscription → Bool
active_of name s = str_eq s.developer_name name && is_active s.status

-- The notification names no user.
abbrev expiry_notice : Notification
expiry_notice = record {
  id = 0;
  user_id = none;
  user_email = none;
  kind = NotificationType.subscription_expired;
  read = false;
  read_at = none;
}

abbrev expiry_audit : AuditLog
expiry_audit = record {
  id = 0;
  action = AuditAction.subscription_expired;
  actor_id = none;
  actor_email = none;
  actor_role = none;
  target_id = none;
  target_email = none;
  target_type = none;
}

module _ (orm : Orm) (data_source : DataSource (Db orm)) (rt : Runtime) where
  open orm use {subscriptions}

  -- `update({ id }, { status: EXPIRED })`
  abbrev expire_one : ℕ → Db orm → Db orm
  expire_one id db = record db {
    subscriptions = subscriptions.update (λ s. s.id == id) expired db.subscriptions;
  }

  pub expire_each : List Subscription → Action (Db orm) (Unit {0})
  expire_each [] = pure tt
  expire_each (s ∷ rest) =
      let later = expire_each rest in
      modify (expire_one s.id)
      >> insert_notification orm data_source rt expiry_notice
      >> insert_audit orm data_source rt expiry_audit
      >> later

  unfoldable pub expire_subscriptions : ℕ → Action (Db orm) (Unit {0})
  expire_subscriptions now = do
    found_subscriptions ← gets (λ db. subscriptions.find (overdue now) db.subscriptions)
    expire_each found_subscriptions

  -- The number of rows that it replies is only written to the log.
  unfoldable pub check_expired_subscriptions : ℕ → Db orm → Db orm
  check_expired_subscriptions now db = record db {
    subscriptions = subscriptions.update (overdue now) expired db.subscriptions;
  }

  -- For a request without a developer the guard passes.
  unfoldable pub subscription_guard : ℕ → Option String → Action (Db orm) (Unit {0})
  subscription_guard now none = pure tt
  subscription_guard now (some developer_name) = do
    s ← found (λ db. subscriptions.find_one (active_of developer_name) db.subscriptions) forbidden
    if ltb s.current_period_end now then (modify (expire_one s.id) >> throw forbidden) else pure tt
