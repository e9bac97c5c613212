-- ===== src/Billing/Overrides.antt =====
-- AdminService.overrideSubscriptionTier, updateInvoiceStatus and restrictDeveloper
-- (modules/admin/admin.service.ts), with the bodies of their routes (modules/admin/dto/admin.dto.ts).
pub mod Restricted
mod Tests
use kigali_pack.Base.{ℕ, Bool, true, false, Option, none, some, String, ◌==◌}
use kigali_pack.Service.{
  bad_request, not_found, type_error, Action, pure, ◌>>=◌, ◌>>◌, found, gets, throw, throw_if,
  modify, DataSource,
}
use kigali_pack.Data.{
  Member, OrganizationRole, Plan, Subscription, SubscriptionStatus, Invoice, InvoiceStatus,
}
use kigali_pack.Billing.Db.{Orm, Db, Runtime}
use kigali_pack.Billing.Payments.{save_subscription}
use kigali_pack.Billing.Subscriptions.{
  load_subscription, find_active_plan, tier_keys, cancelled_from,
}
use kigali_pack.Billing.Users.{load_user, revoke_keys}

pub record TierOverride : Type 0 where
  pub plan_code : Option String
  pub rate_limit_per_hour : Option ℕ
  pub status : Option SubscriptionStatus

pub record OverrideReply : Type 0 where
  pub id : ℕ
  pub developer_name : String
  pub status : SubscriptionStatus
  pub plan_code : String
  pub rate_limit_per_hour : Option ℕ

pub record InvoiceReply : Type 0 where
  pub id : ℕ
  pub status : InvoiceStatus
  pub paid_at : Option ℕ

pub record RestrictReply : Type 0 where
  pub member_id : ℕ
  pub email : String
  pub organization_slug : String
  pub reason : String

abbrev pub is_master : OrganizationRole → Bool
is_master OrganizationRole.master_admin = true
is_master _ = false

-- `invoice.status = status`, and `paidAt` when that is PAID.
abbrev pub invoice_with : ℕ → InvoiceStatus → Invoice → Invoice
invoice_with now InvoiceStatus.paid i = record i { status = InvoiceStatus.paid; paid_at = some now }
invoice_with now status i = record i { status = status }

abbrev pub reason_of : Option String → String
reason_of none = "Administrative suspension"
reason_of (some reason) = reason

module _ (orm : Orm) (data_source : DataSource (Db orm)) (rt : Runtime) where
  open orm use {plans, invoices}

  -- The relation `plan` of a subscription that is loaded.
  abbrev plan_of : Subscription → Db orm → Option Plan
  plan_of s db = plans.find_one (λ p. p.id == s.plan_id) db.plans

  -- The plan the override names, and the tier of the developer's active keys; an empty code is no
  -- code.
  abbrev choose_plan :
      Option String → Subscription → Option Plan → Action (Db orm) (Subscription × Option Plan)
  choose_plan none s plan = pure (s, plan)
  choose_plan (some String.[]) s plan = pure (s, plan)
  choose_plan (some code) s plan = do
    p ← found (find_active_plan orm data_source rt code) bad_request
    modify (tier_keys orm data_source rt s.developer_name p.code)
    pure (record s { plan_id = p.id }, some p)

  -- The limit is written to the plan itself.
  abbrev limit_plan : Option ℕ → Option Plan → Action (Db orm) (Option Plan)
  limit_plan (some limit) (some p) = do
    let p' = record p { rate_limit_per_hour = some limit }
    modify (λ db. record db { plans = plans.save p' db.plans })
    pure (some p')
  limit_plan limit plan = pure plan

  abbrev with_status : ℕ → Option SubscriptionStatus → Subscription → Subscription
  with_status now none s = s
  with_status now (some SubscriptionStatus.cancelled) s = cancelled_from orm data_source rt now s
  with_status now (some status) s = record s { status = status }

  -- `saved.plan.code` of no plan is a type error.
  abbrev override_reply : Subscription → Option Plan → Action (Db orm) OverrideReply
  override_reply s none = throw type_error
  override_reply s (some p) = pure (record {
    id = s.id;
    developer_name = s.developer_name;
    status = s.status;
    plan_code = p.code;
    rate_limit_per_hour = p.rate_limit_per_hour;
  })

  pub override_subscription_tier : ℕ → ℕ → TierOverride → Action (Db orm) OverrideReply
  override_subscription_tier now id dto = do
    s ← load_subscription orm data_source rt id
    plan ← gets (plan_of s)
    data_source.transaction (do
      chosen ← choose_plan dto.plan_code s plan
      limited ← limit_plan dto.rate_limit_per_hour chosen.1
      let s' = with_status now dto.status chosen.0
      save_subscription orm data_source rt s'
      override_reply s' limited)

  pub update_invoice_status : ℕ → ℕ → InvoiceStatus → Action (Db orm) InvoiceReply
  update_invoice_status now id status = do
    i ← found (λ db. invoices.find_one (λ x. x.id == id) db.invoices) not_found
    let i' = invoice_with now status i
    modify (λ db. record db { invoices = invoices.save i' db.invoices })
    pure (record { id = i'.id; status = i'.status; paid_at = i'.paid_at })

  pub restrict_developer : ℕ → ℕ → Option String → Action (Db orm) RestrictReply
  restrict_developer now id reason = do
    m ← load_user orm data_source rt id
    throw_if (is_master m.role) bad_request
    revoke_keys orm data_source rt now m
    pure (record {
      member_id = m.id;
      email = m.email;
      organization_slug = m.organization.slug;
      reason = reason_of reason;
    })
