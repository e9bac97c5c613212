-- ===== src/Billing/Plans.antt =====
-- BillingAdminService.createPlan, updatePlan and deletePlan
-- (modules/billing/billing-admin.service.ts).
pub mod Sound
mod Tests
use text.Mathlib.Text.{◌==◌ as str_eq}
use kigali_pack.Base.{ℕ, Bool, true, false, Option, none, some, List, [], String, ◌==◌, is_some}
use kigali_pack.Service.{
  bad_request, not_found, query_failed, Action, pure, ◌>>=◌, ◌>>◌, found, throw_if, modify, change,
  gets, DataSource,
}
use kigali_pack.Data.{JwtPayload, Plan, Subscription, AuditAction, TargetType, AuditLog}
use kigali_pack.Billing.Db.{Orm, Db, Runtime}
use kigali_pack.Billing.Payments.{insert_audit}

pub record CreatePlan : Type 0 where
  pub code : String
  pub name : String
  pub description : Option String
  pub price_monthly_rwf : ℕ
  pub rate_limit_per_hour : Option ℕ
  pub features : Option (List String)

-- An absent field is left as it is.
pub record UpdatePlan : Type 0 where
  pub name : Option String
  pub description : Option String
  pub price_monthly_rwf : Option ℕ
  pub rate_limit_per_hour : Option ℕ
  pub features : Option (List String)
  pub is_active : Option Bool

abbrev plan_audit : AuditAction → JwtPayload → ℕ → AuditLog
plan_audit action admin plan_id = record {
  id = 0;
  action = action;
  actor_id = some admin.sub;
  actor_email = some admin.email;
  actor_role = some admin.role;
  target_id = some plan_id;
  target_email = none;
  target_type = some TargetType.plan;
}

-- `value ?? fallback`
abbrev or_else {ℓ} : {A : Type ℓ} → A → Option A → A
or_else fallback none = fallback
or_else fallback (some a) = a

abbrev updated_from : UpdatePlan → Plan → Plan
updated_from dto p = record p {
  name = or_else p.name dto.name;
  description = elim dto.description [ none ↦ p.description | some d ↦ some d ];
  price_monthly_rwf = or_else p.price_monthly_rwf dto.price_monthly_rwf;
  rate_limit_per_hour = elim dto.rate_limit_per_hour [
    | none ↦ p.rate_limit_per_hour
    | some n ↦ some n
  ];
  features = or_else p.features dto.features;
  is_active = or_else p.is_active dto.is_active;
}

module _ (orm : Orm) (data_source : DataSource (Db orm)) (rt : Runtime) where
  open orm use {plans, subscriptions}

  abbrev new_plan : CreatePlan → Plan
  new_plan dto = record {
    id = 0;
    code = rt.to_upper dto.code;
    name = dto.name;
    description = dto.description;
    price_monthly_rwf = dto.price_monthly_rwf;
    rate_limit_per_hour = dto.rate_limit_per_hour;
    features = or_else [] dto.features;
    is_active = true;
  }

  abbrev with_code : String → Plan → Bool
  with_code code p = str_eq p.code (rt.to_upper code)

  abbrev insert_plan : Plan → Action (Db orm) Plan
  insert_plan p =
      change (λ db. let (p', rows) = plans.insert p db.plans in (p', record db { plans = rows }))

  pub create_plan : CreatePlan → JwtPayload → Action (Db orm) Plan
  create_plan dto admin = data_source.transaction (do
    existing ← gets (λ db. plans.find_one (with_code dto.code) db.plans)
    throw_if (is_some existing) bad_request
    saved ← insert_plan (new_plan dto)
    insert_audit orm data_source rt (plan_audit AuditAction.plan_created admin saved.id)
    pure saved)

  abbrev load_plan : ℕ → Action (Db orm) Plan
  load_plan id = found (λ db. plans.find_one (λ p. p.id == id) db.plans) not_found

  pub update_plan : ℕ → UpdatePlan → JwtPayload → Action (Db orm) Plan
  update_plan id dto admin = data_source.transaction (do
    plan ← load_plan id
    modify (λ db. record db { plans = plans.save (updated_from dto plan) db.plans })
    insert_audit orm data_source rt (plan_audit AuditAction.plan_updated admin plan.id)
    pure (updated_from dto plan))

  -- A subscription of the plan: its foreign key (database/migrations/, "FK_billing_subscriptions_plan")
  -- has no ON DELETE, so the database refuses to remove the plan.
  abbrev subscription_of : Plan → Db orm → Option Subscription
  subscription_of plan db = subscriptions.find_one (λ s. s.plan_id == plan.id) db.subscriptions

  abbrev refuse_referred : Plan → Action (Db orm) (Unit {0})
  refuse_referred plan = do
    referring ← gets (subscription_of plan)
    throw_if (is_some referring) query_failed

  -- `planRepo.remove(plan)`, under that foreign key.
  abbrev remove_plan : Plan → Action (Db orm) (Unit {0})
  remove_plan plan = do
    refuse_referred plan
    modify (λ db. record db { plans = plans.remove plan db.plans })

  pub delete_plan : ℕ → JwtPayload → Action (Db orm) (Unit {0})
  delete_plan id admin = data_source.transaction (do
    plan ← load_plan id
    remove_plan plan
    insert_audit orm data_source rt (plan_audit AuditAction.plan_deleted admin id)
    pure tt)
