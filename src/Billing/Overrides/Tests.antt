-- ===== src/Billing/Overrides/Tests.antt =====
-- The overrides of the platform admin on the example database.
use kigali_pack.Base.{◌≡◌, refl, none, some}
use kigali_pack.Service.{ok, err, bad_request, not_found, Result}
use kigali_pack.Service.Rollback.{rollback}
use kigali_pack.Orm.Memory.{memory}
use kigali_pack.Data.{SubscriptionStatus, InvoiceStatus}
use kigali_pack.Billing.Db.{Db}
use kigali_pack.Billing.Examples.{in_memory, runtime, start_db, free}
use kigali_pack.Billing.Subscriptions.{load_subscription, find_active_plan, tier_keys}
use kigali_pack.Billing.Overrides.{
  TierOverride, OverrideReply, override_subscription_tier, update_invoice_status,
  restrict_developer,
}

abbrev run : TierOverride → Result OverrideReply × Db in_memory
unfolding memory override_subscription_tier load_subscription find_active_plan tier_keys
run dto = override_subscription_tier in_memory rollback runtime 100 0 dto start_db

-- The limit of one subscription is the limit of the plan.
override_limit :
    in_memory.plans.row
      (run (record { plan_code = none; rate_limit_per_hour = some 7; status = none })).1.plans
      0
    ≡ some (record free { rate_limit_per_hour = some 7 })
unfolding memory override_subscription_tier load_subscription find_active_plan tier_keys
override_limit = refl

override_plan :
    (run (record {
      plan_code = some "PRO";
      rate_limit_per_hour = none;
      status = some SubscriptionStatus.cancelled;
    })).0
    ≡ ok (record {
      id = 0;
      developer_name = "acme";
      status = SubscriptionStatus.cancelled;
      plan_code = "PRO";
      rate_limit_per_hour = some 1000;
    })
unfolding memory override_subscription_tier load_subscription find_active_plan tier_keys
override_plan = refl

override_unknown_plan :
    run (record { plan_code = some "GOLD"; rate_limit_per_hour = some 7; status = none })
    ≡ (err bad_request, start_db)
unfolding memory override_subscription_tier load_subscription find_active_plan tier_keys
override_unknown_plan = refl

update_missing_invoice :
    update_invoice_status in_memory rollback runtime 100 5 InvoiceStatus.paid start_db
    ≡ (err not_found, start_db)
unfolding memory update_invoice_status
update_missing_invoice = refl

restrict_start :
    (restrict_developer in_memory rollback runtime 100 0 none start_db).0
    ≡ ok (record {
      member_id = 0;
      email = "alice@acme.rw";
      organization_slug = "acme";
      reason = "Administrative suspension";
    })
unfolding memory restrict_developer
restrict_start = refl
