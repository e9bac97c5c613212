-- ===== src/Billing/Developer/Tests.antt =====
-- Runs of subscribing and cancelling on the example database.
use kigali_pack.Base.{ℕ, ◌≡◌, refl, false, none, some, arith, ◌==◌}
use kigali_pack.Service.{ok, Result}
use kigali_pack.Service.Rollback.{rollback}
use kigali_pack.Orm.Memory.{memory}
use kigali_pack.Data.{SubscriptionStatus, InvoiceStatus, Subscription}
use kigali_pack.Billing.Db.{Db}
use kigali_pack.Billing.Examples.{in_memory, runtime, start_db}
use kigali_pack.Billing.Subscriptions.{find_active_plan, tier_keys}
use kigali_pack.Billing.Developer.{
  SubscribeReply, CancelReply, subscribe, subscribe_body, find_active, cancel_existing,
  finish_subscribe, cancel, downgrade,
}
use kigali_pack.Billing.Developer.Single.{IsSingle, active_at, subscribe_single, cancel_single}

start-IsSingle : IsSingle in_memory rollback runtime "acme" start_db
unfolding IsSingle memory
start-IsSingle = (some 0, λ j. ground arith)

abbrev subscribed_run : Result SubscribeReply × Db in_memory
unfolding memory subscribe
subscribed_run = subscribe in_memory rollback runtime 100 "acme" "PRO" start_db

abbrev pro_subscription : Subscription
pro_subscription = record {
  id = 1;
  developer_name = "acme";
  plan_id = 1;
  status = SubscriptionStatus.active;
  current_period_start = 100;
  current_period_end = 2592000100;
  cancelled_at = none;
}

subscribe_start : subscribe in_memory rollback runtime 100 "acme" "PRO" start_db ≡ (
  ok (record { subscription = pro_subscription; invoice_status = InvoiceStatus.open_invoice }),
  subscribed_run.1,
)
unfolding memory subscribe subscribe_body find_active cancel_existing finish_subscribe
    find_active_plan tier_keys
subscribe_start = refl

subscribe_single_example :
    (pro_subscription.status ≡ SubscriptionStatus.active)
    × (pro_subscription.developer_name ≡ "acme")
    × ((j : ℕ) → active_at in_memory rollback runtime "acme" j subscribed_run.1 ≡ (j == 1))
subscribe_single_example =
    subscribe_single in_memory rollback runtime 100 "acme" "PRO" start_db start-IsSingle
      subscribe_start

abbrev cancelled_run : Result CancelReply × Db in_memory
unfolding memory cancel
cancelled_run = cancel in_memory rollback runtime 100 "acme" start_db

cancel_start :
    cancel in_memory rollback runtime 100 "acme" start_db
    ≡ (ok (record { cancelled_at = 100; downgraded_to = "FREE" }), cancelled_run.1)
unfolding memory cancel find_active downgrade tier_keys
cancel_start = refl

cancel_single_example : active_at in_memory rollback runtime "acme" 0 cancelled_run.1 ≡ false
cancel_single_example =
    cancel_single in_memory rollback runtime 100 "acme" start_db start-IsSingle cancel_start 0
