-- ===== src/Billing/Subscriptions/Tests.antt =====
-- Runs of the admins' operations on the example database.
use kigali_pack.Base.{◌≡◌, refl, none, some}
use kigali_pack.Service.{ok, err, Result, bad_request}
use kigali_pack.Service.Rollback.{rollback}
use kigali_pack.Orm.Memory.{memory}
use kigali_pack.Data.{SubscriptionStatus}
use kigali_pack.Billing.Db.{Db}
use kigali_pack.Billing.Examples.{in_memory, runtime, root_admin, start_db}
use kigali_pack.Billing.Subscriptions.{
  SubscriptionReply, load_subscription, store, approve_subscription, expire_subscription,
}
use kigali_pack.Billing.Subscriptions.Steps.{perform, HasStepped, expire, approve}
use kigali_pack.Billing.Subscriptions.Performed.{perform-HasStepped}

abbrev expired_run : Result SubscriptionReply × Db in_memory
unfolding memory perform
expired_run = perform in_memory rollback runtime expire 100 0 root_admin start_db

abbrev expired_reply : SubscriptionReply
expired_reply = record {
  subscription_id = 0;
  status = some SubscriptionStatus.expired;
  new_period_end = none;
}

perform_expire :
    perform in_memory rollback runtime expire 100 0 root_admin start_db
    ≡ (ok expired_reply, expired_run.1)
unfolding perform memory expire_subscription load_subscription store
perform_expire = refl

-- An active subscription cannot be approved.
perform_approve :
    perform in_memory rollback runtime approve 100 0 root_admin start_db
    ≡ (err bad_request, start_db)
unfolding perform memory approve_subscription load_subscription
perform_approve = refl

perform-HasStepped_example :
    HasStepped in_memory rollback runtime expire 100 0 start_db expired_run.1
perform-HasStepped_example =
    perform-HasStepped in_memory rollback runtime expire 100 0 root_admin start_db perform_expire
