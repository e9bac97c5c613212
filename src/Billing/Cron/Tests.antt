-- ===== src/Billing/Cron/Tests.antt =====
-- The jobs on the example database, after the period of its subscription.
use kigali_pack.Base.{ℕ, ◌≡◌, refl, some}
use kigali_pack.Service.{err, query_failed}
use kigali_pack.Service.Rollback.{rollback}
use kigali_pack.Orm.Memory.{memory}
use kigali_pack.Billing.Examples.{in_memory, runtime, start_db, old_subscription}
use kigali_pack.Billing.Cron.{
  expired, check_expired_subscriptions, expire_subscriptions, subscription_guard,
}
use kigali_pack.Billing.Cron.Expiry.{
  IsChecked, check_expired_subscriptions-subscription_guard, expire_subscriptions_throws,
}

abbrev late : ℕ
late = 2592000001

checked_start :
    in_memory.subscriptions.row
      (check_expired_subscriptions in_memory rollback runtime late start_db).subscriptions
      0
    ≡ some (expired old_subscription)
unfolding memory check_expired_subscriptions
checked_start = refl

old_stored : in_memory.subscriptions.row start_db.subscriptions 0 ≡ some old_subscription
unfolding memory
old_stored = refl

expire_subscriptions_throws_example :
    (expire_subscriptions in_memory rollback runtime late start_db).0 ≡ err query_failed
expire_subscriptions_throws_example =
    expire_subscriptions_throws in_memory rollback runtime late 0 old_subscription start_db
      old_stored refl

check_expired_subscriptions-subscription_guard_example :
    let db' = check_expired_subscriptions in_memory rollback runtime late start_db in
    IsChecked in_memory rollback runtime late start_db db'
    × ((subscription_guard in_memory rollback runtime late (some "acme") db').1 ≡ db')
check_expired_subscriptions-subscription_guard_example =
    check_expired_subscriptions-subscription_guard in_memory rollback runtime late "acme" start_db
