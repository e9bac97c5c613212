-- ===== src/Billing/Subscriptions/Life.antt =====
-- What holds of a subscription through any sequence of the admins' operations.
use kigali_pack.Base.{Bool, true, false, ℕ, ◌≡◌}
use kigali_pack.Service.{ok, DataSource}
use kigali_pack.Data.{Subscription, JwtPayload}
use kigali_pack.Billing.Db.{Orm, Db, negsuc, Runtime}
use kigali_pack.Billing.Subscriptions.{SubscriptionReply}
use kigali_pack.Billing.Subscriptions.Steps.{Step, Operation, extend, perform}

-- An operation that does not extend a period by a negative number of days.
abbrev pub is_forward : Operation → Bool
is_forward (extend (negsuc n)) = false
is_forward _ = true

-- A sequence of steps forwards at any times.
pub data Steps (rt : Runtime) : Subscription → Subscription → Type 0 where
  here : {s : Subscription} → Steps rt s s
  then :
      {s t u : Subscription} (op : Operation) (now : ℕ)
      → is_forward op ≡ true
      → Step rt now op s t
      → Steps rt t u
      → Steps rt s u

module _ (orm : Orm) (data_source : DataSource (Db orm)) (rt : Runtime) where
  open orm use {subscriptions}

  -- A sequence of operations forwards of any admins, on any subscriptions.
  pub data Run : Db orm → Db orm → Type 0 where
    idle : {db : Db orm} → Run db db
    performed :
        {db db1 db2 : Db orm} {r : SubscriptionReply} (op : Operation) (now id : ℕ)
        (admin : JwtPayload)
        → is_forward op ≡ true
        → perform orm data_source rt op now id admin db ≡ (ok r, db1)
        → Run db1 db2
        → Run db db2
