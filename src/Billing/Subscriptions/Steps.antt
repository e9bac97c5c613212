-- ===== src/Billing/Subscriptions/Steps.antt =====
-- The life of one subscription under the operations of the admins, as a step relation, and that
-- each operation takes a step of it.
use text.Mathlib.Text.{◌==◌ as str_eq}
use kigali_pack.Base.{
  ℕ, ◌≡◌, ◌≢◌, refl, sym, ap, ◌∙◌, true, not, some, String, ◌==◌, arith, Bool-cases, Option-cases,
  inl, inr,
}
use kigali_pack.Service.{Action, ok, bad_request, throw_if, DataSource, ◌>>=◌}
use kigali_pack.Data.{JwtPayload, Plan, Subscription, SubscriptionStatus, AuditAction}
use kigali_pack.Orm.{find_one-key, row-save_self, row-save_ne}
use kigali_pack.Billing.Db.{Orm, Db, ℤ, Runtime}
use kigali_pack.Billing.Subscriptions.{
  awaits, SubscriptionReply, load_subscription, store, approve_subscription, reject_subscription,
  cancel_subscription, expire_subscription, extend_subscription, change_subscription_plan,
}

-- The operations, with what the admin chooses.
pub data Operation : Type 0 where
  approve reject cancel expire : Operation
  extend : ℤ → Operation
  change_plan : String → Operation

-- What each operation at the time `now` makes of a subscription.
pub data Step (rt : Runtime) (now : ℕ) : Operation → Subscription → Subscription → Type 0 where
  activated :
      {s : Subscription}
      → s.status ≡ SubscriptionStatus.pending
      → Step rt now approve s (record s {
        status = SubscriptionStatus.active;
        current_period_start = now;
        current_period_end = rt.add_month now;
      })
  refused :
      {s : Subscription}
      → s.status ≡ SubscriptionStatus.pending
      → Step rt now reject s (record s { status = SubscriptionStatus.rejected })
  cancelled :
      {s : Subscription}
      → Step rt now cancel s
          (record s { status = SubscriptionStatus.cancelled; cancelled_at = some now })
  ended :
      {s : Subscription} → Step rt now expire s (record s { status = SubscriptionStatus.expired })
  prolonged :
      {s : Subscription} (days : ℤ)
      → s.status ≢ SubscriptionStatus.expired
      → Step rt now
          (extend days)
          s
          (record s { current_period_end = rt.add_days days s.current_period_end })
  reopened :
      {s : Subscription} (days : ℤ)
      → s.status ≡ SubscriptionStatus.expired
      → Step rt now (extend days) s (record s {
        status = SubscriptionStatus.active;
        current_period_end = rt.add_days days s.current_period_end;
      })
  moved :
      {s : Subscription} (code : String) (plan_id : ℕ)
      → Step rt now (change_plan code) s (record s { plan_id = plan_id })

module _ (orm : Orm) (data_source : DataSource (Db orm)) (rt : Runtime) where
  open orm use {plans, subscriptions}

  unfoldable pub perform : Operation → ℕ → ℕ → JwtPayload → Action (Db orm) SubscriptionReply
  perform approve now id admin = approve_subscription orm data_source rt now id admin
  perform reject now id admin = reject_subscription orm data_source rt id admin
  perform cancel now id admin = cancel_subscription orm data_source rt now id admin
  perform expire now id admin = expire_subscription orm data_source rt id admin
  perform (extend days) now id admin = extend_subscription orm data_source rt id days admin
  perform (change_plan code) now id admin =
      change_subscription_plan orm data_source rt id code admin

  -- The plan of that key is stored, active, and has the code.
  pub record IsNamed (code : String) (plan_id : ℕ) (db : Db orm) : Type 0 where
    pub plan : Plan
    pub stored : plans.row db.plans plan_id ≡ some plan
    pub coded : str_eq plan.code (rt.to_upper code) ≡ true
    pub offered : plan.is_active ≡ true

  -- The subscription `id` has taken the step of the operation, to the plan that the operation names
  -- if it names one, and no other subscription has changed.
  pub record HasStepped (op : Operation) (now id : ℕ) (db db' : Db orm) : Type 0 where
    pub old : Subscription
    pub new : Subscription
    pub before : subscriptions.row db.subscriptions id ≡ some old
    pub after : subscriptions.row db'.subscriptions id ≡ some new
    pub step : Step rt now op old new
    pub named : (code : String) → op ≡ change_plan code → IsNamed code new.plan_id db
    pub others :
        (i : ℕ)
        → id ≢ i
        → subscriptions.row db'.subscriptions i ≡ subscriptions.row db.subscriptions i

  pub load_subscription-eq-ok :
      (id : ℕ) (db : Db orm) {s : Subscription} {db' : Db orm}
      → load_subscription orm data_source rt id db ≡ (ok s, db')
      → (db' ≡ db) × (s.id ≡ id) × (subscriptions.row db.subscriptions id ≡ some s)
  unfolding load_subscription
  load_subscription-eq-ok id db {s} h =
      elim (Option-cases (subscriptions.find_one (λ s. s.id == id) db.subscriptions)) [
        | inl gone ↦ ground arith
        | inr (q, e) ↦ ground (arith, find_one-key subscriptions id db.subscriptions e)
      ]

  -- A loaded subscription, changed and saved under its key.
  pub saved-HasStepped :
      (op : Operation) (now id : ℕ) (s s' : Subscription) (db db1 db' : Db orm)
      → (db1 ≡ db) × (s.id ≡ id) × (subscriptions.row db.subscriptions id ≡ some s)
      → s'.id ≡ s.id
      → Step rt now op s s'
      → ((code : String) → op ≡ change_plan code → IsNamed code s'.plan_id db)
      → db'.subscriptions ≡ subscriptions.save s' db1.subscriptions
      → HasStepped op now id db db'
  saved-HasStepped op now id s s' db db1 db' (same, key, stored) keep step named rows =
      let key' : s'.id ≡ id = keep ∙ key in
      let rows' : db'.subscriptions ≡ subscriptions.save s' db.subscriptions =
        rows ∙ ap (λ d. subscriptions.save s' d.subscriptions) same in
      record {
        old = s;
        new = s';
        before = stored;
        after = rw (rows', ← key') (row-save_self subscriptions s' db.subscriptions);
        step = step;
        named = named;
        others = λ i ne.
            rw rows' (row-save_ne subscriptions s' db.subscriptions i (λ q. ne (sym key' ∙ q)));
      }

  pub store-eq-ok :
      (action : AuditAction) (admin : JwtPayload) (s : Subscription) (reply : SubscriptionReply)
      (db : Db orm) {r : SubscriptionReply} {db' : Db orm}
      → store orm data_source rt action admin s reply db ≡ (ok r, db')
      → db'.subscriptions ≡ subscriptions.save s db.subscriptions
  unfolding store
  store-eq-ok action admin s reply db h = ground arith

  awaits-pending : (st : SubscriptionStatus) → awaits st ≡ true → st ≡ SubscriptionStatus.pending
  awaits-pending SubscriptionStatus.pending h = refl
  awaits-pending SubscriptionStatus.active h = cc
  awaits-pending SubscriptionStatus.rejected h = cc
  awaits-pending SubscriptionStatus.expired h = cc
  awaits-pending SubscriptionStatus.cancelled h = cc
  awaits-pending SubscriptionStatus.past_due h = cc

  -- The check that two operations make before they go on.
  pub pending_guard :
      (s : Subscription) (k : Unit {0} → Action (Db orm) SubscriptionReply) (db : Db orm)
      {r : SubscriptionReply} {db' : Db orm}
      → (throw_if (not (awaits s.status)) bad_request >>= k) db ≡ (ok r, db')
      → (s.status ≡ SubscriptionStatus.pending) × (k tt db ≡ (ok r, db'))
  pending_guard s k db h = elim (Bool-cases (awaits s.status)) [
    | inl y ↦ (awaits-pending s.status y, rw y at h)
    | inr o ↦ cc (rw o at h)
  ]
