-- ===== src/Billing/Subscriptions/Performed.antt =====
-- Each operation of the admins takes a step.
use text.Mathlib.Text.{◌==◌ as str_eq}
use kigali_pack.Base.{
  ◌⊎◌, inl, inr, ◌≢◌, some, Bool, true, false, ◌&&◌, subst, ℕ, ◌≡◌, refl, ◌∙◌, String, ap, sym,
}
use kigali_pack.Service.{
  ok, ok-injective, found_same, found_reads, DataSource, after_step, transaction_returns, found,
}
use kigali_pack.Data.{JwtPayload, Plan, Subscription, SubscriptionStatus}
use kigali_pack.Billing.Db.{Orm, Db, ℤ, Runtime}
use kigali_pack.Billing.Subscriptions.{
  SubscriptionReply, revived, load_subscription, approved_from, approve_subscription, rejected_from,
  reject_subscription, cancelled_from, cancel_subscription, expired_from, expire_subscription,
  extended_from, extend_subscription, find_active_plan, tier_keys, change_subscription_plan,
}
use kigali_pack.Billing.Subscriptions.Steps.{
  Operation, approve, reject, cancel, expire, extend, change_plan, activated, refused, cancelled,
  ended, prolonged, reopened, moved, Step, perform, HasStepped, IsNamed, load_subscription-eq-ok,
  saved-HasStepped, store-eq-ok, pending_guard,
}

module _ (orm : Orm) (data_source : DataSource (Db orm)) (rt : Runtime) where
  approve_subscription-HasStepped :
      (now id : ℕ) (admin : JwtPayload) (db : Db orm) {r : SubscriptionReply} {db' : Db orm}
      → approve_subscription orm data_source rt now id admin db ≡ (ok r, db')
      → HasStepped orm data_source rt approve now id db db'
  unfolding approve_subscription
  approve_subscription-HasStepped now id admin db {r} {db'} h =
      after_step (load_subscription orm data_source rt id) _ db
        (transaction_returns data_source _ db h)
        λ s db1 at_s rest.
          let (pend, rest') = pending_guard orm data_source rt s _ db1 rest in
          saved-HasStepped orm data_source rt approve now id s
            (approved_from orm data_source rt now s) db db1 db'
            (load_subscription-eq-ok orm data_source rt id db at_s) refl (activated pend)
            (λ code e. cc) (store-eq-ok orm data_source rt _ admin _ _ db1 rest')

  reject_subscription-HasStepped :
      (now id : ℕ) (admin : JwtPayload) (db : Db orm) {r : SubscriptionReply} {db' : Db orm}
      → reject_subscription orm data_source rt id admin db ≡ (ok r, db')
      → HasStepped orm data_source rt reject now id db db'
  unfolding reject_subscription
  reject_subscription-HasStepped now id admin db {r} {db'} h =
      after_step (load_subscription orm data_source rt id) _ db
        (transaction_returns data_source _ db h)
        λ s db1 at_s rest.
          let (pend, rest') = pending_guard orm data_source rt s _ db1 rest in
          saved-HasStepped orm data_source rt reject now id s (rejected_from orm data_source rt s)
            db db1 db' (load_subscription-eq-ok orm data_source rt id db at_s) refl (refused pend)
            (λ code e. cc) (store-eq-ok orm data_source rt _ admin _ _ db1 rest')

  cancel_subscription-HasStepped :
      (now id : ℕ) (admin : JwtPayload) (db : Db orm) {r : SubscriptionReply} {db' : Db orm}
      → cancel_subscription orm data_source rt now id admin db ≡ (ok r, db')
      → HasStepped orm data_source rt cancel now id db db'
  unfolding cancel_subscription
  cancel_subscription-HasStepped now id admin db {r} {db'} h =
      after_step (load_subscription orm data_source rt id) _ db
        (transaction_returns data_source _ db h)
        λ s db1 at_s rest.
          saved-HasStepped orm data_source rt cancel now id s
            (cancelled_from orm data_source rt now s) db db1 db'
            (load_subscription-eq-ok orm data_source rt id db at_s) refl cancelled (λ code e. cc)
            (store-eq-ok orm data_source rt _ admin _ _ db1 rest)

  expire_subscription-HasStepped :
      (now id : ℕ) (admin : JwtPayload) (db : Db orm) {r : SubscriptionReply} {db' : Db orm}
      → expire_subscription orm data_source rt id admin db ≡ (ok r, db')
      → HasStepped orm data_source rt expire now id db db'
  unfolding expire_subscription
  expire_subscription-HasStepped now id admin db {r} {db'} h =
      after_step (load_subscription orm data_source rt id) _ db
        (transaction_returns data_source _ db h)
        λ s db1 at_s rest.
          saved-HasStepped orm data_source rt expire now id s (expired_from orm data_source rt s) db
            db1 db' (load_subscription-eq-ok orm data_source rt id db at_s) refl ended
            (λ code e. cc) (store-eq-ok orm data_source rt _ admin _ _ db1 rest)

  revived_cases :
      (st : SubscriptionStatus)
      → ((st ≡ SubscriptionStatus.expired) × (revived st ≡ SubscriptionStatus.active))
        ⊎ ((st ≢ SubscriptionStatus.expired) × (revived st ≡ st))
  revived_cases SubscriptionStatus.expired = inl (refl, refl)
  revived_cases SubscriptionStatus.pending = inr (λ e. cc, refl)
  revived_cases SubscriptionStatus.active = inr (λ e. cc, refl)
  revived_cases SubscriptionStatus.rejected = inr (λ e. cc, refl)
  revived_cases SubscriptionStatus.cancelled = inr (λ e. cc, refl)
  revived_cases SubscriptionStatus.past_due = inr (λ e. cc, refl)

  extended_from-Step :
      (now : ℕ) (days : ℤ) (s : Subscription)
      → Step rt now (extend days) s (extended_from orm data_source rt days s)
  extended_from-Step now days s =
      let made : SubscriptionStatus → Subscription = λ st. record s {
        status = st;
        current_period_end = rt.add_days days s.current_period_end;
      } in
      elim (revived_cases s.status) [
        | inl (over, active) ↦
            subst (λ st. Step rt now (extend days) s (made st)) (sym active) (reopened days over)
        | inr (going, same) ↦
            subst (λ st. Step rt now (extend days) s (made st)) (sym same) (prolonged days going)
      ]

  extend_subscription-HasStepped :
      (now id : ℕ) (days : ℤ) (admin : JwtPayload) (db : Db orm) {r : SubscriptionReply}
      {db' : Db orm}
      → extend_subscription orm data_source rt id days admin db ≡ (ok r, db')
      → HasStepped orm data_source rt (extend days) now id db db'
  unfolding extend_subscription
  extend_subscription-HasStepped now id days admin db {r} {db'} h =
      after_step (load_subscription orm data_source rt id) _ db
        (transaction_returns data_source _ db h)
        λ s db1 at_s rest.
          saved-HasStepped orm data_source rt (extend days) now id s
            (extended_from orm data_source rt days s) db db1 db'
            (load_subscription-eq-ok orm data_source rt id db at_s) refl
            (extended_from-Step now days s) (λ code e. cc)
            (store-eq-ok orm data_source rt _ admin _ _ db1 rest)

  find_active_plan-IsNamed :
      (code : String) (db : Db orm) {plan : Plan}
      → find_active_plan orm data_source rt code db ≡ some plan
      → IsNamed orm data_source rt code plan.id db
  unfolding find_active_plan
  find_active_plan-IsNamed code db {plan} h =
      let named = λ (p : Plan). str_eq p.code (rt.to_upper code) && p.is_active in
      let (coded, offered) = both _ _ (orm.plans.find_one-fits named db.plans h) in
      record {
        plan = plan;
        stored = orm.plans.find_one-row named db.plans h;
        coded = coded;
        offered = offered;
      }
    where
      both : (a b : Bool) → a && b ≡ true → (a ≡ true) × (b ≡ true)
      both true b h = (refl, h)
      both false b h = cc

  abbrev code_of : String → Operation → String
  code_of other (change_plan code) = code
  code_of other _ = other

  change_subscription_plan-HasStepped :
      (now id : ℕ) (code : String) (admin : JwtPayload) (db : Db orm) {r : SubscriptionReply}
      {db' : Db orm}
      → change_subscription_plan orm data_source rt id code admin db ≡ (ok r, db')
      → HasStepped orm data_source rt (change_plan code) now id db db'
  unfolding change_subscription_plan tier_keys
  change_subscription_plan-HasStepped now id code admin db {r} {db'} h =
      after_step (load_subscription orm data_source rt id) _ db
        (transaction_returns data_source _ db h)
        λ s db1 at_s rest.
          after_step (found (find_active_plan orm data_source rt code) _) _ db1 rest
            λ plan db2 at_plan rest'.
              saved-HasStepped orm data_source rt (change_plan code) now id s
                (record s { plan_id = plan.id }) db db1 db'
                (load_subscription-eq-ok orm data_source rt id db at_s) refl (moved code plan.id)
                (λ c e.
                  subst (λ x. IsNamed orm data_source rt x plan.id db) (ap (code_of code) e)
                    (subst (λ d. IsNamed orm data_source rt code plan.id d)
                      (load_subscription-eq-ok orm data_source rt id db at_s).0
                      (find_active_plan-IsNamed code db1
                        (found_reads (find_active_plan orm data_source rt code) _ db1 at_plan))))
                (sym (ap (λ d. d.subscriptions) (ok-injective rest').1)
                  ∙ ap
                      (λ d. orm.subscriptions.save (record s { plan_id = plan.id }) d.subscriptions)
                      (found_same (find_active_plan orm data_source rt code) _ db1 at_plan))

  -- An operation that returns has taken its own step of the relation on the subscription that it
  -- names: a change of plan to the key of a stored and active plan with the code; and it has left
  -- every other subscription as it was.
  pub perform-HasStepped :
      (op : Operation) (now id : ℕ) (admin : JwtPayload) (db : Db orm) {r : SubscriptionReply}
      {db' : Db orm}
      → perform orm data_source rt op now id admin db ≡ (ok r, db')
      → HasStepped orm data_source rt op now id db db'
  unfolding perform
  perform-HasStepped approve now id admin db h = approve_subscription-HasStepped now id admin db h
  perform-HasStepped reject now id admin db h = reject_subscription-HasStepped now id admin db h
  perform-HasStepped cancel now id admin db h = cancel_subscription-HasStepped now id admin db h
  perform-HasStepped expire now id admin db h = expire_subscription-HasStepped now id admin db h
  perform-HasStepped (extend days) now id admin db h =
      extend_subscription-HasStepped now id days admin db h
  perform-HasStepped (change_plan code) now id admin db h =
      change_subscription_plan-HasStepped now id code admin db h
