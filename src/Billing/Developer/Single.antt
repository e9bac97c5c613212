-- ===== src/Billing/Developer/Single.antt =====
-- A developer has one active subscription after subscribing and none after cancelling.
use text.Mathlib.TextPositions.{eq_refl}
use kigali_pack.Base.{
  ℕ, ◌≡◌, refl, sym, ap, ◌∙◌, Bool, true, false, Option, none, some, String, ◌==◌, if◌then◌else◌,
  arith, Option-cases, inl, inr, subst,
}
use kigali_pack.Service.{
  ok, found, DataSource, after_step, transaction_returns, found_same, found_reads, ok-injective,
}
use kigali_pack.Data.{Plan, Subscription, SubscriptionStatus}
use kigali_pack.Billing.Db.{Orm, Db, Runtime}
use kigali_pack.Billing.Payments.{insert_subscription}
use kigali_pack.Billing.Subscriptions.{find_active_plan, cancelled_from, tier_keys}
use kigali_pack.Billing.Developer.{
  active_of, SubscribeReply, CancelReply, find_active, cancel_existing, subscription_to,
  finish_subscribe, subscribe_body, subscribe, downgrade, cancel,
}

module _ (orm : Orm) (data_source : DataSource (Db orm)) (rt : Runtime) where
  open orm use {subscriptions}

  -- Whether the subscription under a key is an active one of the developer.
  abbrev pub active_row : String → Option Subscription → Bool
  active_row name none = false
  active_row name (some s) = active_of name s

  abbrev pub active_at : String → ℕ → Db orm → Bool
  active_at name j db = active_row name (subscriptions.row db.subscriptions j)

  abbrev pub is_at : Option ℕ → ℕ → Bool
  is_at none j = false
  is_at (some i) j = j == i

  -- The developer has at most one active subscription: none, or the one under a key.
  unfoldable pub IsSingle : String → Db orm → Type 0
  IsSingle name db = (o : Option ℕ) × ((j : ℕ) → active_at name j db ≡ is_at o j)

  cancelled_none :
      (now : ℕ) (name : String) (s : Subscription) (db : Db orm) (o : Option ℕ)
      → ((j : ℕ) → active_at name j db ≡ is_at o j)
      → find_active orm data_source rt name db ≡ some s
      → (j : ℕ)
      → active_row name (
          subscriptions.row
            (subscriptions.save (cancelled_from orm data_source rt now s) db.subscriptions)
            j)
        ≡ false
  unfolding find_active
  cancelled_none now name s db none single e j = ground (
    arith,
    single s.id,
    subscriptions.find_one-row (active_of name) db.subscriptions e,
    subscriptions.find_one-fits (active_of name) db.subscriptions e,
  )
  cancelled_none now name s db (some i) single e j = ground (
    arith,
    single s.id,
    single j,
    subscriptions.find_one-row (active_of name) db.subscriptions e,
    subscriptions.find_one-fits (active_of name) db.subscriptions e,
    subscriptions.row-save (cancelled_from orm data_source rt now s) db.subscriptions j,
  )

  only_of :
      (name : String) (j : ℕ) (s : Subscription) (old : Option Subscription)
      → active_of name s ≡ true
      → active_row name old ≡ false
      → active_row name (if s.id == j then some s else old) ≡ (j == s.id)
  only_of name j s old h k = ground arith

  cancel_found_none :
      (now : ℕ) (name : String) (db : Db orm)
      → IsSingle name db
      → (existing : Option Subscription) → find_active orm data_source rt name db ≡ existing
      → (j : ℕ) → active_at name j (cancel_existing orm data_source rt now existing db) ≡ false
  unfolding IsSingle cancel_existing find_active
  cancel_found_none now name db (o, single) none e j =
      elim (Option-cases (subscriptions.row db.subscriptions j)) [
        | inl gone ↦ rw gone
        | inr (s, at_j) ↦
            rw at_j (subscriptions.find_one-none (active_of name) db.subscriptions j e at_j)
      ]
  cancel_found_none now name db (o, single) (some s) e j = cancelled_none now name s db o single e j

  inserted_only :
      (now : ℕ) (name : String) (plan : Plan) (db db' : Db orm) {s : Subscription}
      → ((j : ℕ) → active_at name j db ≡ false)
      → insert_subscription orm data_source rt (subscription_to orm data_source rt now name plan) db
        ≡ (ok s, db')
      → (s.status ≡ SubscriptionStatus.active)
        × (s.developer_name ≡ name)
        × ((j : ℕ) → active_at name j db' ≡ (j == s.id))
  inserted_only now name plan db db' {s} clear h =
      let n = subscription_to orm data_source rt now name plan in
      let (same, db_same) = ok-injective h in
      let key = subscriptions.insert-same n db.subscriptions in
      let status = ap (λ s. s.status) (sym same ∙ key) in
      let owner = ap (λ s. s.developer_name) (sym same ∙ key) in
      let active : active_of name s ≡ true = rw (status, owner, eq_refl name) in
      (
        status,
        owner,
        λ j. rw (← db_same) (
            rw (subscriptions.row-insert n db.subscriptions j)
              (rw same (only_of name j s _ active (clear j)))),
      )

  finish_subscribe-eq-ok :
      (now : ℕ) (name : String) (plan : Plan) (s : Subscription) (db : Db orm) {r : SubscribeReply}
      {db' : Db orm}
      → finish_subscribe orm data_source rt now name plan s db ≡ (ok r, db')
      → (r.subscription ≡ s) × (db'.subscriptions ≡ db.subscriptions)
  unfolding finish_subscribe tier_keys
  finish_subscribe-eq-ok now name plan s db h = ground arith

  subscribe_body-only :
      (now : ℕ) (name : String) (plan : Plan) (db : Db orm) {r : SubscribeReply} {db' : Db orm}
      → IsSingle name db
      → subscribe_body orm data_source rt now name plan db ≡ (ok r, db')
      → (r.subscription.status ≡ SubscriptionStatus.active)
        × (r.subscription.developer_name ≡ name)
        × ((j : ℕ) → active_at name j db' ≡ (j == r.subscription.id))
  unfolding subscribe_body
  subscribe_body-only now name plan db {r} {db'} single h =
      let db1 =
        cancel_existing orm data_source rt now (find_active orm data_source rt name db) db in
      after_step
        (insert_subscription orm data_source rt (subscription_to orm data_source rt now name plan))
        _ db1 h
        λ s db2 at_s rest.
          let (status, owner, only) =
            inserted_only now name plan db1 db2 (cancel_found_none now name db single _ refl)
              at_s in
          let (same, rows) = finish_subscribe-eq-ok now name plan s db2 rest in
          (
            ap (λ x. x.status) same ∙ status,
            ap (λ x. x.developer_name) same ∙ owner,
            λ j.
                ap (λ t. active_row name (subscriptions.row t j)) rows
                ∙ only j
                ∙ ap (λ x. j == x.id) (sym same),
          )

  -- If a developer has at most one active subscription, then after it has subscribed to a plan the
  -- new subscription is an active one of the developer, and it is the only one.
  pub subscribe_single :
      (now : ℕ) (name plan_code : String) (db : Db orm) {r : SubscribeReply} {db' : Db orm}
      → IsSingle name db
      → subscribe orm data_source rt now name plan_code db ≡ (ok r, db')
      → (r.subscription.status ≡ SubscriptionStatus.active)
        × (r.subscription.developer_name ≡ name)
        × ((j : ℕ) → active_at name j db' ≡ (j == r.subscription.id))
  unfolding subscribe
  subscribe_single now name plan_code db {r} {db'} single h =
      after_step (found (find_active_plan orm data_source rt plan_code) _) _ db h
        λ plan db1 at_plan rest. subscribe_body-only now name plan db single (
          transaction_returns data_source (subscribe_body orm data_source rt now name plan) db (
            subst
              (λ d.
                data_source.transaction (subscribe_body orm data_source rt now name plan) d
                ≡ (ok r, db'))
              (found_same (find_active_plan orm data_source rt plan_code) _ db at_plan) rest))

  downgrade-subscriptions :
      (name : String) (db : Db orm)
      → (downgrade orm data_source rt name db).subscriptions ≡ db.subscriptions
  unfolding downgrade tier_keys
  downgrade-subscriptions name db = ground arith

  -- If a developer has at most one active subscription, then after it has cancelled it has none.
  pub cancel_single :
      (now : ℕ) (name : String) (db : Db orm) {r : CancelReply} {db' : Db orm}
      → IsSingle name db
      → cancel orm data_source rt now name db ≡ (ok r, db')
      → (j : ℕ) → active_at name j db' ≡ false
  unfolding cancel cancel_existing
  cancel_single now name db {r} {db'} single h j =
      after_step (found (find_active orm data_source rt name) _) _ db h λ s db1 at_s rest.
        let saved : Db orm → Db orm = λ d. record d {
          subscriptions =
              subscriptions.save (cancelled_from orm data_source rt now s) d.subscriptions;
        } in
        let at_end : db'.subscriptions ≡ (saved db).subscriptions =
          ap (λ d. d.subscriptions) (sym (ok-injective rest).1)
          ∙ downgrade-subscriptions name (saved db1)
          ∙ ap (λ d. (saved d).subscriptions)
              (found_same (find_active orm data_source rt name) _ db at_s) in
        ap (λ t. active_row name (subscriptions.row t j)) at_end
        ∙ cancel_found_none now name db single (some s)
            (found_reads (find_active orm data_source rt name) _ db at_s) j
