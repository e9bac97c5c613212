-- ===== src/Billing/Payments/Approval.antt =====
-- What an approved payment has done.

use kigali_pack.Base.{
  ℕ, ◌≡◌, ◌≢◌, refl, sym, ap, ◌∙◌, Option, none, some, String, ◌==◌, arith, Option-cases, inl, inr,
}
use mathlib.Core.Path.{subst₂}
use kigali_pack.Service.{ok-injective, after_step, ok, DataSource, transaction_returns}
use kigali_pack.Data.{
  Member, JwtPayload, Plan, Subscription, PaymentRequest, PaymentRequestStatus, SubscriptionStatus,
}
use kigali_pack.Orm.{find_one-key, row-save_self, row-save_ne, row-insert_self, row-insert_ne}
use kigali_pack.Billing.Db.{Orm, Db, Runtime}
use kigali_pack.Billing.Payments.{
  ReviewReply, find_plan, find_member, new_subscription, insert_subscription, pending_request,
  activate_subscription, named_subscription, raise_tier, finish_approval, as_approved,
  approve_payment_body, approve_payment,
}

module _ (orm : Orm) (data_source : DataSource (Db orm)) (rt : Runtime) where
  open orm use {
    members, api_keys, plans, subscriptions, invoices, payment_requests, audit_logs, notifications,
  }

  -- The request that is reviewed is the stored one, it is pending, and nothing is written yet.
  pub pending_request-eq-ok :
      (id : ℕ) (db : Db orm) {p : PaymentRequest} {db' : Db orm}
      → pending_request orm data_source rt id db ≡ (ok p, db')
      → (db' ≡ db)
        × (payment_requests.row db.payment_requests id ≡ some p)
        × (p.status ≡ PaymentRequestStatus.pending)
  unfolding pending_request
  pending_request-eq-ok id db {p} h =
      elim (Option-cases (payment_requests.find_one (λ r. r.id == id) db.payment_requests)) [
        | inl gone ↦ ground arith
        | inr (q, e) ↦ ground (arith, find_one-key payment_requests id db.payment_requests e)
      ]

  -- The subscription that is activated: it runs for a month from now, it is stored, and no other
  -- subscription and no other table has changed.
  pub record IsActivated (now : ℕ) (db db' : Db orm) (s : Subscription) : Type 0 where
    pub status : s.status ≡ SubscriptionStatus.active
    pub start : s.current_period_start ≡ now
    pub end : s.current_period_end ≡ rt.add_month now
    pub stored : subscriptions.row db'.subscriptions s.id ≡ some s
    pub others :
        (i : ℕ)
        → s.id ≢ i
        → subscriptions.row db'.subscriptions i ≡ subscriptions.row db.subscriptions i
    pub tables : db' ≡ record db { subscriptions = db'.subscriptions }

  inserted-IsActivated :
      (now : ℕ) (plan : Plan) (member : Member) (db : Db orm) {s : Subscription} {db' : Db orm}
      → insert_subscription orm data_source rt
          (new_subscription orm data_source rt now plan member)
          db
        ≡ (ok s, db')
      → IsActivated now db db' s
  inserted-IsActivated now plan member db h =
      let (same, db_same) = ok-injective h in
      let n = new_subscription orm data_source rt now plan member in
      let key = subscriptions.insert-same n db.subscriptions in
      subst₂ (λ s t. IsActivated now db t s) same db_same
        (record {
          status = ap (λ s. s.status) key;
          start = ap (λ s. s.current_period_start) key;
          end = ap (λ s. s.current_period_end) key;
          stored = row-insert_self subscriptions n db.subscriptions;
          others = λ i. row-insert_ne subscriptions n db.subscriptions i;
          tables = refl;
        })

  pub activate_new :
      (now : ℕ) (p : PaymentRequest) (plan : Plan) (member : Member) (db : Db orm)
      → find_plan orm data_source rt p db ≡ some plan
      → find_member orm data_source rt p db ≡ some member
      → activate_subscription orm data_source rt now p none db
        ≡ insert_subscription orm data_source rt
            (new_subscription orm data_source rt now plan member)
            db
  unfolding activate_subscription
  activate_new now p plan member db e e' = ground arith

  activate_subscription-eq-ok :
      (now : ℕ) (p : PaymentRequest) (o : Option Subscription) (db : Db orm) {s : Subscription}
      {db' : Db orm}
      → activate_subscription orm data_source rt now p o db ≡ (ok s, db')
      → IsActivated now db db' s
  unfolding activate_subscription
  activate_subscription-eq-ok now p none db {s} {db'} h =
      elim (Option-cases (find_plan orm data_source rt p db)) [
        | inl gone ↦ ground arith
        | inr (plan, e) ↦ elim (Option-cases (find_member orm data_source rt p db)) [
          | inl gone ↦ ground arith
          | inr (member, e') ↦
              inserted-IsActivated now plan member db
                (sym (activate_new now p plan member db e e') ∙ h)
        ]
      ]
  activate_subscription-eq-ok now p (some s0) db h =
      let (same, db_same) = ok-injective h in
      let s1 = record s0 {
        status = SubscriptionStatus.active;
        current_period_start = now;
        current_period_end = rt.add_month now;
      } in
      subst₂ (λ s t. IsActivated now db t s) same db_same
        (record {
          status = refl;
          start = refl;
          end = refl;
          stored = row-save_self subscriptions s1 db.subscriptions;
          others = λ i. row-save_ne subscriptions s1 db.subscriptions i;
          tables = refl;
        })

  -- What the approval of the request `id` by `admin` has done: the request was pending and is
  -- marked as approved by that admin; the replied subscription runs for a month from now; every
  -- other request and subscription, and the plans and members, are as they were.
  pub record IsApproved (now id : ℕ) (admin : JwtPayload) (reply : ReviewReply) (db db' : Db orm)
      : Type 0 where
    pub request : PaymentRequest
    pub subscription : Subscription
    pub before : payment_requests.row db.payment_requests id ≡ some request
    pub pending : request.status ≡ PaymentRequestStatus.pending
    pub approved : PaymentRequest
    pub after : payment_requests.row db'.payment_requests id ≡ some approved
    pub marked : approved.status ≡ PaymentRequestStatus.approved
    pub reviewer : approved.reviewed_by ≡ some admin.sub
    pub other_requests :
        (i : ℕ)
        → id ≢ i
        → payment_requests.row db'.payment_requests i ≡ payment_requests.row db.payment_requests i
    pub replied : reply.subscription_id ≡ some subscription.id
    pub status : subscription.status ≡ SubscriptionStatus.active
    pub start : subscription.current_period_start ≡ now
    pub end : subscription.current_period_end ≡ rt.add_month now
    pub stored : subscriptions.row db'.subscriptions subscription.id ≡ some subscription
    pub other_subscriptions :
        (i : ℕ)
        → subscription.id ≢ i
        → subscriptions.row db'.subscriptions i ≡ subscriptions.row db.subscriptions i
    pub same_plans : db'.plans ≡ db.plans
    pub same_members : db'.members ≡ db.members

  -- What follows the activation leaves the requests, the subscriptions, the plans and the members.
  finish_approval-eq-ok :
      (now : ℕ) (admin : JwtPayload) (p : PaymentRequest) (s : Subscription) (db : Db orm)
      {reply : ReviewReply} {db' : Db orm}
      → finish_approval orm data_source rt now admin p s db ≡ (ok reply, db')
      → (reply.subscription_id ≡ some s.id)
        × (db'.payment_requests ≡ db.payment_requests)
        × (db'.subscriptions ≡ db.subscriptions)
        × (db'.plans ≡ db.plans)
        × (db'.members ≡ db.members)
  unfolding finish_approval raise_tier
  finish_approval-eq-ok now admin p s db h = ground arith

  IsApproved-by_parts :
      (now id : ℕ) (admin : JwtPayload) (notes : Option String) (p : PaymentRequest)
      (db db1 db2 db' : Db orm) (s : Subscription) (reply : ReviewReply)
      → (db1 ≡ db)
        × (payment_requests.row db.payment_requests id ≡ some p)
        × (p.status ≡ PaymentRequestStatus.pending)
      → let p' = as_approved orm data_source rt now admin notes p in
        IsActivated now
          (record db1 { payment_requests = payment_requests.save p' db1.payment_requests })
          db2
          s
        → (reply.subscription_id ≡ some s.id)
          × (db'.payment_requests ≡ db2.payment_requests)
          × (db'.subscriptions ≡ db2.subscriptions)
          × (db'.plans ≡ db2.plans)
          × (db'.members ≡ db2.members)
        → IsApproved now id admin reply db db'
  IsApproved-by_parts now id admin notes p db db1 db2 db' s reply (same, stored, pend) act
        (replied, pays, subs, plans_same, members_same) =
      let p' = as_approved orm data_source rt now admin notes p in
      let pid : p.id ≡ id = payment_requests.key-row db.payment_requests id stored in
      let saved : db'.payment_requests ≡ payment_requests.save p' db.payment_requests =
        pays
        ∙ ap (λ d. d.payment_requests) act.tables
        ∙ ap (λ d. payment_requests.save p' d.payment_requests) same in
      let here : payment_requests.row db'.payment_requests id ≡ some p' =
        rw (saved, ← pid) (row-save_self payment_requests p' db.payment_requests) in
      record {
        request = p;
        subscription = s;
        before = stored;
        pending = pend;
        approved = p';
        after = here;
        marked = refl;
        reviewer = refl;
        other_requests = λ i ne.
            rw saved
              (row-save_ne payment_requests p' db.payment_requests i (λ q. ne (sym pid ∙ q)));
        replied = replied;
        status = act.status;
        start = act.start;
        end = act.end;
        stored = rw subs act.stored;
        other_subscriptions =
            λ i ne. rw subs (act.others i ne ∙ ap (λ d. subscriptions.row d.subscriptions i) same);
        same_plans = plans_same ∙ ap (λ d. d.plans) act.tables ∙ ap (λ d. d.plans) same;
        same_members = members_same ∙ ap (λ d. d.members) act.tables ∙ ap (λ d. d.members) same;
      }

  approve_payment_body-IsApproved :
      (now id : ℕ) (admin : JwtPayload) (notes : Option String) (db : Db orm) {reply : ReviewReply}
      {db' : Db orm}
      → approve_payment_body orm data_source rt now id admin notes db ≡ (ok reply, db')
      → IsApproved now id admin reply db db'
  unfolding approve_payment_body named_subscription
  approve_payment_body-IsApproved now id admin notes db {reply} {db'} h =
      after_step (pending_request orm data_source rt id) _ db h λ p db1 at_p h1.
        after_step
          (activate_subscription orm data_source rt now
            (as_approved orm data_source rt now admin notes p) _)
          _ _ h1
          λ s db2 at_s h2.
            IsApproved-by_parts now id admin notes p db db1 db2 db' s reply
              (pending_request-eq-ok id db at_p)
              (activate_subscription-eq-ok now (as_approved orm data_source rt now admin notes p) _
                _ at_s)
              (finish_approval-eq-ok now admin (as_approved orm data_source rt now admin notes p) s
                db2 h2)

  -- An approval that returns has marked the request, and has activated the replied subscription for
  -- a month from now; it touches no other request and no other subscription.
  pub approve_payment-IsApproved :
      (now id : ℕ) (admin : JwtPayload) (notes : Option String) (db : Db orm) {reply : ReviewReply}
      {db' : Db orm}
      → approve_payment orm data_source rt now id admin notes db ≡ (ok reply, db')
      → IsApproved now id admin reply db db'
  unfolding approve_payment
  approve_payment-IsApproved now id admin notes db h =
      approve_payment_body-IsApproved now id admin notes db (
        transaction_returns data_source (approve_payment_body orm data_source rt now id admin notes)
          db h)
