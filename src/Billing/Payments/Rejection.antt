-- ===== src/Billing/Payments/Rejection.antt =====
-- BillingAdminService.rejectPayment (modules/billing/billing-admin.service.ts).
use mathlib.Core.Option
use kigali_pack.Base.{
  ℕ, ◌≡◌, ◌≢◌, refl, sym, ap, ◌∙◌, Bool, false, Option, none, some, String, ◌==◌, if◌then◌else◌,
  arith, Bool-cases, Option-cases, inl, inr,
}
use kigali_pack.Service.{
  bad_request, Action, ok, pure, throw_if, ◌>>=◌, ◌>>◌, modify, DataSource, transaction_returns,
  after_step,
}
use kigali_pack.Data.{
  JwtPayload, Subscription, SubscriptionStatus, PaymentRequest, PaymentRequestStatus, AuditAction,
  NotificationType,
}
use kigali_pack.Orm.{row-save_self, row-save_ne}
use kigali_pack.Billing.Db.{Orm, Db, Runtime}
use kigali_pack.Billing.Payments.{
  ReviewReply, ReviewStatus, pending_request, save_payment, insert_audit, insert_notification,
  payment_audit, payment_notice,
}
use kigali_pack.Billing.Payments.Approval.{pending_request-eq-ok}

abbrev with_status : SubscriptionStatus → Subscription → Subscription
with_status status s = record s { status = status }

abbrev pub names : Option ℕ → ℕ → Bool
names none i = false
names (some sid) i = i == sid

module _ (orm : Orm) (data_source : DataSource (Db orm)) (rt : Runtime) where
  open orm use {subscriptions, payment_requests}

  abbrev pub as_rejected : ℕ → JwtPayload → String → PaymentRequest → PaymentRequest
  as_rejected now admin reason p = record p {
    status = PaymentRequestStatus.rejected;
    reviewed_by = some admin.sub;
    reviewed_by_email = some admin.email;
    reviewed_at = some now;
    rejection_reason = some reason;
  }

  -- `if (paymentRequest.subscriptionId)`
  unfoldable pub reject_named : PaymentRequest → Db orm → Db orm
  reject_named p db = elim p.subscription_id [
    | none ↦ db
    | some sid ↦ record db {
      subscriptions =
          subscriptions.update (λ s. s.id == sid) (with_status SubscriptionStatus.rejected)
            db.subscriptions;
    }
  ]

  -- From the update of the subscription to the reply.
  unfoldable pub finish_rejection : JwtPayload → PaymentRequest → Action (Db orm) ReviewReply
  finish_rejection admin p = do
    modify (reject_named p)
    insert_audit orm data_source rt (payment_audit AuditAction.payment_rejected admin p)
    insert_notification orm data_source rt (payment_notice NotificationType.payment_rejected p)
    pure (record {
      payment_request_id = p.id;
      subscription_id = none;
      status = ReviewStatus.rejected;
    })

  unfoldable pub reject_payment_body : ℕ → ℕ → JwtPayload → String → Action (Db orm) ReviewReply
  reject_payment_body now id admin reason = do
    payment_request ← pending_request orm data_source rt id
    let p = as_rejected now admin reason payment_request
    save_payment orm data_source rt p
    finish_rejection admin p

  unfoldable pub reject_payment : ℕ → ℕ → JwtPayload → String → Action (Db orm) ReviewReply
  reject_payment now id admin reason = do
    throw_if (rt.trim_is_empty reason) bad_request
    data_source.transaction (reject_payment_body now id admin reason)

  -- A subscription after a rejection: rejected if the request names it, and else as it was.
  abbrev pub rejected_if_named : PaymentRequest → ℕ → Option Subscription → Option Subscription
  rejected_if_named p i o =
      if names p.subscription_id i
      then Option.map (with_status SubscriptionStatus.rejected) o
      else o

  -- What the rejection of the request `id` by `admin` has done: the reason was given, the request
  -- was pending and is marked as rejected for that reason, the subscription that it names is
  -- rejected, and every other request and subscription and the other tables that customers see
  -- are as they were.
  pub record IsRejected (id : ℕ) (admin : JwtPayload) (reason : String) (db db' : Db orm)
      : Type 0 where
    pub given : rt.trim_is_empty reason ≡ false
    pub request : PaymentRequest
    pub before : payment_requests.row db.payment_requests id ≡ some request
    pub pending : request.status ≡ PaymentRequestStatus.pending
    pub rejected : PaymentRequest
    pub after : payment_requests.row db'.payment_requests id ≡ some rejected
    pub status : rejected.status ≡ PaymentRequestStatus.rejected
    pub reason_kept : rejected.rejection_reason ≡ some reason
    pub reviewer : rejected.reviewed_by ≡ some admin.sub
    pub other_requests :
        (i : ℕ)
        → id ≢ i
        → payment_requests.row db'.payment_requests i ≡ payment_requests.row db.payment_requests i
    pub same_subscriptions :
        (i : ℕ)
        → subscriptions.row db'.subscriptions i
          ≡ rejected_if_named request i (subscriptions.row db.subscriptions i)
    pub same_keys : db'.api_keys ≡ db.api_keys
    pub same_invoices : db'.invoices ≡ db.invoices
    pub same_plans : db'.plans ≡ db.plans
    pub same_members : db'.members ≡ db.members

  reject_update :
      (sid : ℕ) (t : subscriptions.Rows) (i : ℕ)
      → subscriptions.row
          (subscriptions.update (λ s. s.id == sid) (with_status SubscriptionStatus.rejected) t)
          i
        ≡ (if i == sid
            then Option.map (with_status SubscriptionStatus.rejected) (subscriptions.row t i)
            else subscriptions.row t i)
  reject_update sid t i = elim (Option-cases (subscriptions.row t i)) [
    | inl gone ↦ ground (
      arith,
      subscriptions.row-update (λ s. s.id == sid) (with_status SubscriptionStatus.rejected)
          (λ s. refl) t i,
    )
    | inr (s, at_i) ↦ ground (
      arith,
      subscriptions.key-row t i at_i,
      subscriptions.row-update (λ s. s.id == sid) (with_status SubscriptionStatus.rejected)
          (λ s. refl) t i,
    )
  ]

  reject_named-subscriptions :
      (p : PaymentRequest) (db : Db orm) (i : ℕ)
      → subscriptions.row (reject_named p db).subscriptions i
        ≡ rejected_if_named p i (subscriptions.row db.subscriptions i)
  unfolding reject_named
  reject_named-subscriptions p db i = elim (Option-cases p.subscription_id) [
    | inl none_named ↦ rw none_named
    | inr (sid, e) ↦ rw e (reject_update sid db.subscriptions i)
  ]

  finish_rejection-eq-ok :
      (admin : JwtPayload) (p : PaymentRequest) (db : Db orm) {reply : ReviewReply} {db' : Db orm}
      → finish_rejection admin p db ≡ (ok reply, db')
      → let db1 = reject_named p db in
        (db'.subscriptions ≡ db1.subscriptions)
        × (db'.payment_requests ≡ db1.payment_requests)
        × (db'.api_keys ≡ db1.api_keys)
        × (db'.invoices ≡ db1.invoices)
        × (db'.plans ≡ db1.plans)
        × (db'.members ≡ db1.members)
  unfolding finish_rejection
  finish_rejection-eq-ok admin p db h = ground arith

  -- `reject_named` touches only the subscriptions.
  reject_named-tables :
      (p : PaymentRequest) (db : Db orm)
      → reject_named p db ≡ record db { subscriptions = (reject_named p db).subscriptions }
  unfolding reject_named
  reject_named-tables p db = elim (Option-cases p.subscription_id) [
    | inl none_named ↦ rw none_named
    | inr (sid, e) ↦ rw e
  ]

  IsRejected-by_parts :
      (now id : ℕ) (admin : JwtPayload) (reason : String) (p : PaymentRequest) (db db1 db' : Db orm)
      → rt.trim_is_empty reason ≡ false
      → (db1 ≡ db)
        × (payment_requests.row db.payment_requests id ≡ some p)
        × (p.status ≡ PaymentRequestStatus.pending)
      → let p' = as_rejected now admin reason p in
        let saved = record db1 {
          payment_requests = payment_requests.save p' db1.payment_requests;
        } in
        let db2 = reject_named p' saved in
        (db'.subscriptions ≡ db2.subscriptions)
          × (db'.payment_requests ≡ db2.payment_requests)
          × (db'.api_keys ≡ db2.api_keys)
          × (db'.invoices ≡ db2.invoices)
          × (db'.plans ≡ db2.plans)
          × (db'.members ≡ db2.members)
        → IsRejected id admin reason db db'
  IsRejected-by_parts now id admin reason p db db1 db' given (same, stored, pend)
        (subs, pays, keys, invs, plans_same, members_same) =
      let p' = as_rejected now admin reason p in
      let saved = record db1 { payment_requests = payment_requests.save p' db1.payment_requests } in
      let tables = reject_named-tables p' saved in
      let pid : p.id ≡ id = payment_requests.key-row db.payment_requests id stored in
      let pays' : db'.payment_requests ≡ payment_requests.save p' db.payment_requests =
        pays
        ∙ ap (λ d. d.payment_requests) tables
        ∙ ap (λ d. payment_requests.save p' d.payment_requests) same in
      record {
        given = given;
        request = p;
        before = stored;
        pending = pend;
        rejected = p';
        after = rw (pays', ← pid) (row-save_self payment_requests p' db.payment_requests);
        status = refl;
        reason_kept = refl;
        reviewer = refl;
        other_requests = λ i ne.
            rw pays'
              (row-save_ne payment_requests p' db.payment_requests i (λ q. ne (sym pid ∙ q)));
        same_subscriptions = λ i.
            ap (λ t. subscriptions.row t i) subs
            ∙ reject_named-subscriptions p' saved i
            ∙ ap (λ d. rejected_if_named p i (subscriptions.row d.subscriptions i)) same;
        same_keys = keys ∙ ap (λ d. d.api_keys) tables ∙ ap (λ d. d.api_keys) same;
        same_invoices = invs ∙ ap (λ d. d.invoices) tables ∙ ap (λ d. d.invoices) same;
        same_plans = plans_same ∙ ap (λ d. d.plans) tables ∙ ap (λ d. d.plans) same;
        same_members = members_same ∙ ap (λ d. d.members) tables ∙ ap (λ d. d.members) same;
      }

  reject_payment_body-IsRejected :
      (now id : ℕ) (admin : JwtPayload) (reason : String) (db : Db orm) {reply : ReviewReply}
      {db' : Db orm}
      → rt.trim_is_empty reason ≡ false
      → reject_payment_body now id admin reason db ≡ (ok reply, db')
      → IsRejected id admin reason db db'
  unfolding reject_payment_body
  reject_payment_body-IsRejected now id admin reason db {reply} {db'} given h =
      after_step (pending_request orm data_source rt id) _ db h λ p db1 at_p rest.
        IsRejected-by_parts now id admin reason p db db1 db' given
          (pending_request-eq-ok orm data_source rt id db at_p)
          (finish_rejection-eq-ok admin (as_rejected now admin reason p) _ rest)

  -- A rejection that returns had a reason; it has marked the pending request and rejected the
  -- subscription that the request names, and has left every other request and subscription, the
  -- API keys, the invoices, the plans and the members as they were.
  pub reject_payment-IsRejected :
      (now id : ℕ) (admin : JwtPayload) (reason : String) (db : Db orm) {reply : ReviewReply}
      {db' : Db orm}
      → reject_payment now id admin reason db ≡ (ok reply, db')
      → IsRejected id admin reason db db'
  unfolding reject_payment
  reject_payment-IsRejected now id admin reason db h = elim (Bool-cases (rt.trim_is_empty reason)) [
    | inl blank ↦ cc (rw blank at h)
    | inr given ↦ reject_payment_body-IsRejected now id admin reason db given (
        transaction_returns data_source (reject_payment_body now id admin reason) db
          (rw given at h))
  ]
