-- ===== src/Billing/Payments/Success.antt =====
-- When an approval goes through.
use kigali_pack.Base.{ℕ, ◌≡◌, refl, Option, none, some, String, ◌==◌, arith, Option-cases, inl, inr}
use kigali_pack.Service.{Result, ok, DataSource, step}
use kigali_pack.Data.{JwtPayload, PaymentRequest, PaymentRequestStatus, Plan, Member, Subscription}
use kigali_pack.Orm.{find_one-key}
use kigali_pack.Billing.Db.{Orm, Db, Runtime}
use kigali_pack.Billing.Payments.Approval.{activate_new}
use kigali_pack.Billing.Payments.{
  ReviewReply, pending_request, find_plan, find_member, activate_subscription, finish_approval,
  approve_payment_body, approve_payment, as_approved, named_subscription,
}

module _ (orm : Orm) (data_source : DataSource (Db orm)) (rt : Runtime) where
  open orm use {payment_requests}

  Returns : {A : Type 0} → Result A × Db orm → Type 0
  Returns {A} r = (a : A) × (db' : Db orm) × (r ≡ (ok a, db'))

  pending_request-stored :
      (id : ℕ) (db : Db orm) (p : PaymentRequest)
      → payment_requests.row db.payment_requests id ≡ some p
      → p.status ≡ PaymentRequestStatus.pending
      → pending_request orm data_source rt id db ≡ (ok p, db)
  unfolding pending_request
  pending_request-stored id db p stored pend =
      elim (Option-cases (payment_requests.find_one (λ r. r.id == id) db.payment_requests)) [
        | inl gone ↦ ground (
          arith,
          payment_requests.find_one-none (λ r. r.id == id) db.payment_requests id gone stored,
          payment_requests.key-row db.payment_requests id stored,
        )
        | inr (q, e) ↦ ground (arith, find_one-key payment_requests id db.payment_requests e)
      ]

  abbrev named_by : PaymentRequest → Db orm → Option Subscription
  named_by p db = elim p.subscription_id [
    | none ↦ none
    | some sid ↦ orm.subscriptions.find_one (λ s. s.id == sid) db.subscriptions
  ]

  activate_subscription-Returns :
      (now : ℕ) (p : PaymentRequest) (o : Option Subscription) (db : Db orm) {plan : Plan}
      {member : Member}
      → find_plan orm data_source rt p db ≡ some plan
      → find_member orm data_source rt p db ≡ some member
      → Returns (activate_subscription orm data_source rt now p o db)
  unfolding activate_subscription Returns
  activate_subscription-Returns now p none db {plan} {member} e e' =
      (_, _, activate_new orm data_source rt now p plan member db e e')
  activate_subscription-Returns now p (some s) db e e' = (_, _, refl)

  finish_approval-Returns :
      (now : ℕ) (admin : JwtPayload) (p : PaymentRequest) (s : Subscription) (db : Db orm)
      → Returns (finish_approval orm data_source rt now admin p s db)
  unfolding finish_approval Returns
  finish_approval-Returns now admin p s db = (_, _, refl)

  -- An approval returns when the request is stored and pending, and the plan that it names and the
  -- member that made it are found.
  pub approve_payment_returns :
      (now id : ℕ) (admin : JwtPayload) (notes : Option String) (db : Db orm) (p : PaymentRequest)
      {plan : Plan} {member : Member}
      → payment_requests.row db.payment_requests id ≡ some p
      → p.status ≡ PaymentRequestStatus.pending
      → find_plan orm data_source rt p db ≡ some plan
      → find_member orm data_source rt p db ≡ some member
      → (reply : ReviewReply) × (db' : Db orm) × (approve_payment orm data_source rt now id admin
            notes db
          ≡ (ok reply, db'))
  unfolding approve_payment approve_payment_body named_subscription Returns find_plan find_member
  approve_payment_returns now id admin notes db p stored pend e e' =
      let p' = as_approved orm data_source rt now admin notes p in
      let db1 : Db orm = record db {
        payment_requests = payment_requests.save p' db.payment_requests;
      } in
      let (s, db2, at_s) = activate_subscription-Returns now p' (named_by p' db1) db1 e e' in
      let (reply, db3, at_end) = finish_approval-Returns now admin p' s db2 in
      (
        reply,
        db3,
        data_source.transaction-ok (approve_payment_body orm data_source rt now id admin notes) db (
            step (pending_request orm data_source rt id) _ db
              (pending_request-stored id db p stored pend)
              (step (activate_subscription orm data_source rt now p' (named_by p' db1)) _ db1 at_s
                at_end)),
      )
