-- ===== src/Billing/Payments/Once.antt =====
-- A payment is reviewed once, and a review that fails changes nothing.
use kigali_pack.Base.{
  ℕ, ◌≡◌, ap, false, Option, some, String, ◌==◌, arith, Bool-cases, Option-cases, ◌⊎◌, inl, inr,
}
use kigali_pack.Service.{ok, err, bad_request, DataSource}
use kigali_pack.Data.{JwtPayload, PaymentRequest}
use kigali_pack.Orm.{find_one-key}
use kigali_pack.Billing.Db.{Orm, Db, Runtime}
use kigali_pack.Billing.Payments.{
  is_pending, ReviewReply, pending_request, approve_payment_body, approve_payment,
}
use kigali_pack.Billing.Payments.Approval.{approve_payment-IsApproved}
use kigali_pack.Billing.Payments.Rejection.{
  reject_payment_body, reject_payment, reject_payment-IsRejected,
}

module _ (orm : Orm) (data_source : DataSource (Db orm)) (rt : Runtime) where
  open orm use {payment_requests}

  pending_request-reviewed :
      (id : ℕ) (p : PaymentRequest) (db : Db orm)
      → payment_requests.row db.payment_requests id ≡ some p
      → is_pending p.status ≡ false
      → pending_request orm data_source rt id db ≡ (err bad_request, db)
  unfolding pending_request
  pending_request-reviewed id p db stored done =
      elim (Option-cases (payment_requests.find_one (λ r. r.id == id) db.payment_requests)) [
        | inl gone ↦ ground (
          arith,
          payment_requests.find_one-none (λ r. r.id == id) db.payment_requests id gone stored,
          payment_requests.key-row db.payment_requests id stored,
        )
        | inr (q, e) ↦ ground (arith, find_one-key payment_requests id db.payment_requests e)
      ]

  approve_payment_refused :
      (now id : ℕ) (admin : JwtPayload) (notes : Option String) (db : Db orm)
      → pending_request orm data_source rt id db ≡ (err bad_request, db)
      → approve_payment orm data_source rt now id admin notes db ≡ (err bad_request, db)
  unfolding approve_payment approve_payment_body
  approve_payment_refused now id admin notes db e =
      data_source.transaction-err (approve_payment_body orm data_source rt now id admin notes) db
        {s' = db} (rw e)

  reject_payment_refused :
      (now id : ℕ) (admin : JwtPayload) (reason : String) (db : Db orm)
      → pending_request orm data_source rt id db ≡ (err bad_request, db)
      → reject_payment orm data_source rt now id admin reason db ≡ (err bad_request, db)
  unfolding reject_payment reject_payment_body
  reject_payment_refused now id admin reason db e = elim (Bool-cases (rt.trim_is_empty reason)) [
    | inl blank ↦ rw blank
    | inr given ↦ rw given (
        data_source.transaction-err (reject_payment_body orm data_source rt now id admin reason) db
          {s' = db} (rw e))
  ]

  reviewed_refused :
      (id : ℕ) (p : PaymentRequest) (now : ℕ) (admin : JwtPayload) (notes : Option String)
      (reason : String) (db : Db orm)
      → payment_requests.row db.payment_requests id ≡ some p
      → is_pending p.status ≡ false
      → (approve_payment orm data_source rt now id admin notes db ≡ (err bad_request, db))
        × (reject_payment orm data_source rt now id admin reason db ≡ (err bad_request, db))
  reviewed_refused id p now admin notes reason db stored done =
      let e = pending_request-reviewed id p db stored done in
      (
        approve_payment_refused now id admin notes db e,
        reject_payment_refused now id admin reason db e,
      )

  -- After an approval or a rejection of a request that has returned, every further approval and
  -- every further rejection of that request, by any admin and at any time, is answered by a bad
  -- request and changes nothing.
  pub review_once :
      (now id : ℕ) (admin : JwtPayload) (db : Db orm) {reply : ReviewReply} {db' : Db orm}
      (later : ℕ) (other : JwtPayload) (notes : Option String) (reason : String)
      → ((first : Option String) × (approve_payment orm data_source rt now id admin first db
            ≡ (ok reply, db')))
        ⊎ ((first : String) × (reject_payment orm data_source rt now id admin first db
              ≡ (ok reply, db')))
      → (approve_payment orm data_source rt later id other notes db' ≡ (err bad_request, db'))
        × (reject_payment orm data_source rt later id other reason db' ≡ (err bad_request, db'))
  review_once now id admin db {reply} {db'} later other notes reason (inl (first, h)) =
      let done = approve_payment-IsApproved orm data_source rt now id admin first db h in
      reviewed_refused id done.approved later other notes reason db' done.after
        (ap is_pending done.marked)
  review_once now id admin db {reply} {db'} later other notes reason (inr (first, h)) =
      let done = reject_payment-IsRejected orm data_source rt now id admin first db h in
      reviewed_refused id done.rejected later other notes reason db' done.after
        (ap is_pending done.status)
