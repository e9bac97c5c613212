-- ===== src/Billing/Payments/Tests.antt =====
-- Runs of the payment review.
use kigali_pack.Base.{◌≡◌, refl, none, some, inl}
use kigali_pack.Service.{ok, err, Result, bad_request, not_found}
use kigali_pack.Service.Rollback.{rollback}
use kigali_pack.Orm.Memory.{memory}
use kigali_pack.Billing.Db.{Db}
use kigali_pack.Billing.Examples.{in_memory, runtime, root_admin, start_db, payment, pro, alice}
use kigali_pack.Billing.Payments.{
  approve_payment, ReviewReply, ReviewStatus, approve_payment_body, pending_request,
  named_subscription, activate_subscription, find_plan, find_member, finish_approval,
}
use kigali_pack.Billing.Payments.Approval.{IsApproved, approve_payment-IsApproved}
use kigali_pack.Billing.Payments.Rejection.{
  reject_payment, reject_payment_body, finish_rejection, reject_named, IsRejected,
  reject_payment-IsRejected,
}
use kigali_pack.Billing.Payments.Once.{review_once}
use kigali_pack.Billing.Payments.Success.{approve_payment_returns}

abbrev approved_run : Result ReviewReply × Db in_memory
unfolding memory approve_payment
approved_run = approve_payment in_memory rollback runtime 100 0 root_admin none start_db

abbrev approved_reply : ReviewReply
approved_reply = record {
  payment_request_id = 0;
  subscription_id = some 1;
  status = ReviewStatus.approved;
}

approve_payment_start :
    approve_payment in_memory rollback runtime 100 0 root_admin none start_db
    ≡ (ok approved_reply, approved_run.1)
unfolding approve_payment memory approve_payment_body pending_request named_subscription
    activate_subscription find_plan find_member finish_approval
approve_payment_start = refl

approve_payment-IsApproved_example :
    IsApproved in_memory rollback runtime 100 0 root_admin approved_reply start_db approved_run.1
approve_payment-IsApproved_example =
    approve_payment-IsApproved in_memory rollback runtime 100 0 root_admin none start_db
      approve_payment_start

abbrev rejected_run : Result ReviewReply × Db in_memory
unfolding memory reject_payment
rejected_run = reject_payment in_memory rollback runtime 100 0 root_admin "blurred" start_db

abbrev rejected_reply : ReviewReply
rejected_reply = record {
  payment_request_id = 0;
  subscription_id = none;
  status = ReviewStatus.rejected;
}

reject_payment_start :
    reject_payment in_memory rollback runtime 100 0 root_admin "blurred" start_db
    ≡ (ok rejected_reply, rejected_run.1)
unfolding reject_payment memory reject_payment_body pending_request reject_named finish_rejection
reject_payment_start = refl

reject_payment-IsRejected_example :
    IsRejected in_memory rollback runtime 0 root_admin "blurred" start_db rejected_run.1
reject_payment-IsRejected_example =
    reject_payment-IsRejected in_memory rollback runtime 100 0 root_admin "blurred" start_db
      reject_payment_start

review_once_example :
    (approve_payment in_memory rollback runtime 200 0 root_admin none approved_run.1
      ≡ (err bad_request, approved_run.1))
    × (reject_payment in_memory rollback runtime 200 0 root_admin "late" approved_run.1
        ≡ (err bad_request, approved_run.1))
review_once_example =
    review_once in_memory rollback runtime 100 0 root_admin start_db 200 root_admin none "late"
      (inl (none, approve_payment_start))

-- The request 7 is not there.
approve_payment_missing :
    approve_payment in_memory rollback runtime 100 7 root_admin none start_db
    ≡ (err not_found, start_db)
unfolding approve_payment memory approve_payment_body pending_request
approve_payment_missing = refl

start_payment : in_memory.payment_requests.row start_db.payment_requests 0 ≡ some payment
unfolding memory
start_payment = refl

plan_of_payment : find_plan in_memory rollback runtime payment start_db ≡ some pro
unfolding memory find_plan
plan_of_payment = refl

member_of_payment : find_member in_memory rollback runtime payment start_db ≡ some alice
unfolding memory find_member
member_of_payment = refl

approve_payment_returns_example :
    (reply : ReviewReply) × (db' : Db in_memory) × (approve_payment in_memory rollback runtime 100 0
        root_admin none start_db
      ≡ (ok reply, db'))
approve_payment_returns_example =
    approve_payment_returns in_memory rollback runtime 100 0 root_admin none start_db payment
      start_payment refl plan_of_payment member_of_payment
