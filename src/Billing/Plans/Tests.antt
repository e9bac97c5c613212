-- ===== src/Billing/Plans/Tests.antt =====
-- Runs of the operations on plans on the example database.
use kigali_pack.Base.{ℕ, ◌≡◌, ◌≢◌, refl, sym, ap, ◌∙◌, ◌⊎◌, inl, none, some, inr, arith}
use mathlib.Core.Option.{some-injective}
use native.Mathlib.Decide.{ℕ_discrete}
use kigali_pack.Service.{err, bad_request, query_failed}
use kigali_pack.Service.Rollback.{rollback}
use kigali_pack.Orm.Memory.{memory}
use kigali_pack.Data.{Plan}
use kigali_pack.Billing.Examples.{
  in_memory, runtime, root_admin, start_db, old_subscription, pro, free,
}
use kigali_pack.Billing.Plans.{CreatePlan, create_plan, delete_plan}
use kigali_pack.Billing.Plans.Sound.{IsSound, create, after, after-IsSound}

abbrev gold : CreatePlan
gold = record {
  code = "gold";
  name = "Gold";
  description = none;
  price_monthly_rwf = 9000000;
  rate_limit_per_hour = some 90000;
  features = none;
}

-- A code that is taken, and a plan that a subscription has, are refused.
create_taken :
    (create_plan in_memory rollback runtime (record gold { code = "PRO" }) root_admin start_db).0
    ≡ err bad_request
unfolding create_plan memory
create_taken = refl

delete_used :
    (delete_plan in_memory rollback runtime old_subscription.plan_id root_admin start_db).0
    ≡ err query_failed
unfolding delete_plan memory
delete_used = refl

start_plans :
    (i : ℕ) (p : Plan)
    → in_memory.plans.row start_db.plans i ≡ some p
    → ((i ≡ 0) × (free ≡ p)) ⊎ ((i ≡ 1) × (pro ≡ p))
unfolding memory
start_plans i p h = elim (ℕ_discrete i 0) [
  | yes zeroth ↦
      inl (zeroth, some-injective _ _ (sym (ap (in_memory.plans.row start_db.plans) zeroth) ∙ h))
  | no a ↦ elim (ℕ_discrete i 1) [
    | yes first ↦
        inr (first, some-injective _ _ (sym (ap (in_memory.plans.row start_db.plans) first) ∙ h))
    | no b ↦ absurd (ground arith)
  ]
]

codes_differ : (p q : Plan) → free ≡ p → pro ≡ q → p.code ≢ q.code
codes_differ p q is_p is_q same = cc (ap (λ x. x.code) is_p ∙ same ∙ sym (ap (λ x. x.code) is_q))

start_unique :
    (i j : ℕ) (p q : Plan)
    → ((i ≡ 0) × (free ≡ p)) ⊎ ((i ≡ 1) × (pro ≡ p))
    → ((j ≡ 0) × (free ≡ q)) ⊎ ((j ≡ 1) × (pro ≡ q))
    → p.code ≡ q.code
    → i ≡ j
start_unique i j p q (inl (a, x)) (inl (b, y)) same = a ∙ sym b
start_unique i j p q (inr (a, x)) (inr (b, y)) same = a ∙ sym b
start_unique i j p q (inl (a, x)) (inr (b, y)) same = absurd (codes_differ p q x y same)
start_unique i j p q (inr (a, x)) (inl (b, y)) same = absurd (codes_differ q p y x (sym same))

start-IsSound : IsSound in_memory rollback runtime start_db
unfolding memory
start-IsSound = record {
  unique = λ i j p q at_p at_q same.
      start_unique i j p q (start_plans i p at_p) (start_plans j q at_q) same;
  planned = λ i s at_s. elim (ℕ_discrete i 0) [
    | yes zeroth ↦
        let is_s : old_subscription ≡ s =
          some-injective _ _
            (sym (ap (in_memory.subscriptions.row start_db.subscriptions) zeroth) ∙ at_s) in
        (free, ap (λ x. in_memory.plans.row start_db.plans x.plan_id) (sym is_s))
    | no a ↦ absurd (ground arith)
  ];
}

after-IsSound_example :
    IsSound in_memory rollback runtime
      (after in_memory rollback runtime (create gold) root_admin start_db)
after-IsSound_example =
    after-IsSound in_memory rollback runtime (create gold) root_admin start_db start-IsSound
