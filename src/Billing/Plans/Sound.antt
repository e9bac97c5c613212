-- ===== src/Billing/Plans/Sound.antt =====
-- What the operations on plans keep: every code names one plan, and every subscription has one.
use text.Mathlib.Text.{◌==◌ as str_eq}
use text.Mathlib.TextPositions.{eq_refl}
use kigali_pack.Base.{
  String, ℕ, ◌≡◌, refl, sym, ap, ◌∙◌, subst, false, none, some, ◌==◌, arith, is_some, none_of,
}
use native.Mathlib.Decide.{ℕ_discrete}
use kigali_pack.Service.{
  Result, ok, err, bad_request, query_failed, not_found, after_step, found_same, found_reads,
  ok-injective, transaction_returns, transaction_keeps, DataSource,
}
use kigali_pack.Data.{JwtPayload, Plan, Subscription}
use kigali_pack.Orm.{find_one-key, row-insert_old}
use kigali_pack.ApiKeys.Retired.{guard_passed}
use kigali_pack.Billing.Db.{Orm, Db, Runtime}
use kigali_pack.Orm.Unique.{Unique, Shrinks-Unique, save-Shrinks, remove-Shrinks, insert-Unique}
use kigali_pack.Billing.Plans.{
  CreatePlan, UpdatePlan, updated_from, new_plan, with_code, create_plan, load_plan, update_plan,
  subscription_of, remove_plan, delete_plan,
}

abbrev code_of : Plan → String
code_of p = p.code

pub keeps_code : (i : ℕ) (p : Plan) → code_of (record p { id = i }) ≡ code_of p
keeps_code i p = refl

module _ (orm : Orm) (data_source : DataSource (Db orm)) (rt : Runtime) where
  open orm use {plans, subscriptions}

  -- Codes name plans, and the plans of the subscriptions are there.
  pub record IsSound (db : Db orm) : Type 0 where
    pub unique : Unique plans code_of keeps_code db.plans
    pub planned :
        (i : ℕ) (s : Subscription)
        → subscriptions.row db.subscriptions i ≡ some s
        → (p : Plan) × (plans.row db.plans s.plan_id ≡ some p)

  pub data PlanOperation : Type 0 where
    create : CreatePlan → PlanOperation
    update : ℕ → UpdatePlan → PlanOperation
    delete : ℕ → PlanOperation

  abbrev to_unit : {A : Type 0} → Result A × Db orm → Result (Unit {0}) × Db orm
  to_unit (ok a, db) = (ok tt, db)
  to_unit (err e, db) = (err e, db)

  -- The database after an operation, which may have thrown.
  pub after : PlanOperation → JwtPayload → Db orm → Db orm
  after (create dto) admin db = (create_plan orm data_source rt dto admin db).1
  after (update id dto) admin db = (update_plan orm data_source rt id dto admin db).1
  after (delete id) admin db = (delete_plan orm data_source rt id admin db).1

  create-IsSound :
      (dto : CreatePlan) (admin : JwtPayload) (db : Db orm) {saved : Plan} {db' : Db orm}
      → create_plan orm data_source rt dto admin db ≡ (ok saved, db')
      → IsSound db
      → IsSound db'
  unfolding create_plan
  create-IsSound dto admin db {saved} {db'} h sound =
      let n = new_plan orm data_source rt dto in
      let (free, rest) =
        guard_passed bad_request
          (is_some (plans.find_one (with_code orm data_source rt dto.code) db.plans)) _ db
          (transaction_returns data_source _ db h) in
      let (reply, stores) = ok-injective rest in
      subst IsSound stores (record {
        unique =
            insert-Unique plans code_of keeps_code n db.plans
              (with_code orm data_source rt dto.code) (none_of _ free)
              (λ e same. ap (λ c. str_eq c n.code) same ∙ eq_refl n.code) sound.unique;
        planned = λ i s at_s.
            let (p, at_p) = sound.planned i s at_s in
            (p, (row-insert_old plans n db.plans s.plan_id at_p).1);
      })

  saved_there :
      (new : Plan) (t : plans.Rows) (i : ℕ) {q : Plan}
      → plans.row t i ≡ some q
      → (r : Plan) × (plans.row (plans.save new t) i ≡ some r)
  saved_there new t i {q} at_q = elim (ℕ_discrete new.id i) [
    | yes here ↦ (new, ground (arith, plans.row-save new t i))
    | no other ↦ (q, ground (arith, plans.row-save new t i))
  ]

  removed_there :
      (old : Plan) (t : plans.Rows) (i : ℕ) {q : Plan}
      → (i == old.id) ≡ false
      → plans.row t i ≡ some q
      → plans.row (plans.remove old t) i ≡ some q
  removed_there old t i other at_q = ground (arith, plans.row-remove old t i)

  update-IsSound :
      (id : ℕ) (dto : UpdatePlan) (admin : JwtPayload) (db : Db orm) {saved : Plan} {db' : Db orm}
      → update_plan orm data_source rt id dto admin db ≡ (ok saved, db')
      → IsSound db
      → IsSound db'
  unfolding update_plan
  update-IsSound id dto admin db {saved} {db'} h sound =
      after_step (load_plan orm data_source rt id) _ db (transaction_returns data_source _ db h)
        λ p db1 at_p rest.
          let read = λ (d : Db orm). plans.find_one (λ x. x.id == id) d.plans in
          let same : db1 ≡ db = found_same read not_found db at_p in
          let (key, row) = find_one-key plans id db.plans (found_reads read not_found db at_p) in
          let stores = (ok-injective rest).1 in
          let new = updated_from dto p in
          let tables : db'.plans ≡ plans.save new db.plans =
            ap (λ d. d.plans) (sym stores) ∙ ap (λ d. plans.save new d.plans) same in
          let subs : db'.subscriptions ≡ db.subscriptions =
            ap (λ d. d.subscriptions) (sym stores) ∙ ap (λ d. d.subscriptions) same in
          record {
            unique = subst (Unique plans code_of keeps_code) (sym tables) (
                Shrinks-Unique plans code_of keeps_code db.plans (plans.save new db.plans)
                  (save-Shrinks plans code_of keeps_code p new db.plans
                    (ap (plans.row db.plans) key ∙ row) refl refl)
                  sound.unique);
            planned = λ i s at_s.
                let (q, at_q) =
                  sound.planned i s (ap (λ x. subscriptions.row x i) (sym subs) ∙ at_s) in
                let (r, at_r) = saved_there new db.plans s.plan_id at_q in
                (r, ap (λ x. plans.row x s.plan_id) tables ∙ at_r);
          }

  delete-IsSound :
      (id : ℕ) (admin : JwtPayload) (db : Db orm) {u : Unit {0}} {db' : Db orm}
      → delete_plan orm data_source rt id admin db ≡ (ok u, db')
      → IsSound db
      → IsSound db'
  unfolding delete_plan
  delete-IsSound id admin db {u} {db'} h sound =
      after_step (load_plan orm data_source rt id) _ db (transaction_returns data_source _ db h)
        λ p db1 at_p rest.
          let read = λ (d : Db orm). plans.find_one (λ x. x.id == id) d.plans in
          let same : db1 ≡ db = found_same read not_found db at_p in
          after_step (remove_plan orm data_source rt p) _ db1 rest λ v db2 at_v rest'.
            let (free, removed) =
              guard_passed query_failed (is_some (subscription_of orm data_source rt p db1)) _ db1
                at_v in
            let steps = (ok-injective removed).1 in
            let stores = (ok-injective rest').1 in
            let tables : db'.plans ≡ plans.remove p db.plans =
              ap (λ d. d.plans) (sym stores)
              ∙ ap (λ d. d.plans) (sym steps)
              ∙ ap (λ d. plans.remove p d.plans) same in
            let subs : db'.subscriptions ≡ db.subscriptions =
              ap (λ d. d.subscriptions) (sym stores)
              ∙ ap (λ d. d.subscriptions) (sym steps)
              ∙ ap (λ d. d.subscriptions) same in
            let unused : subscription_of orm data_source rt p db ≡ none =
              ap (subscription_of orm data_source rt p) (sym same) ∙ none_of _ free in
            record {
              unique = subst (Unique plans code_of keeps_code) (sym tables) (
                  Shrinks-Unique plans code_of keeps_code db.plans (plans.remove p db.plans)
                    (remove-Shrinks plans code_of keeps_code p db.plans) sound.unique);
              planned = λ i s at_s.
                  let old : subscriptions.row db.subscriptions i ≡ some s =
                    ap (λ x. subscriptions.row x i) (sym subs) ∙ at_s in
                  let (q, at_q) = sound.planned i s old in
                  let other =
                    subscriptions.find_one-none (λ x. x.plan_id == p.id) db.subscriptions i unused
                      old in
                  (
                    q,
                    ap (λ x. plans.row x s.plan_id) tables
                        ∙ removed_there p db.plans s.plan_id other at_q,
                  );
            }

  -- An operation on the plans, whether it returns or throws, keeps the plans sound: every code still
  -- names one plan, and every subscription still has its plan.
  pub after-IsSound :
      (op : PlanOperation) (admin : JwtPayload) (db : Db orm)
      → IsSound db
      → IsSound (after op admin db)
  unfolding after create_plan update_plan delete_plan
  after-IsSound (create dto) admin db sound =
      transaction_keeps data_source _ db IsSound (λ a t h. create-IsSound dto admin db h sound)
        sound
  after-IsSound (update id dto) admin db sound =
      transaction_keeps data_source _ db IsSound (λ a t h. update-IsSound id dto admin db h sound)
        sound
  after-IsSound (delete id) admin db sound =
      transaction_keeps data_source _ db IsSound (λ a t h. delete-IsSound id admin db h sound) sound
