-- ===== src/Billing/Cron/Expiry.antt =====
-- What the scheduled jobs leave behind.
use mathlib.Core.Option
use mathlib.Core.Option.{some-injective}
use mathlib.Core.List.{Memᴰ}
use mathlib.Core.List.Memᴰ
use kigali_pack.Base.{
  ◌<◌, arith, ℕ, ◌≡◌, refl, sym, ap, ◌∙◌, subst, ◌⊎◌, inl, inr, Bool, true, false, ◌&&◌, Option,
  none, some, List, [], ◌∷◌, String, ltb, if◌then◌else◌, Bool-cases, Option-cases,
}
use kigali_pack.Service.{
  err, query_failed, forbidden, found, found-none, found-some, step, step_throws, throw, pure,
  modify, DataSource, ◌>>◌,
}
use kigali_pack.Data.{Subscription, SubscriptionStatus}
use kigali_pack.Billing.Db.{Orm, Db, Runtime}
use kigali_pack.Billing.Subscriptions.Steps.{Step, expire, ended}
use kigali_pack.Billing.Cron.{
  is_active, overdue, expired, active_of, expire_one, expire_each, expire_subscriptions,
  check_expired_subscriptions, subscription_guard,
}

module _ (orm : Orm) (data_source : DataSource (Db orm)) (rt : Runtime) where
  open orm use {subscriptions}

  abbrev aged : ℕ → Subscription → Subscription
  aged now s = if overdue now s then expired s else s

  checked_row :
      (now : ℕ) (db : Db orm) (i : ℕ)
      → subscriptions.row (check_expired_subscriptions orm data_source rt now db).subscriptions i
        ≡ Option.map (aged now) (subscriptions.row db.subscriptions i)
  unfolding check_expired_subscriptions
  checked_row now db i =
      subscriptions.row-update (overdue now) expired (λ s. refl) db.subscriptions i

  not_overdue : (now : ℕ) (s : Subscription) → overdue now (aged now s) ≡ false
  not_overdue now s = elim (Bool-cases (overdue now s)) [
    | inl y ↦ ap (λ b. overdue now (if b then expired s else s)) y
    | inr n ↦ ap (λ b. overdue now (if b then expired s else s)) n ∙ n
  ]

  -- An active subscription whose period ended before now.
  abbrev pub IsOverdue : ℕ → Subscription → Type 0
  IsOverdue now s = (s.status ≡ SubscriptionStatus.active) × (s.current_period_end < now)

  is_active-true : (st : SubscriptionStatus) → is_active st ≡ true → st ≡ SubscriptionStatus.active
  is_active-true SubscriptionStatus.active h = refl
  is_active-true SubscriptionStatus.pending h = cc
  is_active-true SubscriptionStatus.rejected h = cc
  is_active-true SubscriptionStatus.expired h = cc
  is_active-true SubscriptionStatus.cancelled h = cc
  is_active-true SubscriptionStatus.past_due h = cc

  overdue-IsOverdue : (now : ℕ) (s : Subscription) → overdue now s ≡ true → IsOverdue now s
  overdue-IsOverdue now s h = elim (Bool-cases (is_active s.status)) [
    | inl y ↦ (
      is_active-true s.status y,
      ground (arith, sym (ap (λ b. b && ltb s.current_period_end now) y) ∙ h),
    )
    | inr n ↦ cc (sym (ap (λ b. b && ltb s.current_period_end now) n) ∙ h)
  ]

  IsOverdue-overdue : (now : ℕ) (s : Subscription) → IsOverdue now s → overdue now s ≡ true
  IsOverdue-overdue now s (active, late) =
      ap (λ st. is_active st && ltb s.current_period_end now) active ∙ ground (arith, late)

  aged-Step :
      (now : ℕ) (s : Subscription)
      → (IsOverdue now s × Step rt now expire s (aged now s))
        ⊎ (¬ IsOverdue now s × (aged now s ≡ s))
  aged-Step now s = elim (Bool-cases (overdue now s)) [
    | inl y ↦ inl (
      overdue-IsOverdue now s y,
      subst (λ b. Step rt now expire s (if b then expired s else s)) (sym y) ended,
    )
    | inr n ↦
        inr (
          λ late. cc (sym n ∙ IsOverdue-overdue now s late),
          ap (λ b. if b then expired s else s) n,
        )
  ]

  -- The job has ended every active subscription whose period ended before now, and has left every
  -- other that is stored as it was.
  pub record IsChecked (now : ℕ) (db db' : Db orm) : Type 0 where
    pub stepped :
        (i : ℕ) (s : Subscription)
        → subscriptions.row db.subscriptions i ≡ some s
        → (s' : Subscription) × (subscriptions.row db'.subscriptions i ≡ some s')
          × ((IsOverdue now s × Step rt now expire s s') ⊎ (¬ IsOverdue now s × (s' ≡ s)))
    pub settled :
        (i : ℕ) (s : Subscription)
        → subscriptions.row db'.subscriptions i ≡ some s
        → ¬ IsOverdue now s

  settled_row :
      (now : ℕ) (old : Option Subscription) (s : Subscription)
      → Option.map (aged now) old ≡ some s
      → overdue now s ≡ false
  settled_row now none s h = cc
  settled_row now (some x) s h =
      let same : aged now x ≡ s = some-injective _ _ h in
      ap (overdue now) (sym same) ∙ not_overdue now x

  check_expired_subscriptions-IsChecked :
      (now : ℕ) (db : Db orm)
      → IsChecked now db (check_expired_subscriptions orm data_source rt now db)
  check_expired_subscriptions-IsChecked now db = record {
    stepped = λ i s at_s.
        (aged now s, checked_row now db i ∙ ap (Option.map (aged now)) at_s, aged-Step now s);
    settled = λ i s at_s late. cc (
        sym (IsOverdue-overdue now s late)
        ∙ settled_row now (subscriptions.row db.subscriptions i) s
            (sym (checked_row now db i) ∙ at_s));
  }

  not_overdue_row : (now : ℕ) (s : Subscription) → ¬ IsOverdue now s → overdue now s ≡ false
  not_overdue_row now s ne = elim (Bool-cases (overdue now s)) [
    | inl y ↦ absurd (ne (overdue-IsOverdue now s y))
    | inr n ↦ n
  ]

  and_right : (a b : Bool) → a && b ≡ true → b ≡ true
  and_right true b h = h
  and_right false b h = cc

  -- A subscription that is active, but not overdue, has not ended.
  running :
      (now : ℕ) (s : Subscription)
      → is_active s.status ≡ true
      → overdue now s ≡ false
      → ltb s.current_period_end now ≡ false
  running now s active fresh = sym (ap (λ b. b && ltb s.current_period_end now) active) ∙ fresh

  guard_same :
      (now : ℕ) (name : String) (db : Db orm)
      → ((i : ℕ) (s : Subscription)
          → subscriptions.row db.subscriptions i ≡ some s
          → overdue now s ≡ false)
      → (subscription_guard orm data_source rt now (some name) db).1 ≡ db
  unfolding subscription_guard
  guard_same now name db settled =
      let read = λ (d : Db orm). subscriptions.find_one (active_of name) d.subscriptions in
      elim (Option-cases (read db)) [
        | inl gone ↦
            ap (λ r. r.1)
              (step_throws (found read forbidden) _ db (found-none read forbidden db gone))
        | inr (s, e) ↦
            let row = subscriptions.find_one-row (active_of name) db.subscriptions e in
            let active =
              and_right _ _ (subscriptions.find_one-fits (active_of name) db.subscriptions e) in
            let fresh = running now s active (settled s.id s row) in
            ap (λ r. r.1)
              (step (found read forbidden) _ db (found-some read forbidden db e) (
                ap
                  (λ b.
                    (if b
                        then (modify (expire_one orm data_source rt s.id) >> throw forbidden)
                        else pure tt)
                      db)
                  fresh))
      ]

  -- The hourly job takes the step that ends it on every active subscription whose period ended
  -- before now, and leaves every other as it was; so none such is left, and the guard, at the same
  -- time and for any developer, has nothing to write.
  pub check_expired_subscriptions-subscription_guard :
      (now : ℕ) (name : String) (db : Db orm)
      → let db' = check_expired_subscriptions orm data_source rt now db in
        IsChecked now db db' × ((subscription_guard orm data_source rt now (some name) db').1 ≡ db')
  check_expired_subscriptions-subscription_guard now name db =
      let checked = check_expired_subscriptions-IsChecked now db in
      (
        checked,
        guard_same now name (check_expired_subscriptions orm data_source rt now db)
            (λ i s at_s. not_overdue_row now s (checked.settled i s at_s)),
      )

  stops :
      (xs : List Subscription) (s : Subscription) (db : Db orm)
      → Memᴰ s xs
      → (expire_each orm data_source rt xs db).0 ≡ err query_failed
  unfolding expire_each
  stops [] s db m = absurd (Memᴰ.not-nil m)
  stops (x ∷ xs) s db m = refl

  -- The nightly job fails whenever it has something to do: with any active subscription whose
  -- period has ended it throws, since its notification names no user.
  pub expire_subscriptions_throws :
      (now i : ℕ) (s : Subscription) (db : Db orm)
      → subscriptions.row db.subscriptions i ≡ some s
      → overdue now s ≡ true
      → (expire_subscriptions orm data_source rt now db).0 ≡ err query_failed
  unfolding expire_subscriptions
  expire_subscriptions_throws now i s db row late =
      stops (subscriptions.find (overdue now) db.subscriptions) s db
        (subscriptions.find-all (overdue now) db.subscriptions i row late)
