-- ===== src/Sandbox/Balanced.antt =====
-- No transaction is pending without a timer, whatever happens.
use mathlib.Core.Option
use mathlib.Core.Option.{some-injective}
use kigali_pack.Base.{
  ℕ, ◌+◌, ◌-◌, ◌≡◌, refl, sym, ap, ◌∙◌, Bool, true, false, ◌&&◌, ◌||◌, not, Option, none, some,
  List, [], ◌∷◌, ◌++◌, ◌==◌, arith, if◌then◌else◌, length, inl, inr, Bool-cases,
}
use kigali_pack.Orm.{Repository}
use kigali_pack.Webhooks.{webhook_key, delivery_key}
use kigali_pack.Sandbox.Charge.{
  TransactionStatus, resolve_payment_simulation, Transaction, transaction_key, InitiateMockPayment,
  is_success, initial_status, new_transaction, succeeded, undelivered, Timer, SandboxDb, scheduled,
  delay_ms, elapse_first, run_mock_charge_engine, by_id, fire,
}

abbrev pub is_pending : TransactionStatus → Bool
is_pending TransactionStatus.pending = true
is_pending _ = false

-- Whether a timer is set for a transaction.
abbrev pub waits : ℕ → List Timer → Bool
waits i [] = false
waits i (timer ∷ timers) = timer.transaction_id == i || waits i timers

waits-append :
    (i : ℕ) (timers : List Timer) (timer : Timer)
    → waits i (timers ++ timer ∷ []) ≡ waits i timers || timer.transaction_id == i
waits-append i [] timer = ground arith
waits-append i (x ∷ timers) timer = ground (arith, waits-append i timers timer)

-- A row that is pending without a timer.
abbrev pub stuck : List Timer → ℕ → Option Transaction → Bool
stuck timers i none = false
stuck timers i (some t) = is_pending t.status && not (waits i timers)

abbrev pub pending_row : Option Transaction → Bool
pending_row none = false
pending_row (some t) = is_pending t.status

-- A charge is pending exactly if its outcome is a success.
initial_pending :
    (amount : ℕ)
    → let status = (resolve_payment_simulation amount).status in
      is_pending (initial_status status) ≡ is_success status
unfolding resolve_payment_simulation
initial_pending amount = ground arith

module _ (transactions : Repository transaction_key) (hooks : Repository webhook_key)
    (deliveries : Repository delivery_key) where
  abbrev Store : Type 0
  Store = SandboxDb transactions hooks deliveries

  -- No transaction is pending without a timer.
  abbrev pub IsBalanced : Store → Type 0
  IsBalanced db = (i : ℕ) → stuck db.timers i (transactions.row db.rows i) ≡ false

  stuck_longer :
      (i : ℕ) (timers : List Timer) (timer : Timer) (o : Option Transaction)
      → stuck timers i o ≡ false
      → stuck (timers ++ timer ∷ []) i o ≡ false
  stuck_longer i timers timer none h = refl
  stuck_longer i timers timer (some t) h = ground (arith, waits-append i timers timer)

  set_waits : (p a b : Bool) → b ≡ true → p && not (a || b) ≡ false
  set_waits p a b h = ground arith

  inserted_waits :
      (i : ℕ) (timers : List Timer) (t : Transaction) (now : ℕ) (o : Option Transaction)
      → stuck timers i o ≡ false
      → stuck
          (timers ++ record { transaction_id = t.id; api_key_id = t.api_key_id; due = now } ∷ [])
          i
          (if t.id == i then some t else o)
        ≡ false
  inserted_waits i timers t now o h = elim (Bool-cases (t.id == i)) [
    | inl y ↦
        let timer : Timer = record {
          transaction_id = t.id;
          api_key_id = t.api_key_id;
          due = now;
        } in
        ap (λ b. stuck (timers ++ timer ∷ []) i (if b then some t else o)) y
        ∙ ap (λ b. is_pending t.status && not b) (waits-append i timers timer)
        ∙ set_waits (is_pending t.status) (waits i timers) (t.id == i) y
    | inr n ↦
        let timer : Timer = record {
          transaction_id = t.id;
          api_key_id = t.api_key_id;
          due = now;
        } in
        ap (λ b. stuck (timers ++ timer ∷ []) i (if b then some t else o)) n
        ∙ stuck_longer i timers timer o h
  ]

  inserted_settled :
      (i : ℕ) (timers : List Timer) (t : Transaction) (o : Option Transaction)
      → is_pending t.status ≡ false
      → stuck timers i o ≡ false
      → stuck timers i (if t.id == i then some t else o) ≡ false
  inserted_settled i timers t o settled h = elim (Bool-cases (t.id == i)) [
    | inl y ↦
        ap (λ b. stuck timers i (if b then some t else o)) y
        ∙ ap (λ b. b && not (waits i timers)) settled
    | inr n ↦ ap (λ b. stuck timers i (if b then some t else o)) n ∙ h
  ]

  scheduled-IsBalanced :
      (b : Bool) (now i : ℕ) (t : Transaction) (db db' : Store)
      → is_pending t.status ≡ b
      → db'.timers ≡ db.timers
      → transactions.row db'.rows i ≡ (if t.id == i then some t else transactions.row db.rows i)
      → stuck db.timers i (transactions.row db.rows i) ≡ false
      → let after = scheduled transactions hooks deliveries b now t db' in
        stuck after.timers i (transactions.row after.rows i) ≡ false
  scheduled-IsBalanced true now i t db db' status timers row h =
      let timer : Timer = record {
        transaction_id = t.id;
        api_key_id = t.api_key_id;
        due = now + delay_ms;
      } in
      ap (λ ts. stuck (ts ++ timer ∷ []) i (transactions.row db'.rows i)) timers
      ∙ ap (stuck (db.timers ++ timer ∷ []) i) row
      ∙ inserted_waits i db.timers t (now + delay_ms) (transactions.row db.rows i) h
  scheduled-IsBalanced false now i t db db' status timers row h =
      ap (λ ts. stuck ts i (transactions.row db'.rows i)) timers
      ∙ ap (stuck db.timers i) row
      ∙ inserted_settled i db.timers t (transactions.row db.rows i) status h

  pub run_mock_charge_engine-IsBalanced :
      (now api_key_id : ℕ) (dto : InitiateMockPayment) (db : Store)
      → IsBalanced db
      → IsBalanced (run_mock_charge_engine transactions hooks deliveries now api_key_id dto db).1
  unfolding run_mock_charge_engine
  run_mock_charge_engine-IsBalanced now api_key_id dto db balanced i =
      let n = new_transaction now api_key_id dto in
      let (t, rows) = transactions.insert n db.rows in
      let outcome = (resolve_payment_simulation dto.amount).status in
      scheduled-IsBalanced (is_success outcome) now i t db (record db { rows = rows })
        (ap (λ x. is_pending x.status) (transactions.insert-same n db.rows)
          ∙ initial_pending dto.amount)
        refl (transactions.row-insert n db.rows i) (balanced i)

  updated_row :
      (id i : ℕ) (timers : List Timer) (f : Transaction → Transaction) (o : Option Transaction)
      (timer : Timer)
      → ((t : Transaction) → is_pending (f t).status ≡ false)
      → ((t : Transaction) → o ≡ some t → t.id ≡ i)
      → timer.transaction_id ≡ id
      → stuck (timer ∷ timers) i o ≡ false
      → stuck timers i
          (Option.map (λ t. if by_id transactions hooks deliveries id t then f t else t) o)
        ≡ false
  updated_row id i timers f none timer final key same h = refl
  updated_row id i timers f (some t) timer final key same h = elim (Bool-cases (t.id == id)) [
    | inl y ↦
        ap (λ b. stuck timers i (some (if b then f t else t))) y
        ∙ ap (λ b. b && not (waits i timers)) (final t)
    | inr n ↦
        let mine : t.id ≡ i = key t refl in
        ap (λ b. stuck timers i (some (if b then f t else t))) n ∙ ground arith
  ]

  fire-IsBalanced :
      (now i : ℕ) (delivered : Bool) (timer : Timer) (db : Store)
      → stuck (timer ∷ db.timers) i (transactions.row db.rows i) ≡ false
      → let after = fire transactions hooks deliveries now delivered timer db in
        stuck after.timers i (transactions.row after.rows i) ≡ false
  unfolding fire
  fire-IsBalanced now i true timer db h =
      ap (stuck db.timers i) (
        transactions.row-update (by_id transactions hooks deliveries timer.transaction_id)
          (succeeded now) (λ t. refl) db.rows i)
      ∙ updated_row timer.transaction_id i db.timers (succeeded now) (transactions.row db.rows i)
          timer (λ t. refl) (λ t e. transactions.key-row db.rows i e) refl h
  fire-IsBalanced now i false timer db h =
      ap (stuck db.timers i) (
        transactions.row-update (by_id transactions hooks deliveries timer.transaction_id)
          (undelivered now) (λ t. refl) db.rows i)
      ∙ updated_row timer.transaction_id i db.timers (undelivered now) (transactions.row db.rows i)
          timer (λ t. refl) (λ t e. transactions.key-row db.rows i e) refl h

  pub elapse_first-IsBalanced :
      (timers : List Timer) (now : ℕ) (delivered : Bool) (db : Store)
      → db.timers ≡ timers
      → IsBalanced db
      → IsBalanced (elapse_first transactions hooks deliveries timers now delivered db)
  elapse_first-IsBalanced [] now delivered db same balanced i = balanced i
  elapse_first-IsBalanced (timer ∷ rest) now delivered db same balanced i =
      fire-IsBalanced now i delivered timer (record db { timers = rest })
        (ap (λ ts. stuck ts i (transactions.row db.rows i)) (sym same) ∙ balanced i)

  pub length-elapse_first :
      (timers : List Timer) (now : ℕ) (delivered : Bool) (db : Store)
      → db.timers ≡ timers
      → length (elapse_first transactions hooks deliveries timers now delivered db).timers
        ≡ length db.timers - 1
  unfolding fire
  length-elapse_first [] now delivered db same = rw same refl
  length-elapse_first (timer ∷ rest) now true db same = rw same (omega arith)
  length-elapse_first (timer ∷ rest) now false db same = rw same (omega arith)
