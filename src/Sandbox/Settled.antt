-- ===== src/Sandbox/Settled.antt =====
-- Every charge is settled once its timer has run out.

use kigali_pack.Base.{
  ℕ, ◌-◌, ◌≤◌, ◌≡◌, refl, Bool, false, Option, none, some, List, [], ◌∷◌, arith, length,
}
use kigali_pack.Orm.{Repository}
use kigali_pack.Webhooks.{webhook_key, delivery_key}
use kigali_pack.Sandbox.Balanced.{
  stuck, pending_row, IsBalanced, run_mock_charge_engine-IsBalanced, elapse_first-IsBalanced,
  length-elapse_first,
}
use kigali_pack.Sandbox.Charge.{
  Transaction, transaction_key, InitiateMockPayment, Timer, SandboxDb, run_mock_charge_engine,
  elapse,
}

module _ (transactions : Repository transaction_key) (hooks : Repository webhook_key)
    (deliveries : Repository delivery_key) where
  abbrev Store : Type 0
  Store = SandboxDb transactions hooks deliveries

  abbrev Balanced : Store → Type 0
  Balanced = IsBalanced transactions hooks deliveries

  -- What happens in the sandbox: charges, and timers that run out.
  pub data Event : Type 0 where
    charged : ℕ → ℕ → InitiateMockPayment → Event
    elapsed : ℕ → Bool → Event

  unfoldable pub happen : Event → Store → Store
  happen (charged now api_key_id dto) db =
      (run_mock_charge_engine transactions hooks deliveries now api_key_id dto db).1
  happen (elapsed now delivered) db = elapse transactions hooks deliveries now delivered db

  unfoldable pub run : List Event → Store → Store
  run [] db = db
  run (e ∷ es) db = run es (happen e db)

  -- Timers that run out, with the answers of the endpoints.
  unfoldable pub drain : List (ℕ × Bool) → Store → Store
  drain [] db = db
  drain ((now, delivered) ∷ inputs) db =
      drain inputs (elapse transactions hooks deliveries now delivered db)

  elapse-IsBalanced :
      (now : ℕ) (delivered : Bool) (db : Store)
      → Balanced db
      → Balanced (elapse transactions hooks deliveries now delivered db)
  unfolding elapse
  elapse-IsBalanced now delivered db balanced =
      elapse_first-IsBalanced transactions hooks deliveries db.timers now delivered db refl balanced

  length-elapse :
      (now : ℕ) (delivered : Bool) (db : Store)
      → length (elapse transactions hooks deliveries now delivered db).timers ≡ length db.timers - 1
  unfolding elapse
  length-elapse now delivered db =
      length-elapse_first transactions hooks deliveries db.timers now delivered db refl

  run-IsBalanced : (es : List Event) (db : Store) → Balanced db → Balanced (run es db)
  unfolding run happen
  run-IsBalanced [] db h = h
  run-IsBalanced (charged now api_key_id dto ∷ es) db h =
      run-IsBalanced es
        (run_mock_charge_engine transactions hooks deliveries now api_key_id dto db).1
        (run_mock_charge_engine-IsBalanced transactions hooks deliveries now api_key_id dto db h)
  run-IsBalanced (elapsed now delivered ∷ es) db h =
      run-IsBalanced es (elapse transactions hooks deliveries now delivered db)
        (elapse-IsBalanced now delivered db h)

  drain_settles :
      (inputs : List (ℕ × Bool)) (db : Store) (i : ℕ)
      → Balanced db
      → length db.timers ≤ length inputs
      → pending_row (transactions.row (drain inputs db).rows i) ≡ false
  unfolding drain
  drain_settles [] db i h enough = no_timers db.timers (transactions.row db.rows i) enough (h i)
    where
      no_timers :
          (ts : List Timer) (o : Option Transaction)
          → length ts ≤ 0
          → stuck ts i o ≡ false
          → pending_row o ≡ false
      no_timers [] none l k = refl
      no_timers [] (some t) l k = ground arith
      no_timers (x ∷ ts) o l k = absurd (omega arith)
  drain_settles ((now, delivered) ∷ inputs) db i h enough =
      drain_settles inputs (elapse transactions hooks deliveries now delivered db) i
        (elapse-IsBalanced now delivered db h) (omega (arith, length-elapse now delivered db))

  -- From a database in which no transaction is pending without a timer, after any charges and
  -- timers, and then as many timers as are left: no transaction is pending, whatever the endpoints
  -- have answered.
  pub run-drain :
      (es : List Event) (inputs : List (ℕ × Bool)) (db : Store) (i : ℕ)
      → Balanced db
      → length (run es db).timers ≤ length inputs
      → pending_row (transactions.row (drain inputs (run es db)).rows i) ≡ false
  run-drain es inputs db i h enough =
      drain_settles inputs (run es db) i (run-IsBalanced es db h) enough
