-- ===== src/Sandbox/Tests.antt =====
-- Two charges, and the published test accounts.
use kigali_pack.Base.{ℕ, ◌≤◌, ◌≡◌, refl, true, false, List, [], ◌∷◌, arith, length}
use kigali_pack.Text.{codes}
use kigali_pack.Orm.{Repository}
use kigali_pack.Orm.Memory.{memory, table}
use kigali_pack.Webhooks.{webhook_key, delivery_key}
use kigali_pack.Sandbox.Charge.{
  sandbox_test_accounts, resolve_payment_simulation, transaction_key, InitiateMockPayment,
  SandboxDb, run_mock_charge_engine, drop_spaces, has_mtn, target_gateway, Gateway,
}
use kigali_pack.Sandbox.Balanced.{pending_row, IsBalanced}
use kigali_pack.Sandbox.Settled.{Event, charged, run, happen, drain, run-drain}
use mathlib.Core.List.{map}

-- Every published account behaves as it is published.
test_accounts_agree :
    map (λ a. resolve_payment_simulation a.amount) sandbox_test_accounts
    ≡ map (λ a. a.expected) sandbox_test_accounts
unfolding resolve_payment_simulation
test_accounts_agree = refl

-- An Airtel number with 78 inside it is charged through MTN.
airtel_as_mtn : target_gateway (codes "073 123 7845") ≡ Gateway.mtn_momo
unfolding target_gateway has_mtn drop_spaces
airtel_as_mtn = refl

abbrev transactions : Repository transaction_key
unfolding memory
transactions = memory transaction_key

abbrev hooks : Repository webhook_key
unfolding memory
hooks = memory webhook_key

abbrev deliveries : Repository delivery_key
unfolding memory
deliveries = memory delivery_key

abbrev db : SandboxDb transactions hooks deliveries
unfolding memory
db = record {
  rows = table transaction_key [];
  timers = [];
  webhooks = record {
    webhooks = table webhook_key [];
    store = record { rows = table delivery_key []; queue = []; dead = [] };
  };
}

abbrev charge : ℕ → InitiateMockPayment
charge amount = record {
  phone_number = codes "0781234567";
  amount = amount;
  webhook_url = "https://acme.rw/paid";
  client_reference = "c1";
}

abbrev events : List (Event transactions hooks deliveries)
events = charged 10 0 (charge 5000) ∷ charged 20 0 (charge 111111) ∷ charged 30 0 (charge 700) ∷ []

two_timers : length (run transactions hooks deliveries events db).timers ≤ 2
unfolding memory run happen run_mock_charge_engine resolve_payment_simulation
two_timers = omega arith

nothing_stuck : IsBalanced transactions hooks deliveries db
unfolding memory
nothing_stuck i = ground arith

run-drain_example :
    pending_row (
      transactions.row
        (drain transactions hooks deliveries
          ((3010, true) ∷ (3030, false) ∷ [])
          (run transactions hooks deliveries events db)).rows
        0)
    ≡ false
run-drain_example =
    run-drain transactions hooks deliveries events ((3010, true) ∷ (3030, false) ∷ []) db 0
      nothing_stuck two_timers
