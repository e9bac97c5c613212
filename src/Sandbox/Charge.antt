-- ===== src/Sandbox/Charge.antt =====
-- resolvePaymentSimulation and its table of test accounts (modules/sandbox/payment-simulation.ts),
-- SandboxController.runMockChargeEngine and simulateWebhook (modules/sandbox/sandbox.controller.ts).
-- The timer of a charge is an entry of the state, which `fire` takes; whether the endpoint of the
-- charge answers is its argument. Amounts are whole francs, phone numbers lists of code units.
use kigali_pack.Base.{
  ℕ, ◌+◌, Bool, true, false, ◌&&◌, ◌||◌, Option, none, some, List, [], ◌∷◌, ◌++◌, String, ◌==◌,
  refl, if◌then◌else◌,
}
use kigali_pack.Text.{Text, codes}
use kigali_pack.Text.Split.{is_space}
use kigali_pack.Orm.{Keyed, Repository}
use kigali_pack.Webhooks.{webhook_key, delivery_key, WebhookDb, dispatch_event_for_developer}

pub data TransactionStatus : Type 0 where
  pending success failed timeout rejected : TransactionStatus

pub data FailureReason : Type 0 where
  insufficient_funds timed_out was_rejected network_error : FailureReason
  err_webhook_delivery_failed : FailureReason

pub data Gateway : Type 0 where
  mtn_momo airtel_money : Gateway

pub record Simulation : Type 0 where
  pub status : TransactionStatus
  pub failure_reason : Option FailureReason

-- The last two branches of the source give the same outcome.
unfoldable pub resolve_payment_simulation : ℕ → Simulation
resolve_payment_simulation amount =
    if amount == 111111
    then record {
      status = TransactionStatus.failed;
      failure_reason = some FailureReason.insufficient_funds;
    }
    else if amount == 222222
    then record {
      status = TransactionStatus.timeout;
      failure_reason = some FailureReason.timed_out;
    }
    else if amount == 333333
    then record {
      status = TransactionStatus.rejected;
      failure_reason = some FailureReason.was_rejected;
    }
    else if amount == 444444
    then record {
      status = TransactionStatus.failed;
      failure_reason = some FailureReason.network_error;
    }
    else record { status = TransactionStatus.success; failure_reason = none }

pub record TestAccount : Type 0 where
  pub phone_number : Text
  pub amount : ℕ
  pub expected : Simulation

abbrev expects : TransactionStatus → Option FailureReason → Simulation
expects status reason = record { status = status; failure_reason = reason }

abbrev pub sandbox_test_accounts : List TestAccount
sandbox_test_accounts =
    record {
      phone_number = codes "0781234567";
      amount = 5000;
      expected = expects TransactionStatus.success none;
    }
    ∷ record {
      phone_number = codes "0781234567";
      amount = 111111;
      expected = expects TransactionStatus.failed (some FailureReason.insufficient_funds);
    }
    ∷ record {
      phone_number = codes "0781234567";
      amount = 222222;
      expected = expects TransactionStatus.timeout (some FailureReason.timed_out);
    }
    ∷ record {
      phone_number = codes "0781234567";
      amount = 333333;
      expected = expects TransactionStatus.rejected (some FailureReason.was_rejected);
    }
    ∷ record {
      phone_number = codes "0781234567";
      amount = 444444;
      expected = expects TransactionStatus.failed (some FailureReason.network_error);
    }
    ∷ record {
      phone_number = codes "0731234567";
      amount = 25000;
      expected = expects TransactionStatus.success none;
    }
    ∷ []

-- `replace(/\s+/g, '')`
unfoldable pub drop_spaces : Text → Text
drop_spaces [] = []
drop_spaces (c ∷ s) = let rest = drop_spaces s in if is_space c then rest else c ∷ rest

-- `/(?:\+250|0)?7[89]/` without anchors: 78 or 79 anywhere.
unfoldable pub has_mtn : Text → Bool
has_mtn [] = false
has_mtn (c ∷ []) = false
has_mtn (c ∷ d ∷ s) = (c == b'7' && (d == b'8' || d == b'9')) || has_mtn (d ∷ s)

unfoldable pub target_gateway : Text → Gateway
target_gateway phone_number =
    if has_mtn (drop_spaces phone_number) then Gateway.mtn_momo else Gateway.airtel_money

pub record Transaction : Type 0 where
  pub id : ℕ
  pub api_key_id : ℕ
  pub phone_number : Text
  pub amount : ℕ
  pub gateway : Gateway
  pub status : TransactionStatus
  pub failure_reason : Option FailureReason
  pub webhook_url : String
  pub client_reference : String
  pub completed_at : Option ℕ

abbrev pub transaction_key : Keyed Transaction
transaction_key = record {
  key = λ e. e.id;
  set_key = λ i e. record e { id = i };
  key-set_key = λ i e. refl;
  set_key-key = λ e. refl;
}

pub record InitiateMockPayment : Type 0 where
  pub phone_number : Text
  pub amount : ℕ
  pub webhook_url : String
  pub client_reference : String

pub record ChargeReply : Type 0 where
  pub transaction_id : ℕ
  pub simulated_gateway : Gateway
  pub simulated_status : TransactionStatus

abbrev pub is_success : TransactionStatus → Bool
is_success TransactionStatus.success = true
is_success _ = false

-- `simulation.status === 'SUCCESS' ? 'PENDING' : simulation.status`
abbrev pub initial_status : TransactionStatus → TransactionStatus
initial_status TransactionStatus.success = TransactionStatus.pending
initial_status status = status

abbrev pub new_transaction : ℕ → ℕ → InitiateMockPayment → Transaction
new_transaction now api_key_id dto =
    let simulation = resolve_payment_simulation dto.amount in
    record {
      id = 0;
      api_key_id = api_key_id;
      phone_number = dto.phone_number;
      amount = dto.amount;
      gateway = target_gateway dto.phone_number;
      status = initial_status simulation.status;
      failure_reason = simulation.failure_reason;
      webhook_url = dto.webhook_url;
      client_reference = dto.client_reference;
      completed_at = if is_success simulation.status then none else some now;
    }

abbrev pub delay_ms : ℕ
delay_ms = 3000

-- What the callback of the timer writes, and whether it then tells the webhooks.
abbrev pub succeeded : ℕ → Transaction → Transaction
succeeded now t = record t { status = TransactionStatus.success; completed_at = some now }

abbrev pub undelivered : ℕ → Transaction → Transaction
undelivered now t = record t {
  status = TransactionStatus.failed;
  failure_reason = some FailureReason.err_webhook_delivery_failed;
  completed_at = some now;
}

-- A charge that waits for its timer.
pub record Timer : Type 0 where
  pub transaction_id : ℕ
  pub api_key_id : ℕ
  pub due : ℕ

module _ (transactions : Repository transaction_key) (hooks : Repository webhook_key)
    (deliveries : Repository delivery_key) where
  pub record SandboxDb : Type 0 where
    pub rows : transactions.Rows
    pub timers : List Timer
    pub webhooks : WebhookDb hooks deliveries

  abbrev pub tell : ℕ → ℕ → String → SandboxDb → SandboxDb
  tell now api_key_id event_type db = record db {
    webhooks = dispatch_event_for_developer hooks deliveries now api_key_id event_type db.webhooks;
  }

  abbrev pub set_timer : ℕ → Transaction → SandboxDb → SandboxDb
  set_timer now t db = record db {
    timers =
        db.timers
        ++ record { transaction_id = t.id; api_key_id = t.api_key_id; due = now + delay_ms } ∷ [];
  }

  -- A charge that succeeds waits for its timer, one that fails is told to the webhooks.
  abbrev pub scheduled : Bool → ℕ → Transaction → SandboxDb → SandboxDb
  scheduled true now t db = set_timer now t db
  scheduled false now t db = tell now t.api_key_id "payment.failed" db

  unfoldable pub run_mock_charge_engine :
      ℕ → ℕ → InitiateMockPayment → SandboxDb → ChargeReply × SandboxDb
  run_mock_charge_engine now api_key_id dto db =
      let (t, rows) = transactions.insert (new_transaction now api_key_id dto) db.rows in
      let db' = record db { rows = rows } in
      let simulation = resolve_payment_simulation dto.amount in
      (
        record {
          transaction_id = t.id;
          simulated_gateway = target_gateway dto.phone_number;
          simulated_status = initial_status simulation.status;
        },
        scheduled (is_success simulation.status) now t db',
      )

  abbrev pub by_id : ℕ → Transaction → Bool
  by_id id t = t.id == id

  -- The callback of a timer, with the answer of the endpoint of its charge.
  unfoldable pub fire : ℕ → Bool → Timer → SandboxDb → SandboxDb
  fire now true timer db = tell now timer.api_key_id "payment.success" (record db {
    rows = transactions.update (by_id timer.transaction_id) (succeeded now) db.rows;
  })
  fire now false timer db = record db {
    rows = transactions.update (by_id timer.transaction_id) (undelivered now) db.rows;
  }

  abbrev pub elapse_first : List Timer → ℕ → Bool → SandboxDb → SandboxDb
  elapse_first [] now delivered db = db
  elapse_first (timer ∷ rest) now delivered db =
      fire now delivered timer (record db { timers = rest })

  -- The first timer runs out.
  unfoldable pub elapse : ℕ → Bool → SandboxDb → SandboxDb
  elapse now delivered db = elapse_first db.timers now delivered db

  -- The event is that of the request, or `payment.success`.
  unfoldable pub simulate_webhook : ℕ → ℕ → Option String → SandboxDb → SandboxDb
  simulate_webhook now api_key_id none db = tell now api_key_id "payment.success" db
  simulate_webhook now api_key_id (some event_type) db = tell now api_key_id event_type db
