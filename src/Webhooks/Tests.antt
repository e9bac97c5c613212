-- ===== src/Webhooks/Tests.antt =====
-- A delivery whose endpoint fails twice and then answers.
use kigali_pack.Base.{ℕ, ◌≡◌, refl, true, none, some, List, [], ◌∷◌, arith}
use kigali_pack.Orm.{Repository}
use kigali_pack.Orm.Memory.{memory, table}
use kigali_pack.Webhooks.Delivery.{
  Webhook, Delivery, DeliveryStatus, delivery_key, Answer, responded, unreachable, work,
}
use kigali_pack.Webhooks.Service.{webhook_key, WebhookDb, dispatch_event_for_developer}
use kigali_pack.Webhooks.Dispatch.{IsDispatched, dispatch_event_for_developer-IsQueued}
use kigali_pack.Webhooks.Attempts.{one_job, IsSettled, work_settles}

abbrev in_memory : Repository delivery_key
unfolding memory
in_memory = memory delivery_key

abbrev hook : Webhook
hook = record {
  id = 0;
  api_key_id = 0;
  url = "https://acme.rw/hook";
  secret = "s";
  events = "payment.success" ∷ [];
  is_active = true;
}

abbrev fresh : Delivery
fresh = record {
  id = 0;
  webhook = hook;
  event_type = "payment.success";
  status = DeliveryStatus.pending;
  attempt_count = 0;
  max_attempts = 5;
  last_attempt_at = none;
  next_retry_at = none;
  response_status = none;
}

abbrev start_rows : in_memory.Rows
unfolding memory
start_rows = table delivery_key (fresh ∷ [])

abbrev answers : List (ℕ × Answer)
answers =
    (10, unreachable)
    ∷ (20, responded 500)
    ∷ (30, responded 200)
    ∷ (40, unreachable)
    ∷ (50, unreachable)
    ∷ []

stored_fresh : in_memory.row start_rows 0 ≡ some fresh
unfolding memory
stored_fresh = refl

work_settles_example :
    IsSettled in_memory 0 5 [] (work in_memory answers (one_job in_memory start_rows 0 0 []))
work_settles_example =
    work_settles in_memory answers start_rows 0 0 [] fresh stored_fresh refl (omega arith)
      (omega arith)

abbrev hooks : Repository webhook_key
unfolding memory
hooks = memory webhook_key

abbrev hook_db : WebhookDb hooks in_memory
unfolding memory
hook_db = record {
  webhooks = table webhook_key (hook ∷ record hook { id = 1; events = "payment.failed" ∷ [] } ∷ []);
  store = record { rows = table delivery_key []; queue = []; dead = [] };
}

hook_stored : hooks.row hook_db.webhooks 0 ≡ some hook
unfolding memory
hook_stored = refl

dispatch_event_for_developer-IsQueued_example :
    IsDispatched hooks in_memory 0 "payment.success" hook_db
      (dispatch_event_for_developer hooks in_memory 10 0 "payment.success" hook_db)
dispatch_event_for_developer-IsQueued_example =
    dispatch_event_for_developer-IsQueued hooks in_memory 10 0 "payment.success" hook_db
