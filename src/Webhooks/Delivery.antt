-- ===== src/Webhooks/Delivery.antt =====
-- WebhookDeliveryProcessor.process (modules/webhooks/webhook-delivery.processor.ts), with the
-- entities and the retry delays that it uses. The delivery queue and the dead-letter queue are
-- lists of jobs, the next one first; the answer of the endpoint is an argument.
use kigali_pack.Base.{
  ℕ, ◌+◌, ◌-◌, Bool, false, ◌&&◌, not, Option, none, some, List, [], ◌∷◌, ◌++◌, String, min, ltb,
  leb, ◌==◌, if◌then◌else◌, length, drop, refl,
}
use kigali_pack.Orm.{Keyed, Repository}

pub record Webhook : Type 0 where
  pub id : ℕ
  pub api_key_id : ℕ
  pub url : String
  pub secret : String
  pub events : List String
  pub is_active : Bool

pub data DeliveryStatus : Type 0 where
  pending delivered failed dlq : DeliveryStatus

-- A delivery is loaded with its webhook. The payload, the body of the answer, the error text and
-- the duration are only stored.
pub record Delivery : Type 0 where
  pub id : ℕ
  pub webhook : Webhook
  pub event_type : String
  pub status : DeliveryStatus
  pub attempt_count : ℕ
  pub max_attempts : ℕ
  pub last_attempt_at : Option ℕ
  pub next_retry_at : Option ℕ
  pub response_status : Option ℕ

abbrev pub delivery_key : Keyed Delivery
delivery_key = record {
  key = λ e. e.id;
  set_key = λ i e. record e { id = i };
  key-set_key = λ i e. refl;
  set_key-key = λ e. refl;
}

pub record Job : Type 0 where
  pub delivery_id : ℕ
  pub delay : ℕ

-- What `httpService.post` gives: an HTTP status, or an error.
pub data Answer : Type 0 where
  responded : ℕ → Answer
  unreachable : Answer

abbrev pub webhook_retry_delays_ms : List ℕ
webhook_retry_delays_ms = 60000 ∷ 300000 ∷ 900000 ∷ 3600000 ∷ 14400000 ∷ []

-- An index that is out of range gives no number; the minimum below keeps it in range.
abbrev delay_at : ℕ → ℕ
delay_at i = elim (drop i webhook_retry_delays_ms) [ [] ↦ 0 | delay ∷ _ ↦ delay ]

unfoldable pub retry_delay : ℕ → ℕ
retry_delay attempt_count = delay_at (min (attempt_count - 1) (length webhook_retry_delays_ms - 1))

abbrev pub accepted : Answer → Bool
accepted (responded status) = leb 200 status && ltb status 300
accepted unreachable = false

-- `delivery.responseStatus = response.status`
abbrev pub answered : Answer → Delivery → Delivery
answered (responded status) d = record d { response_status = some status }
answered unreachable d = d

module _ (deliveries : Repository delivery_key) where
  pub record Store : Type 0 where
    pub rows : deliveries.Rows
    pub queue : List Job
    pub dead : List ℕ

  abbrev pub save : Delivery → Store → Store
  save d s = record s { rows = deliveries.save d s.rows }

  abbrev pub started : ℕ → Delivery → Delivery
  started now d = record d { attempt_count = d.attempt_count + 1; last_attempt_at = some now }

  -- From the test of `response.status` on, for a delivery whose attempt is already counted.
  unfoldable pub conclude : ℕ → Answer → Delivery → Store → Store
  conclude now answer d s =
      if accepted answer
      then save (record d { status = DeliveryStatus.delivered; next_retry_at = none }) s
      else if leb d.max_attempts d.attempt_count
      then record (save (record d { status = DeliveryStatus.dlq; next_retry_at = none }) s) {
        dead = s.dead ++ d.id ∷ [];
      }
      else let delay = retry_delay d.attempt_count in
        record (save
          (record d { status = DeliveryStatus.failed; next_retry_at = some (now + delay) }) s) {
            queue = s.queue ++ record { delivery_id = d.id; delay = delay } ∷ [];
          }

  unfoldable pub process : ℕ → Answer → ℕ → Store → Store
  process now answer delivery_id s = elim (deliveries.find_one (λ d. d.id == delivery_id) s.rows) [
    | none ↦ s
    | some d ↦
        if not d.webhook.is_active
        then s
        else conclude now answer (answered answer (started now d)) s
  ]

  -- The worker: one run for each time and answer, as long as a job is queued.
  unfoldable pub work : List (ℕ × Answer) → Store → Store
  work [] s = s
  work ((now, answer) ∷ inputs) s = elim s.queue [
    | [] ↦ s
    | job ∷ rest ↦ work inputs (process now answer job.delivery_id (record s { queue = rest }))
  ]
