-- ===== src/Webhooks/Service.antt =====
-- WebhookService.create, update, remove, test, enqueueDelivery, dispatchEventForDeveloper,
-- retryDelivery and findOwned (modules/webhooks/webhook.service.ts). The secret, which is random, is
-- an argument. The deliveries of one event are stored one after the other.
use text.Mathlib.Text.{◌==◌ as str_eq}
use kigali_pack.Base.{
  ℕ, Bool, true, false, ◌&&◌, ◌||◌, not, Option, none, some, List, [], ◌∷◌, ◌++◌, String, ◌==◌,
  refl, if◌then◌else◌,
}
use kigali_pack.Service.{not_found, Action, pure, ◌>>=◌, ◌>>◌, found, throw_if, modify, change}
use kigali_pack.Orm.{Keyed, Repository}
use kigali_pack.Webhooks.Delivery.{Webhook, Delivery, DeliveryStatus, delivery_key, Store}

abbrev pub webhook_key : Keyed Webhook
webhook_key = record {
  key = λ e. e.id;
  set_key = λ i e. record e { id = i };
  key-set_key = λ i e. refl;
  set_key-key = λ e. refl;
}

pub record CreateWebhook : Type 0 where
  pub url : String
  pub events : List String

-- An absent field is left as it is.
pub record UpdateWebhook : Type 0 where
  pub url : Option String
  pub events : Option (List String)
  pub is_active : Option Bool

abbrev or_else {ℓ} : {A : Type ℓ} → A → Option A → A
or_else fallback none = fallback
or_else fallback (some a) = a

-- `events.includes(e)`
abbrev pub includes : String → List String → Bool
includes e [] = false
includes e (x ∷ xs) = str_eq x e || includes e xs

abbrev pub subscribes : String → Webhook → Bool
subscribes event_type w = includes event_type w.events || includes "*" w.events

-- `where: { apiKey: { id }, isActive: true }`
abbrev pub active_hook_of : ℕ → Webhook → Bool
active_hook_of api_key_id w = w.api_key_id == api_key_id && w.is_active

-- `where: { id, apiKey: { id } }`
abbrev hook_of : ℕ → ℕ → Webhook → Bool
hook_of api_key_id id w = w.id == id && w.api_key_id == api_key_id

-- `list.filter(p)`
abbrev pub filter {ℓ} : {A : Type ℓ} → (A → Bool) → List A → List A
filter p [] = []
filter p (x ∷ xs) = let rest = filter p xs in if p x then x ∷ rest else rest

abbrev pub default_max_attempts : ℕ
default_max_attempts = 5

abbrev pub new_delivery : ℕ → String → Webhook → Delivery
new_delivery now event_type w = record {
  id = 0;
  webhook = w;
  event_type = event_type;
  status = DeliveryStatus.pending;
  attempt_count = 0;
  max_attempts = default_max_attempts;
  last_attempt_at = none;
  next_retry_at = some now;
  response_status = none;
}

module _ (hooks : Repository webhook_key) (deliveries : Repository delivery_key) where
  pub record WebhookDb : Type 0 where
    pub webhooks : hooks.Rows
    pub store : Store deliveries

  unfoldable pub create : ℕ → String → CreateWebhook → Action WebhookDb Webhook
  create owner_id secret dto = change (λ db.
      let (w, rows) =
        hooks.insert
          (record {
            id = 0;
            api_key_id = owner_id;
            url = dto.url;
            secret = secret;
            events = dto.events;
            is_active = true;
          })
          db.webhooks in
      (w, record db { webhooks = rows }))

  abbrev pub find_owned : ℕ → ℕ → Action WebhookDb Webhook
  find_owned owner_id id = found (λ db. hooks.find_one (hook_of owner_id id) db.webhooks) not_found

  abbrev updated_hook : UpdateWebhook → Webhook → Webhook
  updated_hook dto w = record w {
    url = or_else w.url dto.url;
    events = or_else w.events dto.events;
    is_active = or_else w.is_active dto.is_active;
  }

  unfoldable pub update : ℕ → ℕ → UpdateWebhook → Action WebhookDb Webhook
  update owner_id id dto = do
    w ← find_owned owner_id id
    modify (λ db. record db { webhooks = hooks.save (updated_hook dto w) db.webhooks })
    pure (updated_hook dto w)

  unfoldable pub remove : ℕ → ℕ → Action WebhookDb ℕ
  remove owner_id id = do
    w ← find_owned owner_id id
    modify (λ db. record db { webhooks = hooks.remove w db.webhooks })
    pure id

  -- The delivery that is stored, and the database with it and its job.
  unfoldable pub enqueue_delivery : ℕ → String → Webhook → WebhookDb → Delivery × WebhookDb
  enqueue_delivery now event_type w db =
      let (d, rows) = deliveries.insert (new_delivery now event_type w) db.store.rows in
      (
        d,
        record db {
          store = record db.store {
            rows = rows;
            queue = db.store.queue ++ record { delivery_id = d.id; delay = 0 } ∷ [];
          };
        },
      )

  unfoldable pub test : ℕ → ℕ → ℕ → Action WebhookDb Delivery
  test now owner_id id = do
    w ← find_owned owner_id id
    change (enqueue_delivery now "webhook.test" w)

  unfoldable pub enqueue_all : ℕ → String → List Webhook → WebhookDb → WebhookDb
  enqueue_all now event_type [] db = db
  enqueue_all now event_type (w ∷ ws) db =
      enqueue_all now event_type ws (enqueue_delivery now event_type w db).1

  abbrev pub matching : ℕ → String → WebhookDb → List Webhook
  matching api_key_id event_type db =
      filter (subscribes event_type) (hooks.find (active_hook_of api_key_id) db.webhooks)

  unfoldable pub dispatch_event_for_developer : ℕ → ℕ → String → WebhookDb → WebhookDb
  dispatch_event_for_developer now api_key_id event_type db =
      enqueue_all now event_type (matching api_key_id event_type db) db

  unfoldable pub retry_delivery : ℕ → ℕ → ℕ → Action WebhookDb Delivery
  retry_delivery now owner_id delivery_id = do
    original ← found (λ db. deliveries.find_one (λ d. d.id == delivery_id) db.store.rows) not_found
    throw_if (not (original.webhook.api_key_id == owner_id)) not_found
    change (enqueue_delivery now original.event_type original.webhook)
