-- ===== src/Webhooks/Dispatch.antt =====
-- Which deliveries an event queues.
use mathlib.Core.List.{Memᴰ}
use mathlib.Core.List.Memᴰ
use kigali_pack.Base.{
  ◌⊎◌, ℕ, ◌+◌, ◌≡◌, refl, sym, ap, subst, some, List, [], ◌∷◌, String, arith, length, length-append,
  inl, inr,
}
use kigali_pack.Orm.{Repository, row-insert_self, row-insert_old}
use kigali_pack.Webhooks.Delivery.{Webhook, Delivery, DeliveryStatus, delivery_key, Job}
use kigali_pack.Webhooks.Service.{
  webhook_key, subscribes, active_hook_of, filter, new_delivery, WebhookDb, enqueue_delivery,
  enqueue_all, matching, dispatch_event_for_developer,
}
use kigali_pack.Webhooks.Subscribed.{
  mem-filter, append_cases, filter-Memᴰ, IsSubscribed, matches-IsSubscribed,
  IsSubscribed-active_hook_of, IsSubscribed-subscribes,
}

module _ (hooks : Repository webhook_key) (deliveries : Repository delivery_key) where
  abbrev job_of : Delivery → Job
  job_of d = record { delivery_id = d.id; delay = 0 }

  -- The delivery is a fresh one of the event to the webhook; it is stored and has a job.
  pub record IsQueued (event_type : String) (w : Webhook) (d : Delivery)
      (db : WebhookDb hooks deliveries) : Type 0 where
    pub stored : deliveries.row db.store.rows d.id ≡ some d
    pub hook : d.webhook ≡ w
    pub event : d.event_type ≡ event_type
    pub waiting : d.status ≡ DeliveryStatus.pending
    pub unattempted : d.attempt_count ≡ 0
    pub job : Memᴰ (job_of d) db.store.queue

  enqueue_delivery-IsQueued :
      (now : ℕ) (event_type : String) (w : Webhook) (db : WebhookDb hooks deliveries)
      → let (d, db') = enqueue_delivery hooks deliveries now event_type w db in
        IsQueued event_type w d db'
  unfolding enqueue_delivery
  enqueue_delivery-IsQueued now event_type w db =
      let n = new_delivery now event_type w in
      let same = deliveries.insert-same n db.store.rows in
      record {
        stored = row-insert_self deliveries n db.store.rows;
        hook = ap (λ d. d.webhook) same;
        event = ap (λ d. d.event_type) same;
        waiting = ap (λ d. d.status) same;
        unattempted = ap (λ d. d.attempt_count) same;
        job = Memᴰ.append_right db.store.queue (Memᴰ.head refl);
      }

  -- Another delivery takes no job away.
  IsQueued-enqueue_delivery :
      (now : ℕ) (event_type other : String) (w v : Webhook) (d : Delivery)
      (db : WebhookDb hooks deliveries)
      → IsQueued event_type w d db
      → IsQueued event_type w d (enqueue_delivery hooks deliveries now other v db).1
  unfolding enqueue_delivery
  IsQueued-enqueue_delivery now event_type other w v d db q =
      let n = new_delivery now other v in
      record {
        stored = (row-insert_old deliveries n db.store.rows d.id q.stored).1;
        hook = q.hook;
        event = q.event;
        waiting = q.waiting;
        unattempted = q.unattempted;
        job = Memᴰ.append_left _ q.job;
      }

  IsQueued-enqueue_all :
      (now : ℕ) (event_type : String) (w : Webhook) (d : Delivery) (ws : List Webhook)
      (db : WebhookDb hooks deliveries)
      → IsQueued event_type w d db
      → IsQueued event_type w d (enqueue_all hooks deliveries now event_type ws db)
  unfolding enqueue_all
  IsQueued-enqueue_all now event_type w d [] db q = q
  IsQueued-enqueue_all now event_type w d (v ∷ ws) db q =
      IsQueued-enqueue_all now event_type w d ws
        (enqueue_delivery hooks deliveries now event_type v db).1
        (IsQueued-enqueue_delivery now event_type event_type w v d db q)

  enqueue_all-IsQueued :
      (now : ℕ) (event_type : String) (w : Webhook) (ws : List Webhook)
      (db : WebhookDb hooks deliveries)
      → Memᴰ w ws
      → (d : Delivery) × IsQueued event_type w d (enqueue_all hooks deliveries now event_type ws db)
  unfolding enqueue_all
  enqueue_all-IsQueued now event_type w [] db m = absurd (Memᴰ.not-nil m)
  enqueue_all-IsQueued now event_type w (v ∷ ws) db m =
      let (d, db1) = enqueue_delivery hooks deliveries now event_type v db in
      elim (Memᴰ.cases_cons m) [
        | inl same ↦ (
          d,
          IsQueued-enqueue_all now event_type w d ws db1 (
              subst (λ x. IsQueued event_type x d db1) (sym same)
                (enqueue_delivery-IsQueued now event_type v db)),
        )
        | inr later ↦ enqueue_all-IsQueued now event_type w ws db1 later
      ]

  -- The jobs of one delivery more.
  job-enqueue_delivery :
      (now : ℕ) (event_type : String) (w : Webhook) (db : WebhookDb hooks deliveries) (j : Job)
      → let (d, db') = enqueue_delivery hooks deliveries now event_type w db in
        Memᴰ j db'.store.queue → Memᴰ j db.store.queue ⊎ (j ≡ job_of d)
  unfolding enqueue_delivery
  job-enqueue_delivery now event_type w db j m = elim (append_cases db.store.queue _ m) [
    | inl old ↦ inl old
    | inr new ↦ elim (Memᴰ.cases_cons new) [
      | inl same ↦ inr same
      | inr none_left ↦ absurd (Memᴰ.not-nil none_left)
    ]
  ]

  job-enqueue_all :
      (now : ℕ) (event_type : String) (ws : List Webhook) (db : WebhookDb hooks deliveries)
      (j : Job)
      → let db' = enqueue_all hooks deliveries now event_type ws db in
        Memᴰ j db'.store.queue
        → Memᴰ j db.store.queue
          ⊎ ((w : Webhook) × (d : Delivery) × Memᴰ w ws
              × IsQueued event_type w d db'
              × (j ≡ job_of d))
  unfolding enqueue_all
  job-enqueue_all now event_type [] db j m = inl m
  job-enqueue_all now event_type (v ∷ ws) db j m =
      let (d, db1) = enqueue_delivery hooks deliveries now event_type v db in
      elim (job-enqueue_all now event_type ws db1 j m) [
        | inl before ↦ elim (job-enqueue_delivery now event_type v db j before) [
          | inl old ↦ inl old
          | inr same ↦ inr (
            v,
            d,
            Memᴰ.head refl,
            IsQueued-enqueue_all now event_type v d ws db1
                (enqueue_delivery-IsQueued now event_type v db),
            same,
          )
        ]
        | inr (w, e, there, q, same) ↦ inr (w, e, Memᴰ.tail there, q, same)
      ]

  length-enqueue_all :
      (now : ℕ) (event_type : String) (ws : List Webhook) (db : WebhookDb hooks deliveries)
      → length (enqueue_all hooks deliveries now event_type ws db).store.queue
        ≡ length db.store.queue + length ws
  unfolding enqueue_all enqueue_delivery
  length-enqueue_all now event_type [] db = omega arith
  length-enqueue_all now event_type (v ∷ ws) db =
      let (d, db1) = enqueue_delivery hooks deliveries now event_type v db in
      let job : Job = record { delivery_id = d.id; delay = 0 } in
      omega
        (arith, length-enqueue_all now event_type ws db1, length-append db.store.queue (job ∷ []))

  -- Every webhook that the event is for has its delivery, and no other has one.
  pub record IsDispatched (api_key_id : ℕ) (event_type : String)
      (db db' : WebhookDb hooks deliveries) : Type 0 where
    pub each :
        (i : ℕ) (w : Webhook)
        → hooks.row db.webhooks i ≡ some w
        → IsSubscribed api_key_id event_type w
        → (d : Delivery) × IsQueued event_type w d db'
    pub only :
        (j : Job)
        → Memᴰ j db'.store.queue
        → Memᴰ j db.store.queue
          ⊎ ((w : Webhook) × (d : Delivery) × (hooks.row db.webhooks w.id ≡ some w)
              × IsSubscribed api_key_id event_type w
              × IsQueued event_type w d db'
              × (j ≡ job_of d))
    pub counted :
        length db'.store.queue
        ≡ length db.store.queue + length (matching hooks deliveries api_key_id event_type db)

  -- An event queues a fresh delivery for every stored webhook of the API key that is active and
  -- lists the event, or the star; every job that was not queued before is for such a delivery, to a
  -- stored webhook that is all this; and there are as many new jobs as webhooks that were found.
  pub dispatch_event_for_developer-IsQueued :
      (now api_key_id : ℕ) (event_type : String) (db : WebhookDb hooks deliveries)
      → IsDispatched api_key_id event_type db
          (dispatch_event_for_developer hooks deliveries now api_key_id event_type db)
  unfolding dispatch_event_for_developer
  dispatch_event_for_developer-IsQueued now api_key_id event_type db =
      let ws = hooks.find (active_hook_of api_key_id) db.webhooks in
      let kept = filter (subscribes event_type) ws in
      record {
        each = λ i w row wanted. enqueue_all-IsQueued now event_type w kept db (
            mem-filter (subscribes event_type) w ws
              (hooks.find-all (active_hook_of api_key_id) db.webhooks i row
                (IsSubscribed-active_hook_of api_key_id event_type w wanted))
              (IsSubscribed-subscribes api_key_id event_type w wanted));
        only = λ j m. elim (job-enqueue_all now event_type kept db j m) [
          | inl old ↦ inl old
          | inr (w, d, there, q, same) ↦
              let (found_w, listed) = filter-Memᴰ (subscribes event_type) w ws there in
              let (row, owned) = hooks.find-row (active_hook_of api_key_id) db.webhooks w found_w in
              inr (w, d, row, matches-IsSubscribed api_key_id event_type w owned listed, q, same)
        ];
        counted = length-enqueue_all now event_type kept db;
      }
