-- ===== src/Webhooks/Attempts.antt =====
-- A delivery is settled: delivered, or put aside after its last attempt.
use kigali_pack.Base.{
  ℕ, ◌+◌, ◌≤◌, ◌≡◌, refl, ap, ◌∙◌, ◌⊎◌, inl, inr, true, none, some, List, [], ◌∷◌, ◌++◌, leb, ◌==◌,
  arith, Option-cases, Bool-cases, length,
}
use mathlib.Core.Path.{subst₂}
use kigali_pack.Orm.{Repository, find_one-key, row-save_self}
use kigali_pack.Webhooks.Delivery.{
  Delivery, DeliveryStatus, delivery_key, Answer, responded, unreachable, accepted, answered,
  retry_delay, Store, started, conclude, process, work,
}

module _ (deliveries : Repository delivery_key) where
  process_found :
      (now : ℕ) (answer : Answer) (id : ℕ) (s : Store deliveries) (d : Delivery)
      → deliveries.row s.rows id ≡ some d
      → d.webhook.is_active ≡ true
      → process deliveries now answer id s
        ≡ conclude deliveries now answer (answered answer (started deliveries now d)) s
  unfolding process
  process_found now answer id s d stored active =
      elim (Option-cases (deliveries.find_one (λ r. r.id == id) s.rows)) [
        | inl gone ↦ ground (
          arith,
          deliveries.find_one-none (λ r. r.id == id) s.rows id gone stored,
          deliveries.key-row s.rows id stored,
        )
        | inr (q, e) ↦ ground (arith, find_one-key deliveries id s.rows e)
      ]

  -- What becomes of a delivery: its queue is empty, and it is delivered, or all its attempts are
  -- used and it is put aside, once.
  pub record IsSettled (id max : ℕ) (dead : List ℕ) (s : Store deliveries) : Type 0 where
    pub final : Delivery
    pub stored : deliveries.row s.rows id ≡ some final
    pub idle : s.queue ≡ []
    pub attempts : final.attempt_count ≤ max
    pub verdict :
        ((final.status ≡ DeliveryStatus.delivered) × (s.dead ≡ dead))
        ⊎ ((final.status ≡ DeliveryStatus.dlq)
            × (final.attempt_count ≡ max)
            × (s.dead ≡ dead ++ id ∷ []))

  work_idle :
      (inputs : List (ℕ × Answer)) (s : Store deliveries)
      → s.queue ≡ []
      → work deliveries inputs s ≡ s
  unfolding work
  work_idle [] s h = refl
  work_idle (i ∷ inputs) s h = rw h

  -- What one attempt makes of a delivery whose attempt is counted, in a store without jobs.
  IsSettled-or_retried :
      (now : ℕ) (answer : Answer) (d : Delivery) (t : deliveries.Rows) (z : List ℕ)
      → d.attempt_count ≤ d.max_attempts
      → let s = conclude deliveries now answer d (record { rows = t; queue = []; dead = z }) in
        IsSettled d.id d.max_attempts z s
        ⊎ ((d.attempt_count + 1 ≤ d.max_attempts)
            × (s ≡ record {
              rows =
                  deliveries.save
                    (record d {
                      status = DeliveryStatus.failed;
                      next_retry_at = some (now + retry_delay d.attempt_count);
                    })
                    t;
              queue = record { delivery_id = d.id; delay = retry_delay d.attempt_count } ∷ [];
              dead = z;
            }))
  unfolding conclude
  IsSettled-or_retried now answer d t z bound = elim (Bool-cases (accepted answer)) [
    | inl good ↦ rw good (
        inl (record {
          final = record d { status = DeliveryStatus.delivered; next_retry_at = none };
          stored =
              row-save_self deliveries
                (record d { status = DeliveryStatus.delivered; next_retry_at = none }) t;
          idle = refl;
          attempts = bound;
          verdict = inl (refl, refl);
        }))
    | inr bad ↦ rw bad (elim (Bool-cases (leb d.max_attempts d.attempt_count)) [
      | inl last ↦ rw last (
          inl (record {
            final = record d { status = DeliveryStatus.dlq; next_retry_at = none };
            stored =
                row-save_self deliveries
                  (record d { status = DeliveryStatus.dlq; next_retry_at = none }) t;
            idle = refl;
            attempts = bound;
            verdict = inr (refl, ground arith, refl);
          }))
      | inr more ↦ rw more (inr (ground arith, refl))
    ])
  ]

  answered_keeps :
      (answer : Answer) (d : Delivery)
      → let a = answered answer d in
        (a.id ≡ d.id)
        × (a.max_attempts ≡ d.max_attempts)
        × (a.attempt_count ≡ d.attempt_count)
        × (a.webhook ≡ d.webhook)
  answered_keeps (responded status) d = (refl, refl, refl, refl)
  answered_keeps unreachable d = (refl, refl, refl, refl)

  -- A store whose only job is an attempt of the delivery `id`.
  abbrev pub one_job : deliveries.Rows → ℕ → ℕ → List ℕ → Store deliveries
  one_job t id delay z = record {
    rows = t;
    queue = record { delivery_id = id; delay = delay } ∷ [];
    dead = z;
  }

  work_step :
      (now : ℕ) (answer : Answer) (inputs : List (ℕ × Answer)) (t : deliveries.Rows) (id delay : ℕ)
      (z : List ℕ) (d : Delivery)
      → deliveries.row t id ≡ some d
      → d.webhook.is_active ≡ true
      → work deliveries ((now, answer) ∷ inputs) (one_job t id delay z)
        ≡ work deliveries inputs (
            conclude deliveries now answer
              (answered answer (started deliveries now d))
              (record { rows = t; queue = []; dead = z }))
  unfolding work
  work_step now answer inputs t id delay z d stored active =
      ap (work deliveries inputs) (process_found now answer id _ d stored active)

  -- With one job in the queue, for a stored delivery of an active webhook that has attempts left,
  -- and with as many runs of the worker as it has attempts left, whatever the endpoint answers: the
  -- queue ends empty, no more than the allowed attempts are made, and either the delivery is
  -- delivered and nothing is put aside, or all its attempts are used and it is put aside once.
  pub work_settles :
      (inputs : List (ℕ × Answer)) (t : deliveries.Rows) (id delay : ℕ) (z : List ℕ) (d : Delivery)
      → deliveries.row t id ≡ some d
      → d.webhook.is_active ≡ true
      → d.attempt_count + 1 ≤ d.max_attempts
      → d.max_attempts ≤ d.attempt_count + length inputs
      → IsSettled id d.max_attempts z (work deliveries inputs (one_job t id delay z))
  work_settles [] t id delay z d stored active left enough = absurd (omega arith)
  work_settles ((now, answer) ∷ inputs) t id delay z d stored active left enough =
      let a = answered answer (started deliveries now d) in
      let (same_id, same_max, same_count, same_hook) =
        answered_keeps answer (started deliveries now d) in
      let key : a.id ≡ id = same_id ∙ deliveries.key-row t id stored in
      rw (work_step now answer inputs t id delay z d stored active)
        (elim (IsSettled-or_retried now answer a t z (omega arith)) [
          | inl settled ↦
              let at_end =
                conclude deliveries now answer a (record { rows = t; queue = []; dead = z }) in
              rw (work_idle inputs at_end settled.idle)
                (subst₂ (λ i m. IsSettled i m z at_end) key same_max settled)
          | inr (more, e) ↦
              let wait = retry_delay a.attempt_count in
              let a' : Delivery = record a {
                status = DeliveryStatus.failed;
                next_retry_at = some (now + wait);
              } in
              rw e (
                subst₂
                  (λ i m.
                    IsSettled i m z
                      (work deliveries inputs (one_job (deliveries.save a' t) a.id wait z)))
                  key same_max
                  (work_settles inputs (deliveries.save a' t) a.id wait z a'
                    (row-save_self deliveries a' t) (ap (λ w. w.is_active) same_hook ∙ active) more
                    (omega arith)))
        ])
