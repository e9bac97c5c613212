-- ===== src/Billing/Users/Changes.antt =====
-- What the program does with API keys, and that a revoked key stays revoked through it
-- (modules/auth/api-key.service.ts, common/guards/api-key.guard.ts and
-- modules/billing/billing-admin.service.ts).
use mathlib.Core.Option
use mathlib.Core.Option.{some-injective}
use text.Mathlib.Text.{◌==◌ as str_eq}
use native.Mathlib.Decide.{ℕ_discrete}
use kigali_pack.Base.{
  ℕ, ◌≡◌, refl, ap, ◌∙◌, subst, inl, inr, Bool, true, ◌||◌, not, Option, none, some, String, ◌==◌,
  if◌then◌else◌, is_some, Bool-cases,
}
use kigali_pack.Service.{
  bad_request, not_found, conflict, DataSource, found, throw_if, transaction_keeps,
  transaction_returns,
}
use kigali_pack.Service.Keeps.{after_any, found_keeps, throw_if_keeps}
use kigali_pack.Data.{ApiKey, ApiKeyEnvironment, api_key_key}
use kigali_pack.Orm.{Repository, row-insert_old, row-save_self, row-save_ne}
use kigali_pack.ApiKeys.{
  is_past, create, new_key, generate_raw_token, find_owned_key, revoke, revoked, rotate,
  rotate_body, touch_last_used,
}
use kigali_pack.ApiKeys.Defaults.{
  ensure_default_key_for_organization, keep_or_insert, usable, active_key_of,
}
use kigali_pack.Billing.Payments.{with_tier}
use kigali_pack.Billing.Users.{key_of, revoked_key}

module _ (keys : Repository api_key_key) (source : DataSource keys.Rows)
    (hash_token : String → String) where
  -- The key of that number is stored, and revoked.
  pub record IsRevoked (i : ℕ) (t : keys.Rows) : Type 0 where
    pub key : ApiKey
    pub stored : keys.row t i ≡ some key
    pub marked : is_some key.revoked_at ≡ true

  -- What the program does with the keys: the services of keys, for any owner, whether they return
  -- or throw; the guard, when it makes a default key or notes a use; a change of the tier; and a
  -- further suspension.
  pub data Change : keys.Rows → keys.Rows → Type 0 where
    created :
        (t : keys.Rows) (now : ℕ) (entropy : String) (owner : ApiKey) (name : Option String)
        (environment : ApiKeyEnvironment) (expires_at : Option ℕ)
        → Change t (create keys source hash_token now entropy owner name environment expires_at t).1
    revoked_one :
        (t : keys.Rows) (now : ℕ) (owner : ApiKey) (id : ℕ)
        → Change t (revoke keys source hash_token now owner id t).1
    rotated :
        (t : keys.Rows) (now : ℕ) (entropy : String) (owner : ApiKey) (id : ℕ)
        → Change t (rotate keys source hash_token now entropy owner id t).1
    defaulted :
        (t : keys.Rows) (now : ℕ) (entropy developer_name label : String)
        → Change t
            (ensure_default_key_for_organization keys hash_token now entropy developer_name label
              t).1
    touched :
        (t : keys.Rows) (now id : ℕ) → Change t (touch_last_used keys source hash_token now id t)
    tiered :
        (t : keys.Rows) (name tier : String)
        → Change t (keys.update (active_key_of name) (with_tier tier) t)
    suspended :
        (t : keys.Rows) (now : ℕ) (slug : String)
        → Change t (keys.update (key_of slug) (revoked_key now) t)

  pub data Changes : keys.Rows → keys.Rows → Type 0 where
    unchanged : {t : keys.Rows} → Changes t t
    changed : {t t1 t2 : keys.Rows} → Change t t1 → Changes t1 t2 → Changes t t2

  insert_keeps :
      (e : ApiKey) (t : keys.Rows) (i : ℕ) → IsRevoked i t → IsRevoked i (keys.insert e t).1
  insert_keeps e t i r = record {
    key = r.key;
    stored = (row-insert_old keys e t i r.stored).1;
    marked = r.marked;
  }

  save_keeps :
      (now : ℕ) (e : ApiKey) (t : keys.Rows) (i : ℕ)
      → IsRevoked i t
      → IsRevoked i (keys.save (revoked keys source hash_token now e) t)
  save_keeps now e t i r =
      let gone = revoked keys source hash_token now e in
      elim (ℕ_discrete e.id i) [
        | yes same ↦
            subst (λ j. IsRevoked j (keys.save gone t)) same
              (record { key = gone; stored = row-save_self keys gone t; marked = refl })
        | no other ↦ record {
          key = r.key;
          stored = row-save_ne keys gone t i other ∙ r.stored;
          marked = r.marked;
        }
      ]

  update_keeps :
      (p : ApiKey → Bool) (f : ApiKey → ApiKey)
      → ((e : ApiKey) → (f e).id ≡ e.id)
      → ((e : ApiKey) → is_some e.revoked_at ≡ true → is_some (f e).revoked_at ≡ true)
      → (t : keys.Rows) (i : ℕ) → IsRevoked i t
      → IsRevoked i (keys.update p f t)
  update_keeps p f same_id marks t i r =
      let step : ApiKey → ApiKey = λ e. if p e then f e else e in
      record {
        key = step r.key;
        stored = keys.row-update p f same_id t i ∙ ap (Option.map step) r.stored;
        marked = elim (Bool-cases (p r.key)) [
          | inl y ↦
              ap (λ b. is_some (if b then f r.key else r.key).revoked_at) y ∙ marks r.key r.marked
          | inr n ↦ ap (λ b. is_some (if b then f r.key else r.key).revoked_at) n ∙ r.marked
        ];
      }

  find_owned_key_keeps :
      (owner : ApiKey) (id : ℕ) (t : keys.Rows) (i : ℕ)
      → IsRevoked i t
      → IsRevoked i (find_owned_key keys source hash_token owner id t).1
  unfolding find_owned_key
  find_owned_key_keeps owner id t i r =
      let P = IsRevoked i in
      let read = keys.find_one (λ k. k.id == id) in
      after_any (found read not_found) _ t P (found_keeps read not_found t P r) λ k t1 e1 r1.
        after_any (throw_if (not (str_eq k.developer_name owner.developer_name)) not_found) _ t1 P
          (throw_if_keeps (not (str_eq k.developer_name owner.developer_name)) not_found t1 P r1)
          λ u t2 e2 r2. r2

  revoke_keeps :
      (now : ℕ) (owner : ApiKey) (id : ℕ) (t : keys.Rows) (i : ℕ)
      → IsRevoked i t
      → IsRevoked i (revoke keys source hash_token now owner id t).1
  unfolding revoke
  revoke_keeps now owner id t i r =
      let P = IsRevoked i in
      after_any (find_owned_key keys source hash_token owner id) _ t P
        (find_owned_key_keeps owner id t i r)
        λ k t1 e1 r1.
          let over = not k.is_active || is_some k.revoked_at in
          after_any (throw_if over bad_request) _ t1 P (throw_if_keeps over bad_request t1 P r1)
            λ u t2 e2 r2.
              after_any (throw_if (k.id == owner.id) bad_request) _ t2 P
                (throw_if_keeps (k.id == owner.id) bad_request t2 P r2)
                λ v t3 e3 r3. save_keeps now k t3 i r3

  rotate_keeps :
      (now : ℕ) (entropy : String) (owner : ApiKey) (id : ℕ) (t : keys.Rows) (i : ℕ)
      → IsRevoked i t
      → IsRevoked i (rotate keys source hash_token now entropy owner id t).1
  unfolding rotate rotate_body
  rotate_keeps now entropy owner id t i r =
      let P = IsRevoked i in
      after_any (find_owned_key keys source hash_token owner id) _ t P
        (find_owned_key_keeps owner id t i r)
        λ k t1 e1 r1.
          let over = not k.is_active || is_some k.revoked_at in
          after_any (throw_if over bad_request) _ t1 P (throw_if_keeps over bad_request t1 P r1)
            λ u t2 e2 r2.
              transaction_keeps source (rotate_body keys source hash_token now entropy k) t2 P
                (λ a t3 e3.
                  subst (λ x. P x.1)
                    (transaction_returns source (rotate_body keys source hash_token now entropy k)
                      t2 e3)
                    (insert_keeps
                      (new_key keys source hash_token k (generate_raw_token k.environment entropy))
                      (keys.save (revoked keys source hash_token now k) t2) i
                      (save_keeps now k t2 i r2)))
                r2

  create_keeps :
      (now : ℕ) (entropy : String) (owner : ApiKey) (name : Option String)
      (environment : ApiKeyEnvironment) (expires_at : Option ℕ) (t : keys.Rows) (i : ℕ)
      → IsRevoked i t
      → IsRevoked i
          (create keys source hash_token now entropy owner name environment expires_at t).1
  unfolding create
  create_keeps now entropy owner name environment expires_at t i r =
      let P = IsRevoked i in
      let raw_token = generate_raw_token environment entropy in
      let taken = λ (x : keys.Rows).
        is_some (keys.find_one (λ k. str_eq k.hashed_key (hash_token raw_token)) x) in
      after_any (throw_if (is_past now expires_at) bad_request) _ t P
        (throw_if_keeps (is_past now expires_at) bad_request t P r)
        λ u t1 e1 r1.
          after_any (throw_if (taken t1) conflict) _ t1 P
            (throw_if_keeps (taken t1) conflict t1 P r1)
            λ v t2 e2 r2.
              insert_keeps
                (new_key keys source hash_token
                  (record owner { name = name; environment = environment; expires_at = expires_at })
                  raw_token)
                t2 i r2

  default_keeps :
      (entropy developer_name label : String) (old : Option ApiKey) (t : keys.Rows) (i : ℕ)
      → IsRevoked i t
      → IsRevoked i (keep_or_insert keys hash_token entropy developer_name label old t).1
  default_keeps entropy developer_name label none t i r = insert_keeps _ t i r
  default_keeps entropy developer_name label (some k) t i r = r

  Change_keeps : (i : ℕ) {t t' : keys.Rows} → Change t t' → IsRevoked i t → IsRevoked i t'
  unfolding ensure_default_key_for_organization touch_last_used
  Change_keeps i (created t now entropy owner name environment expires_at) r =
      create_keeps now entropy owner name environment expires_at t i r
  Change_keeps i (revoked_one t now owner id) r = revoke_keeps now owner id t i r
  Change_keeps i (rotated t now entropy owner id) r = rotate_keeps now entropy owner id t i r
  Change_keeps i (defaulted t now entropy developer_name label) r =
      default_keeps entropy developer_name label
        (usable keys hash_token now (keys.find_one (active_key_of developer_name) t)) t i r
  Change_keeps i (touched t now id) r =
      update_keeps (λ k. k.id == id) (λ k. record k { last_used_at = some now }) (λ e. refl)
        (λ e h. h) t i r
  Change_keeps i (tiered t name tier) r =
      update_keeps (active_key_of name) (with_tier tier) (λ e. refl) (λ e h. h) t i r
  Change_keeps i (suspended t now slug) r =
      update_keeps (key_of slug) (revoked_key now) (λ e. refl) (λ e h. refl) t i r

  pub Changes-keep : (i : ℕ) {t t' : keys.Rows} → Changes t t' → IsRevoked i t → IsRevoked i t'
  Changes-keep i unchanged r = r
  Changes-keep i (changed step rest) r = Changes-keep i rest (Change_keeps i step r)
