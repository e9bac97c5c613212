-- ===== src/ApiKeys/LastUse.antt =====
-- ApiKeyService.touchLastUsed (modules/auth/api-key.service.ts) beside the other operations: it may
-- run at any time.
use mathlib.Core.Option
use kigali_pack.Base.{
  ℕ, ◌≡◌, refl, ap, ◌∙◌, ◌==◌, if◌then◌else◌, some, String, Bool-cases, inl, inr,
}
use kigali_pack.Service.{DataSource}
use kigali_pack.Data.{ApiKey, api_key_key}
use kigali_pack.Orm.{Repository}
use kigali_pack.ApiKeys.Service.{is_key_valid, touch_last_used}

module _ (keys : Repository api_key_key) (data_source : DataSource keys.Rows)
    (hash_token : String → String) where
  -- A key whose use is noted is as valid as before at every time, under the same digest.
  pub touch_last_used-is_key_valid :
      (now id : ℕ) (t : keys.Rows) (i : ℕ) {k : ApiKey}
      → keys.row t i ≡ some k
      → (k' : ApiKey) × (keys.row (touch_last_used keys data_source hash_token now id t) i
          ≡ some k')
        × (k'.hashed_key ≡ k.hashed_key)
        × ((later : ℕ) → is_key_valid later k' ≡ is_key_valid later k)
  unfolding touch_last_used is_key_valid
  touch_last_used-is_key_valid now id t i {k} at_k =
      let touched : ApiKey → ApiKey = λ x. record x { last_used_at = some now } in
      let change : ApiKey → ApiKey = λ x. if x.id == id then touched x else x in
      let row =
        keys.row-update (λ x. x.id == id) touched (λ x. refl) t i ∙ ap (Option.map change) at_k in
      elim (Bool-cases (k.id == id)) [
        | inl y ↦
            (touched k, row ∙ ap (λ b. some (if b then touched k else k)) y, refl, λ later. refl)
        | inr n ↦ (k, row ∙ ap (λ b. some (if b then touched k else k)) n, refl, λ later. refl)
      ]
