-- ===== src/Billing/Overrides/Restricted.antt =====
-- What AdminService.restrictDeveloper leaves of the API keys, and what of the invoice
-- updateInvoiceStatus leaves (modules/admin/admin.service.ts).
use mathlib.Core.Option.{some-injective}
use text.Mathlib.Text.{◌==◌ as str_eq}
use kigali_pack.Base.{ℕ, ◌≡◌, sym, ap, ◌∙◌, false, Option, some, String, ◌==◌}
use kigali_pack.Service.{
  ok, bad_request, not_found, after_step, found_same, found, found_reads, ok-injective, DataSource,
  throw_if, throw_if_same, throw_if-false,
}
use kigali_pack.Data.{Member, ApiKey, Invoice, InvoiceStatus}
use kigali_pack.Orm.{find_one-key}
use kigali_pack.ApiKeys.{authenticate_with_api_key}
use kigali_pack.Billing.Db.{Orm, Db, Runtime}
use kigali_pack.Billing.Users.{load_user, key_of, revoked_key}
use kigali_pack.Billing.Users.Suspended.{
  IsSuspended, from_load-IsSuspended, IsSuspended-authenticate_with_api_key,
}
use kigali_pack.Billing.Overrides.{
  RestrictReply, InvoiceReply, is_master, invoice_with, restrict_developer, update_invoice_status,
}

module _ (orm : Orm) (data_source : DataSource (Db orm)) (rt : Runtime) where
  open orm use {members, api_keys, invoices}

  -- A restriction that returns is of a stored user who is no platform admin.
  restrict_developer-IsSuspended :
      (now id : ℕ) (reason : Option String) (db : Db orm) {r : RestrictReply} {db' : Db orm}
      → restrict_developer orm data_source rt now id reason db ≡ (ok r, db')
      → (m : Member) × (members.row db.members id ≡ some m)
        × (is_master m.role ≡ false)
        × IsSuspended orm data_source rt now id db db'
  unfolding restrict_developer
  restrict_developer-IsSuspended now id reason db {r} {db'} h =
      after_step (load_user orm data_source rt id) _ db h λ m db1 at_m rest.
        after_step (throw_if (is_master m.role) bad_request) _ db1 rest λ u db2 passed end.
          let keys = api_keys.update (key_of m.organization.slug) (revoked_key now) in
          let read = λ (d : Db orm). members.find_one (λ x. x.id == id) d.members in
          (
            m,
            (find_one-key members id db.members (found_reads read not_found db at_m)).1,
            throw_if-false (is_master m.role) bad_request db1 passed,
            from_load-IsSuspended orm data_source rt now id m db db1 db' at_m (
                ap (λ d. d.api_keys) (sym (ok-injective end).1)
                ∙ ap (λ d. keys d.api_keys)
                    (throw_if_same (is_master m.role) bad_request db1 passed)),
          )

  -- In the database that a restriction has left, no API key of the user's organization
  -- authenticates, and the user is no platform admin.
  pub restricted_keys :
      (key_source : DataSource api_keys.Rows) (hash_token : String → String) (now id : ℕ)
      (reason : Option String) (db : Db orm) {db' : Db orm} {m : Member} {r : RestrictReply}
      (later : ℕ) (raw_token : String) {key : ApiKey} {t : api_keys.Rows}
      → members.row db.members id ≡ some m
      → restrict_developer orm data_source rt now id reason db ≡ (ok r, db')
      → authenticate_with_api_key api_keys key_source hash_token later raw_token db'.api_keys
        ≡ (ok key, t)
      → (str_eq key.developer_name m.organization.slug ≡ false) × (is_master m.role ≡ false)
  restricted_keys key_source hash_token now id reason db {db'} {m} {r} later raw_token at_m done h =
      let (user, stored, plain, suspended) = restrict_developer-IsSuspended now id reason db done in
      let same : user ≡ m = some-injective _ _ (sym stored ∙ at_m) in
      (
        IsSuspended-authenticate_with_api_key orm data_source rt key_source hash_token now id db
            later raw_token at_m suspended h,
        ap (λ x. is_master x.role) (sym same) ∙ plain,
      )

  -- An update of an invoice that returns has written the row of that key alone, with the status
  -- that was asked for.
  pub update_invoice_status-row :
      (now id : ℕ) (status : InvoiceStatus) (db : Db orm) {r : InvoiceReply} {db' : Db orm}
      → update_invoice_status orm data_source rt now id status db ≡ (ok r, db')
      → (i : Invoice) × (invoices.row db.invoices id ≡ some i)
        × (db' ≡ record db { invoices = invoices.save (invoice_with now status i) db.invoices })
  unfolding update_invoice_status
  update_invoice_status-row now id status db {r} {db'} h =
      let read = λ (d : Db orm). invoices.find_one (λ x. x.id == id) d.invoices in
      let write : Invoice → Db orm → Db orm =
        λ i d. record d { invoices = invoices.save (invoice_with now status i) d.invoices } in
      after_step (found read not_found) _ db h λ i db1 at_i rest. (
        i,
        (find_one-key invoices id db.invoices (found_reads read not_found db at_i)).1,
        sym (ok-injective rest).1 ∙ ap (write i) (found_same read not_found db at_i),
      )
