-- ===== src/Billing/Users.antt =====
-- BillingAdminService.suspendUser, activateUser, changeUserRole, deleteUser and
-- markNotificationRead (modules/billing/billing-admin.service.ts).
pub mod Suspended
mod Changes
pub mod Lasting
mod Tests
use text.Mathlib.Text.{◌==◌ as str_eq}
use kigali_pack.Base.{ℕ, Bool, true, false, ◌&&◌, Option, none, some, String, ◌==◌}
use kigali_pack.Service.{not_found, Action, pure, ◌>>=◌, ◌>>◌, found, modify, DataSource}
use kigali_pack.Data.{
  JwtPayload, Member, OrganizationRole, ApiKey, AuditAction, TargetType, AuditLog, Notification,
}
use kigali_pack.Billing.Db.{Orm, Db, Runtime}
use kigali_pack.Billing.Payments.{insert_audit}

-- The id and the e-mail address of the user, in the replies.
pub record UserReply : Type 0 where
  pub user_id : ℕ
  pub email : String

pub record RoleReply : Type 0 where
  pub user : UserReply
  pub old_role : OrganizationRole
  pub new_role : OrganizationRole

abbrev reply_of : Member → UserReply
reply_of m = record { user_id = m.id; email = m.email }

abbrev user_audit : AuditAction → JwtPayload → Option ℕ → Member → AuditLog
user_audit action admin target_id m = record {
  id = 0;
  action = action;
  actor_id = some admin.sub;
  actor_email = some admin.email;
  actor_role = some admin.role;
  target_id = target_id;
  target_email = some m.email;
  target_type = some TargetType.user;
}

-- `where: { developerName }`
abbrev pub key_of : String → ApiKey → Bool
key_of name k = str_eq k.developer_name name

-- `{ isActive: false, revokedAt: new Date() }`
abbrev pub revoked_key : ℕ → ApiKey → ApiKey
revoked_key now k = record k { is_active = false; revoked_at = some now }

-- `where: { id, userId }`
abbrev notice_of : ℕ → ℕ → Notification → Bool
notice_of id user_id n = n.id == id && is_user n.user_id
  where
    is_user : Option ℕ → Bool
    is_user none = false
    is_user (some u) = u == user_id

module _ (orm : Orm) (data_source : DataSource (Db orm)) (rt : Runtime) where
  open orm use {members, api_keys, notifications}

  abbrev pub load_user : ℕ → Action (Db orm) Member
  load_user id = found (λ db. members.find_one (λ m. m.id == id) db.members) not_found

  abbrev pub revoke_keys : ℕ → Member → Action (Db orm) (Unit {0})
  revoke_keys now m = modify (λ db. record db {
    api_keys = api_keys.update (key_of m.organization.slug) (revoked_key now) db.api_keys;
  })

  pub suspend_user : ℕ → ℕ → JwtPayload → Action (Db orm) UserReply
  suspend_user now id admin = data_source.transaction (do
    m ← load_user id
    revoke_keys now m
    insert_audit orm data_source rt (user_audit AuditAction.user_suspended admin (some m.id) m)
    pure (reply_of m))

  pub activate_user : ℕ → JwtPayload → Action (Db orm) UserReply
  activate_user id admin = data_source.transaction (do
    m ← load_user id
    insert_audit orm data_source rt (user_audit AuditAction.user_activated admin (some m.id) m)
    pure (reply_of m))

  -- The route hands on any text as the role; here it is one of the roles.
  pub change_user_role : ℕ → OrganizationRole → JwtPayload → Action (Db orm) RoleReply
  change_user_role id new_role admin = data_source.transaction (do
    m ← load_user id
    modify (λ db. record db { members = members.save (record m { role = new_role }) db.members })
    insert_audit orm data_source rt (user_audit AuditAction.user_role_changed admin (some m.id) m)
    pure (record { user = reply_of m; old_role = m.role; new_role = new_role }))

  pub delete_user : ℕ → ℕ → JwtPayload → Action (Db orm) (Unit {0})
  delete_user now id admin = data_source.transaction (do
    m ← load_user id
    revoke_keys now m
    modify (λ db. record db { members = members.remove m db.members })
    insert_audit orm data_source rt (user_audit AuditAction.user_deleted admin none m)
    pure tt)

  pub mark_notification_read : ℕ → ℕ → ℕ → Action (Db orm) (Unit {0})
  mark_notification_read now id user_id = do
    n ← found (λ db. notifications.find_one (notice_of id user_id) db.notifications) not_found
    modify (λ db. record db {
      notifications =
          notifications.save (record n { read = true; read_at = some now }) db.notifications;
    })
    pure tt
