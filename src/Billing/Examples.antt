-- ===== src/Billing/Examples.antt =====
-- A small database in memory, on which the tests of the billing services run: one developer with a
-- pending payment for the plan PRO.
use kigali_pack.Base.{ℕ, ◌+◌, ◌-◌, Bool, true, false, none, some, [], ◌∷◌, String, ◌*◌, arith}
use kigali_pack.Orm.Memory.{memory, table}
use kigali_pack.Data.{
  Organization, Member, OrganizationRole, JwtPayload, ApiKey, ApiKeyEnvironment, Plan, Subscription,
  SubscriptionStatus, PaymentRequest, PaymentRequestStatus, member_key, api_key_key, plan_key,
  subscription_key, invoice_key, payment_request_key, audit_log_key, notification_key,
}
use kigali_pack.Billing.Db.{Orm, Db, ℤ, pos, negsuc, Runtime}

abbrev pub in_memory : Orm
unfolding memory
in_memory = record {
  members = memory member_key;
  api_keys = memory api_key_key;
  plans = memory plan_key;
  subscriptions = memory subscription_key;
  invoices = memory invoice_key;
  payment_requests = memory payment_request_key;
  audit_logs = memory audit_log_key;
  notifications = memory notification_key;
}

abbrev is_empty : String → Bool
is_empty String.[] = true
is_empty _ = false

abbrev days_after : ℤ → ℕ → ℕ
days_after (pos d) t = t + d * 86400000
days_after (negsuc d) t = t - (1 + d) * 86400000

-- Months of thirty days.
abbrev pub runtime : Runtime
runtime = record {
  add_month = λ t. t + 2592000000;
  add_days = days_after;
  to_upper = λ s. s;
  trim_is_empty = is_empty;
  add_month_later = λ t. omega arith;
  add_days_later = λ d t. omega arith;
}

abbrev pub acme : Organization
acme = record { id = 0; name = "Acme"; slug = "acme" }

abbrev pub alice : Member
alice = record {
  id = 0;
  organization = acme;
  email = "alice@acme.rw";
  password_hash = "hash";
  role = OrganizationRole.owner;
  email_verified = true;
}

abbrev pub pro : Plan
pro = record {
  id = 1;
  code = "PRO";
  name = "Pro";
  description = none;
  price_monthly_rwf = 2500000;
  rate_limit_per_hour = some 1000;
  features = [];
  is_active = true;
}

abbrev pub free : Plan
free = record pro { id = 0; code = "FREE"; name = "Free"; price_monthly_rwf = 0 }

abbrev pub free_key : ApiKey
free_key = record {
  id = 0;
  developer_name = "acme";
  name = none;
  hashed_key = "h";
  key_prefix = "p";
  environment = ApiKeyEnvironment.live;
  tier = "FREE";
  is_active = true;
  expires_at = none;
  last_used_at = none;
  revoked_at = none;
}

abbrev pub old_subscription : Subscription
old_subscription = record {
  id = 0;
  developer_name = "acme";
  plan_id = 0;
  status = SubscriptionStatus.active;
  current_period_start = 0;
  current_period_end = 2592000000;
  cancelled_at = none;
}

abbrev pub payment : PaymentRequest
payment = record {
  id = 0;
  user_id = 0;
  user_email = "alice@acme.rw";
  subscription_id = none;
  plan_id = some 1;
  amount = 2500000;
  status = PaymentRequestStatus.pending;
  admin_notes = none;
  rejection_reason = none;
  reviewed_by = none;
  reviewed_by_email = none;
  reviewed_at = none;
}

abbrev pub root_admin : JwtPayload
root_admin = record {
  sub = 9;
  org_id = 9;
  role = OrganizationRole.master_admin;
  email = "root@kigali.rw";
}

abbrev pub start_db : Db in_memory
unfolding memory
start_db = record {
  members = table member_key (alice ∷ []);
  api_keys = table api_key_key (free_key ∷ []);
  plans = table plan_key (pro ∷ free ∷ []);
  subscriptions = table subscription_key (old_subscription ∷ []);
  invoices = table invoice_key [];
  payment_requests = table payment_request_key (payment ∷ []);
  audit_logs = table audit_log_key [];
  notifications = table notification_key [];
}
