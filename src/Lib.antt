-- ===== src/Lib.antt =====
-- Kigali-Pack: a platform of Rwandan developer APIs (a NestJS server over PostgreSQL and Redis).
--
-- The modules and the code that they are about, paths from the repository's root:
--   Base, Text        the names that all share; texts as lists of code units
--   Payroll           src/modules/kyc/rra-payroll.service.ts, the tax route of kyc.controller.ts and
--                     the bracket table of src/modules/auth/master-core-snapshot.controller.ts
--   Phone             src/modules/utilities/phone.service.ts
--   NationalId        the mock lookup of src/modules/kyc/kyc.controller.ts and the generator of
--                     src/modules/utilities/test-data.service.ts
--   Orm               the TypeORM repositories: an interface of operations and their documented
--                     laws, an instance in memory (Orm/Memory) that shows that it can be met,
--                     and tables with a text that no two rows share (Orm/Unique)
--   Service           service methods as actions on the database that return or throw, and the
--                     interface of a transaction, with an instance (Service/Rollback);
--                     Service/Keeps is about runs that may throw
--   Data              the entities of src/modules/*/entities
--   Billing           src/modules/billing: the payment review (Billing/Payments), the operations of
--                     the admins on subscriptions (Billing/Subscriptions), on plans (Billing/Plans)
--                     and on users (Billing/Users), those of a developer on its own subscription
--                     (Billing/Developer), the scheduled expiry and the guard of subscriptions
--                     (Billing/Cron); the overrides of src/modules/admin/admin.service.ts
--                     (Billing/Overrides)
--   Webhooks          src/modules/webhooks: the registration and the dispatch of events
--                     (webhook.service.ts) and the worker (webhook-delivery.processor.ts)
--   Sandbox           src/modules/sandbox: simulated charges, which tell the webhooks
--   Signing           src/common/utils/webhook-signing.util.ts
--   RateLimit         src/common/rate-limit, src/common/guards/tier-throttler.guard.ts and
--                     auth-rate-limit.guard.ts
--   Pagination        src/common/utils/pagination.util.ts
--   ApiKeys           src/modules/auth/api-key.service.ts and src/common/guards/api-key.guard.ts
--   Sessions          login, refresh and logout of src/modules/auth/auth.service.ts
--   ActionTokens      the password resets and e-mail verifications of the same service
--   Registration      its registration, which uses Sessions, ActionTokens and ApiKeys
--   Organizations     src/modules/organizations/organization.service.ts
--   Profiles          src/modules/me/me.service.ts
--   Responses         src/common/filters/http-exception.filter.ts
--   Guards            src/common/guards: the guards of access tokens, roles and shared keys
--
-- What the code calls and this repository does not hold is a parameter: the repositories and the
-- data source of TypeORM (Orm.Repository, Service.DataSource), the calendar and the case mapping
-- of the language (Billing.Runtime), the answer of a webhook's endpoint, Redis (RateLimit.Redis),
-- the digest and the random part of tokens, the signing of access tokens, the answer of the mail
-- server, and the HMAC and the number parsing of Signing. Names of functions
-- are the source's, in snake case; a method that the source writes in one block is split into the
-- steps that its blank lines mark. Each method reads the clock once, as the argument `now`. The
-- primary keys, which are uuids that the program only compares, are natural numbers; an amount is
-- a whole number of hundredths of a franc. A salary is a whole number of francs: the routes also
-- take fractions, which Payroll leaves out. A time is a natural number of milliseconds since 1970.
-- That a plan is not removed while a subscription refers to it is the foreign key of
-- src/database/migrations/1730000000002-PlatformExpansion.ts.
--
-- Bounds and fuel: Text/Decimal prints a number with twenty digits of fuel, which is enough for
-- every number below 10 ^ 20; the worker of Webhooks runs once for each input that it is given, and
-- its theorem asks for as many inputs as the delivery has attempts left; the timers of Sandbox fire
-- once each, and its theorem takes an answer for each timer that waits.
--
-- Not modelled: the HTTP routes and their validation, the e-mails, the SQL aggregation of the
-- analytics, of the listings and of the telemetry, the location tree, the interceptor that wraps
-- replies, the masking of logged bodies, the seeds and migrations, and the log lines; of the
-- entities, the texts that are only stored.
pub mod Base
pub mod Payroll
pub mod Text
pub mod Phone
pub mod NationalId
pub mod Orm
pub mod Service
pub mod Data
pub mod Billing
pub mod Webhooks
pub mod RateLimit
pub mod Pagination
pub mod ApiKeys
pub mod Sessions
pub mod ActionTokens
pub mod Guards
pub mod Registration
pub mod Organizations
pub mod Signing
pub mod Sandbox
pub mod Profiles
pub mod Responses
