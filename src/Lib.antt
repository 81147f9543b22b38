-- ===== src/Lib.antt =====
-- ad-link joins the ads of a platform with the leads and deals of a CRM. The API (apps/api/src)
-- matches each lead to the ad that produced it, resolves persons to contacts, maps the CRM's stages
-- to canonical statuses, and reports qualified leads and purchases back to the ad platform. The
-- packages under packages/core/src hold the types and rules that the API and the web application
-- share. This library models the core rules and the services on top of them.
--
--   Common         helpers: tests on numbers and texts, lists, JavaScript Maps and Sets, stable sort
--   Core.Enums     packages/core/src/enums.ts
--   Core.Matching  packages/core/src/matching.ts: decideMatch
--   Core.Metrics   packages/core/src/metrics.ts and the row of types.ts: ratio, deriveMetrics
--   Core.Recommendations  packages/core/src/recommendations.ts: recommend
--   Core.Identity  packages/core/src/identity.ts: normalizeEmail, normalizePhoneNaive and
--                  normalizeIdentifiers
--   Core.Creative  packages/core/src/creative.ts: parseCreativeName
--   Core.Format    packages/core/src/format.ts: formatOrDash and roasBand
--   Db             the rows of packages/db/prisma/schema.prisma
--   Matching       apps/api/src/matching/matching.service.ts: matchLead, matchUnmatched,
--                  resolveManual, matchRate, reviewQueue
--   Contacts       apps/api/src/identity/contact-resolver.service.ts: resolve and attach
--   Crm            apps/api/src/crm/canonical.ts and setMappings of apps/api/src/crm/crm.service.ts;
--                  Crm.Connections is the rest of that service
--   CrmSync        apps/api/src/ingest/crm-sync.service.ts and apps/api/src/jobs/sync-run.service.ts
--   QrLogin        apps/api/src/auth/qr/qr-login.service.ts: start, status, info, approve
--   Conversions    apps/api/src/conversions/conversions.service.ts: generate and, in
--                  Conversions.Reporting, push
--   MetaSync       apps/api/src/ingest/meta-sync.service.ts
--   Metrics        apps/api/src/metrics/metrics.service.ts: performance, cohorts, recommendations and,
--                  in Metrics.Creatives, creativeInsights
--   Access         apps/api/src/common: the middleware and the guards; Access.Scope is the extension of
--                  apps/api/src/prisma/prisma.client.ts that scopes the queries to a tenant
--   AdAccounts     apps/api/src/ad-accounts/ad-accounts.service.ts; AdAccounts.Oauth is the exchange with
--                  Meta, AdAccounts.Picker the picker sessions and their routes in
--                  ad-accounts.controller.ts
--   Auth           apps/api/src/auth/auth.service.ts; Auth.Telegram is the check of the login widget,
--                  Auth.Desktop the callbacks of auth.controller.ts and the messages of
--                  qr/telegram-bot.service.ts, which sign a desktop in through QrLogin
--   Clients        apps/api/src/clients/clients.service.ts
--   Jobs           the processors of apps/api/src/connectors, and apps/api/src/matching/capture.service.ts
--   Tenancy        tables that hold the rows of several tenants
--   Secrets        apps/api/src/common/crypto: encrypt, decrypt and the vault
--   Connectors     apps/api/src/connectors: Meta, Bitrix24 and amoCRM, their paging and their rows
--   Web            apps/web/src: components/date-range-picker.tsx in Web.DateRange,
--                  app/(app)/performance/page.tsx in Web.Performance, lib/heatmap.ts in Web.Heatmap
--
-- A service is a record of the tables it uses and one function for each method, which takes the
-- record and gives the new one with the answer. A table is the list of its rows in the order in which
-- a query without `orderBy` returns them; the theorems are about every order. The queries of one call
-- run one after the other, and no other call comes between them; in QrLogin, Auth and
-- AdAccounts.Picker sequences of calls are the object of the theorems. An exception is a constructor
-- of the answer. A component with more than a file's worth of definitions has the rows in a module of
-- its own (Rows, Candidates, Hierarchy), whose names the parent passes on. Loops are recursion
-- on the list that they go through. The paging loops of the connectors recur on the requests that the
-- guard of the source leaves (1000, or 2000 for a stage history); `month_from` of Web.DateRange, which
-- counts the months up to a day, has the number of the day and one more, which `month_of_bounds`
-- shows to be enough.
--
-- Numbers: counts, times (milliseconds or days since 1970, UTC) and amounts are natural numbers. An
-- amount is exact: a spend in units of 10⁻⁶, a deal in units of 10⁻², a converted amount in units of
-- 10⁻¹⁴. A quotient is an exact fraction, where the source rounds to a double; a confidence is a
-- number of hundredths. Amounts below 0 are left out. A text that is only compared is a String; one
-- that is walked is the list of its codes, with `toLowerCase` on ASCII. Time passes in QrLogin in
-- milliseconds, also between the two commands of one request, and in Auth in seconds, in which a
-- token is dated.
--
-- Parameters: the hash, the drawn ids and secrets, Redis (a record of its commands and of the laws
-- of its documentation, with an instance in QrLogin.Slots), the verdict of the platform's
-- connector on an event, and the rows that the connectors give the sync services, or that they throw.
-- bcrypt, the signer of the tokens (which reads the clock), the digests of Telegram's widget,
-- `normalize('NFKD')` and Google's answer in Auth; the cipher and base64 with their laws in Secrets;
-- the answers of the platforms in Connectors and AdAccounts.Oauth; the database's comparison of names
-- in Clients; the vault and the connection to a platform in Jobs.
--
-- Not modelled: journey of the metrics service, whose query depends on how Prisma reads an undefined
-- condition; the controllers but those of the ad accounts and the callbacks of the authentication; the
-- schedulers; the addresses that the connectors build; the number formats of Intl; the text of a
-- recommendation's reason; and of the web application all but the three files above: views, and the
-- client of the API.
pub mod Access
pub mod AdAccounts
pub mod Auth
pub mod Clients
pub mod Common
pub mod Connectors
pub mod Contacts
pub mod Conversions
pub mod Core
pub mod Crm
pub mod CrmSync
pub mod Db
pub mod Jobs
pub mod Matching
pub mod MetaSync
pub mod Metrics
pub mod QrLogin
pub mod Secrets
pub mod Tenancy
pub mod Web
