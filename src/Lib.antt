-- ===== src/Lib.antt =====
-- OPORD AI governance: who may use which AI service, what it costs, and when a request or a call of
-- the model gateway is stopped.
--
-- The program and its model. A handler of the service (internal/orchestrator) takes a context with
-- the caller, talks to the database through generated queries (internal/db) and returns a value or
-- an error. Here a handler is a function from `Env` (the caller, the clock, which queries fail) and
-- `Db` (the tables) to a result and the database afterwards; what was written before an error stays
-- written.
--
--   Base                      helpers: tests, lists, results and the `do` notation, text, integers
--   Json                      encoding/json documents, as the raw columns hold them
--   Db, Db.Rows               the tables, the caller and the clock; rows of internal/db/models.go
--   Db.Users, .Mcp,           the queries of internal/db/users.sql.go, mcp.sql.go and ai.sql.go with
--     .Governance, .Access,   the unique and check constraints of migrations/
--     .Providers, .Listings
--   Tenant                    internal/orchestrator/tenant.go: tenantForCreate, scopeTenant,
--                             tenantVisible; emitAIAudit of ai.go
--   Auth, Auth.Users          internal/auth/auth.go and internal/orchestrator/auth.go
--   Mcp.Registry, .Grants,    internal/orchestrator/mcp.go: servers, grants, AuthorizeMCP
--     .Authorize
--   Pricing, Pricing.Table    internal/orchestrator/ai_pricing.go: priceFor and the estimates
--   Budget.Cost, .Summary,    internal/orchestrator/ai_governance.go: aiCostUSD,
--     .Edit                   ListAIBudgetSummaries, Create-, Update- and DeleteAIBudget
--   Quota                     the same file: the four operations on quotas
--   Policy, Policy.Rule       the same file and ai_enforce.go: access policies and their rules
--   Enforce, .Scope, .Gateway internal/orchestrator/ai_enforce.go: evaluateAIGovernance, which
--                             reads Policy, Quota and Budget, and evaluateGatewayBudget
--   Access, .Listings         internal/orchestrator/ai.go: RevokeAIInstance, the expiry reaper,
--                             RecertifyAIInstance, ListAIAccessReview and ListAIAuditEvents, with
--                             the adapters of internal/aiproviders as a parameter;
--                             ListAIExpiringInstances of ai_governance.go
--   Requests, Db.Requests     internal/orchestrator/request.go: CreateRequest, RejectRequest,
--                             RequestStatus and ListRequests, with the ticket system as a
--                             parameter; internal/db/requests.sql.go
--   Providers, .Config        internal/orchestrator/ai.go: the operations on AI providers, their
--                             configuration and the import of the services that they advertise
--   Providers.Adapter         internal/aiproviders/provider.go: the interface of an adapter and the
--                             registry; `Wiring` is the registry and the secret store of a service
--   Providers.Catalog         ai_governance.go: the import and the list of the models
--   Provision, .Spec,         ai.go: CreateAIRequest, the spec of a request, ProvisionAIRequest with
--     .Grant, .Minted         its first usage, and the secrets that an adapter mints
--   Approval                  request.go: ApproveRequest, which calls Provision
--   Dlp, .Decode, .Redact     internal/orchestrator/ai_dlp.go: luhnValid, redactDLP with the
--                             json.Unmarshal that it starts from, dlpEnabled
--   Gateway, Gateway.Usage    ai_governance.go: the two proxies, which read Providers, Enforce.Gateway
--                             and Dlp, and recordGatewayUsage
--   Imports, .Rows, .Pages,   ai_governance.go: ImportOpenAICosts, ImportAnthropicCosts and
--     .Spend                  ImportLiteLLMSpend
--   Admin, .Types, .Projects  internal/orchestrator/ai_admin.go over the two optional interfaces of
--                             internal/aiproviders/admin.go; a call works on the database and on the
--                             state `Org` of the organisation
--   Api, .Table, .Redact      internal/api/server.go: the routes, their role gates and writeErr;
--                             redactAIProviderConfig of internal/api/ai.go
--   Examples                  a small database on which the theorems are run
--
-- The other modules hold the proofs about their parent.
--
-- Representation. Text is a sequence of code points: `trim` knows every white-space code point, and
-- lower case and case folding are those of ASCII. A UUID is a number with 0 for uuid.Nil, a
-- nullable column an `Option`, a time a number of nanoseconds; the starts of the day, month and
-- year come with the clock. A JSON document is kept as it is written, so an object may have a key
-- twice: `entry` reads the last one, and Dlp.Decode is what encoding/json keeps of the whole; its
-- numbers are whole. Money (float64 in the source) is a whole number of 10^-12 dollars and
-- sums are exact, percentages are exact fractions, prices are micro-dollars for a million tokens
-- and token counts are whole numbers, so the rounding of floating point is not modelled. Each query
-- may fail by itself (`fails`), all of its runs in one call alike, but for the second reading of the
-- usage by evaluateGatewayBudget, which is a query of its own; a broken constraint is an error. A table lists its newest row
-- first, and new rows get the next number as id. Loops are structural recursion, but for the pages
-- of a cost report: the code reads at most 40, and so does `import_pages` with 40 as fuel.
--
-- Parameters. `Wiring`, `Provider`, `AdminProvisioner` and `ProjectControlsProvisioner` (secret
-- store, adapters), `Adapters` (which revocations are confirmed), `Parsers` (times and UUIDs),
-- `Engine` (regular expressions, the float64 of a number, and whether a document is encoded), `Http` and `CostApis` (the clients), `AnthropicReader` (decimal texts,
-- names of workspaces), and how the router fits a path to a pattern. They are functions: the same
-- call gives the same answer.
--
-- Not modelled. The texts of errors, log lines, events, an audit event's message and fields, and
-- the `updated_at` columns. The hash of API keys and the random source are arguments, and the way a
-- UUID prints is a field of `Env`. A day added to a time is 24 hours. A minted key is ASCII. The
-- order in which Go walks a map is that of the document. The adapters behind
-- internal/aiproviders/provider.go and admin.go, internal/creds, internal/events, internal/config,
-- the handlers of internal/api and web/ are left out.
mod Base
pub mod Json
pub mod Db
pub mod Tenant
pub mod Auth
pub mod Mcp
pub mod Pricing
pub mod Budget
pub mod Quota
pub mod Policy
pub mod Enforce
pub mod Access
pub mod Requests
pub mod Dlp
pub mod Providers
pub mod Provision
pub mod Approval
pub mod Gateway
pub mod Imports
pub mod Api
pub mod Admin
pub mod Examples
