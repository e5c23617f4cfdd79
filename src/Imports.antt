-- ===== src/Imports.antt =====
-- The cost imports of internal/orchestrator/ai_governance.go: ImportOpenAICosts,
-- ImportAnthropicCosts and ImportLiteLLMSpend. A failed import gives its error; the counts that come
-- with it, which no caller reads, are left out.
pub mod Rows
pub mod Pages
pub mod Again
pub mod Keys
pub mod Pagination
pub mod Spend
use opord_ai_demo.Base.{
  ℕ, ◌+◌, ◌-◌, ◌*◌, String, Bool, Option, none, some, List, [], ◌∷◌, Result, ok, err, Exec, pure,
  fail, guard, perform, reading, ◌>>=◌, ◌>>◌, if◌then◌else◌, ◌==◌, leb, ltb, non_empty, or_else,
  trim,
}
use opord_ai_demo.Json.{Json, Fields, Raw}
use opord_ai_demo.Db.{Env, Db, DbError}
use opord_ai_demo.Db.Rows.{AiProvider}
use opord_ai_demo.Db.Providers.{provider_by_name}
use opord_ai_demo.Tenant.{emit_audit}
use opord_ai_demo.Access.{day}
use opord_ai_demo.Providers.Adapter.{Credentials, secret, Wiring}
use opord_ai_demo.Providers.{ai_credentials}
use opord_ai_demo.Gateway.{first_secret}
use Rows.{ImportError, Counts, no_counts, import_rows}
use Pages.{
  OpenAiBucket, openai_rows, AnthropicCostReport, AnthropicReader, Answer, Fetch, read_answer,
  import_pages, page_limit,
}
use opord_ai_demo.Provision.Spec.{Parsers}
use opord_ai_demo.Providers.Config.{ai_provider_config}

-- OpenAICostImportInput and AnthropicCostImportInput; `none` is the zero time.
pub record CostImportInput : Type 0 where
  pub provider_name : String
  pub start : Option ℕ
  pub until : Option ℕ

pub record CostImportResult : Type 0 where
  pub provider_name : String
  pub counts : Counts
  pub period_start : ℕ
  pub period_end : ℕ

abbrev pub or_time : Option ℕ → ℕ → ℕ
or_time none d = d
or_time (some t) d = t

abbrev pub result_of : AiProvider → ℕ → ℕ → Counts → CostImportResult
result_of p start until counts = record {
  provider_name = p.name;
  counts = counts;
  period_start = start;
  period_end = until;
}

-- What both imports do before and after their requests. `fetch` has the key, the configuration and
-- the period, and gives the counts of what was imported.
unfoldable pub import_costs :
    Env
    → Wiring
    → String
    → List String
    → (AiProvider → String → ℕ → ℕ → Exec Db ImportError Counts)
    → CostImportInput
    → Exec Db ImportError CostImportResult
import_costs e w type keys fetch input = do
  guard (non_empty (trim input.provider_name)) ImportError.name_required
  p ← reading (provider_by_name e (trim input.provider_name)) ImportError.not_found
  guard (p.type == type) (ImportError.wrong_type p.type)
  key ← λ db. pure (first_secret (ai_credentials e w p db) keys) db
  guard (non_empty key) ImportError.key_missing
  guard (ltb (or_time input.start (e.now - 7 * day)) (or_time input.until e.now))
      ImportError.empty_period
  counts ← fetch p key (or_time input.start (e.now - 7 * day)) (or_time input.until e.now)
  perform (emit_audit e "ai_provider" p.id "usage_imported" "")
  pure (result_of p (or_time input.start (e.now - 7 * day)) (or_time input.until e.now) counts)

-- The two clients: what a GET of the costs of a period answers, by the key and the configuration.
pub record CostApis : Type 0 where
  pub openai : String → Fields → ℕ → ℕ → Option (Answer (List OpenAiBucket))
  pub anthropic : String → Fields → ℕ → ℕ → Fetch AnthropicCostReport

abbrev pub rows_or_error :
    Env → ℕ → Result ImportError (List OpenAiBucket) → Exec Db ImportError Counts
rows_or_error e provider_id (err x) db = (err x, db)
rows_or_error e provider_id (ok bs) db = import_rows e provider_id (openai_rows bs) no_counts db

unfoldable pub import_openai_costs :
    Env → Wiring → CostApis → CostImportInput → Exec Db ImportError CostImportResult
unfolding import_costs
import_openai_costs e w apis =
    import_costs e w "openai" ("admin_api_key" ∷ "api_key" ∷ "openai_api_key" ∷ "token" ∷ [])
      (λ p key start until.
        rows_or_error e p.id (read_answer (apis.openai key (ai_provider_config p) start until)))

unfoldable pub import_anthropic_costs :
    Env
    → Wiring
    → Parsers
    → AnthropicReader
    → CostApis
    → CostImportInput
    → Exec Db ImportError CostImportResult
unfolding import_costs
import_anthropic_costs e w ps rd apis =
    import_costs e w "anthropic" ("admin_api_key" ∷ "api_key" ∷ "anthropic_api_key" ∷ "token" ∷ [])
      (λ p key start until.
        import_pages e ps rd (apis.anthropic key (ai_provider_config p) start until) p.id page_limit
          "" no_counts)
