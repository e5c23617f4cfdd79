-- ===== src/Imports/Pages.antt =====
-- The responses of the two cost APIs, and the loop over their pages. A response's document is
-- decoded by its field names; the field tags of the Go types are the names here.
use opord_ai_demo.Base.{
  ℕ, zero, suc, ◌*◌, String, Bool, Option, none, some, List, [], ◌∷◌, ◌++◌, Result, ok, err, Exec,
  ◌>>=◌, if◌then◌else◌, ◌==◌, ◌||◌, not, ltb, glue, decimal, trim,
}
use opord_ai_demo.Base.Int.{ℤ}
use opord_ai_demo.Json.{obj, field, end, text}
use opord_ai_demo.Db.{Env, Db}
use opord_ai_demo.Provision.Spec.{Parsers, rfc3339}
use opord_ai_demo.Imports.Rows.{
  ImportError, bad_status, request_failed, bad_body, Counts, CostRow, import_rows,
}

-- openAICostsPayload; times are Unix seconds.
pub record OpenAiItem : Type 0 where
  pub amount : ℤ
  pub currency : String
  pub project_id : String
  pub line_item : String

pub record OpenAiBucket : Type 0 where
  pub start_time : ℕ
  pub end_time : ℕ
  pub results : List OpenAiItem

abbrev joined : List String → String
joined [] = ""
joined (s ∷ []) = s
joined (s ∷ t ∷ ts) = let rest = joined (t ∷ ts) in glue s (glue ":" rest)

unfoldable pub openai_row : OpenAiBucket → ℕ → OpenAiItem → CostRow
openai_row b idx item =
    let key = joined (
      "openai-costs"
      ∷ decimal b.start_time
      ∷ decimal b.end_time
      ∷ item.project_id
      ∷ item.line_item
      ∷ decimal idx
      ∷ []) in
    record {
      start = b.start_time * 1000000000;
      until = b.end_time * 1000000000;
      import_key = key;
      cost = item.amount;
      raw = obj (
          field "source" (text "openai_costs_api") (
            field "import_key" (text key) (
              field "currency" (text item.currency) (
                field "project_id" (text item.project_id)
                  (field "line_item" (text item.line_item) end)))));
    }

unfoldable pub openai_items : OpenAiBucket → ℕ → List OpenAiItem → List CostRow
unfolding openai_row
openai_items b idx [] = []
openai_items b idx (i ∷ is) = openai_row b idx i ∷ openai_items b (suc idx) is

unfoldable pub openai_rows : List OpenAiBucket → List CostRow
unfolding openai_items
openai_rows [] = []
openai_rows (b ∷ bs) = openai_items b 0 b.results ++ openai_rows bs

-- anthropicCostReport; an amount is a decimal text in cents.
pub record AnthropicItem : Type 0 where
  pub amount : String
  pub currency : String
  pub cost_type : String
  pub description : String
  pub model : String
  pub workspace_id : String
  pub token_type : String

pub record AnthropicBucket : Type 0 where
  pub starting_at : String
  pub ending_at : String
  pub results : List AnthropicItem

pub record AnthropicCostReport : Type 0 where
  pub buckets : List AnthropicBucket
  pub has_more : Bool
  pub next_page : String

-- How an amount reads, as strconv.ParseFloat and the division by 100 give it, and the names of the
-- workspaces by their ids, `none` for an id that is not listed.
pub record AnthropicReader : Type 0 where
  pub parse_amount : String → Option ℤ
  pub workspace_name : String → Option String

abbrev or_zero : Option ℕ → ℕ
or_zero none = 0
or_zero (some t) = t

abbrev or_blank : Option String → String
or_blank none = ""
or_blank (some s) = s

unfoldable pub anthropic_row :
    Parsers → AnthropicReader → AnthropicBucket → ℕ → AnthropicItem → ℤ → CostRow
anthropic_row ps rd b idx item usd =
    let key = joined (
      "anthropic-cost"
      ∷ b.starting_at
      ∷ item.workspace_id
      ∷ item.description
      ∷ item.cost_type
      ∷ item.token_type
      ∷ decimal idx
      ∷ []) in
    record {
      start = or_zero (ps.parse_time rfc3339 b.starting_at);
      until = or_zero (ps.parse_time rfc3339 b.ending_at);
      import_key = key;
      cost = usd;
      raw = obj (
          field "source" (text "anthropic_cost_report") (
            field "import_key" (text key) (
              field "currency" (text item.currency) (
                field "workspace_id" (text item.workspace_id) (
                  field "workspace" (text (or_blank (rd.workspace_name item.workspace_id))) (
                    field "description" (text item.description) (
                      field "model" (text item.model)
                        (field "cost_type" (text item.cost_type) end))))))));
    }

-- An item whose amount does not read is passed over, and keeps its place in the numbering.
unfoldable pub anthropic_items :
    Parsers → AnthropicReader → AnthropicBucket → ℕ → List AnthropicItem → List CostRow
unfolding anthropic_row
anthropic_items ps rd b idx [] = []
anthropic_items ps rd b idx (i ∷ is) =
    let rest = anthropic_items ps rd b (suc idx) is in
    elim (rd.parse_amount (trim i.amount)) [
      | none ↦ rest
      | some usd ↦ anthropic_row ps rd b idx i usd ∷ rest
    ]

unfoldable pub anthropic_rows : Parsers → AnthropicReader → List AnthropicBucket → List CostRow
unfolding anthropic_items
anthropic_rows ps rd [] = []
anthropic_rows ps rd (b ∷ bs) = anthropic_items ps rd b 0 b.results ++ anthropic_rows ps rd bs

-- An answer of the API: its status, and its document, `none` where it does not decode.
pub record Answer (A : Type 0) : Type 0 where
  pub status_code : ℕ
  pub document : Option A

-- The GET request of one page ("" is the first), `none` where the client fails.
abbrev pub Fetch : Type 0 → Type 0
Fetch A = String → Option (Answer A)

module _ {A : Type 0} where
  unfoldable pub read_answer : Option (Answer A) → Result ImportError A
  read_answer none = err request_failed
  read_answer (some a) =
      if ltb a.status_code 200 || not (ltb a.status_code 300)
      then err (bad_status a.status_code)
      else elim a.document [ none ↦ err bad_body | some d ↦ ok d ]

-- `!payload.HasMore || strings.TrimSpace(payload.NextPage) == ""`
abbrev pub is_last : AnthropicCostReport → Bool
is_last r = not r.has_more || trim r.next_page == ""

-- After a page's rows: the next page, if there is one.
abbrev pub next_page :
    (Counts → Exec Db ImportError Counts)
    → AnthropicCostReport
    → Counts
    → Exec Db ImportError Counts
next_page next r c db = if is_last r then (ok c, db) else next c db

abbrev pub with_page :
    Env
    → Parsers
    → AnthropicReader
    → ℕ
    → (String → Counts → Exec Db ImportError Counts)
    → Result ImportError AnthropicCostReport
    → Counts
    → Exec Db ImportError Counts
with_page e ps rd provider_id next (err x) c = λ db. (err x, db)
with_page e ps rd provider_id next (ok r) c =
    import_rows e provider_id (anthropic_rows ps rd r.buckets) c
    >>= (λ d. next_page (next r.next_page) r d)

-- The pages one after the other, at most as many as there is fuel for.
unfoldable pub import_pages :
    Env
    → Parsers
    → AnthropicReader
    → Fetch AnthropicCostReport
    → ℕ
    → ℕ
    → String
    → Counts
    → Exec Db ImportError Counts
unfolding read_answer
import_pages e ps rd fetch provider_id zero page c = λ db. (ok c, db)
import_pages e ps rd fetch provider_id (suc fuel) page c =
    with_page e ps rd provider_id (import_pages e ps rd fetch provider_id fuel)
      (read_answer (fetch page)) c

-- `iter < 40`
abbrev pub page_limit : ℕ
page_limit = 40
