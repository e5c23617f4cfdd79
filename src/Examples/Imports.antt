-- ===== src/Examples/Imports.antt =====
-- Runs of the theorems on the cost imports.
use opord_ai_demo.Base.{
  ◌+◌, if◌then◌else◌, ◌==◌, digits, String, Bool, true, false, none, some, List, [], ◌∷◌, ◌≡◌, refl,
  ok, arith, find, length, trim, glue,
}
use opord_ai_demo.Base.Int.{pos}
use opord_ai_demo.Json.{entry}
use opord_ai_demo.Db.{Db}
use opord_ai_demo.Db.Access.{usage_by_import_key, create_usage_row, is_import_of, raw_text}
use opord_ai_demo.Imports.Rows.{Counts, no_counts, CostRow, import_rows}
use opord_ai_demo.Imports.Pages.{
  OpenAiBucket, openai_rows, AnthropicCostReport, AnthropicReader, Fetch, read_answer, import_pages,
}
use opord_ai_demo.Imports.Again.{import_rows_again}
use opord_ai_demo.Imports.Keys.{openai_rows-Keyed}
use opord_ai_demo.Imports.Pagination.{Chain, last, next, all_rows, import_pages-import_rows}
use opord_ai_demo.Examples.{env, db}
use opord_ai_demo.Examples.Approvals.{parsers}

abbrev bucket : OpenAiBucket
bucket = record {
  start_time = 1;
  end_time = 2;
  results =
      record { amount = pos 5; currency = "usd"; project_id = "p"; line_item = "gpt" }
      ∷ record { amount = pos 6; currency = "usd"; project_id = "p"; line_item = "gpt" }
      ∷ [];
}

abbrev rows : List CostRow
rows = openai_rows (bucket ∷ [])

abbrev first_counts : Counts
first_counts = record { imported = 2; skipped = 0 }

abbrev imported_once : Db
imported_once = (import_rows env 10 rows no_counts db).1

first_import : import_rows env 10 rows no_counts db ≡ (ok first_counts, imported_once)
unfolding openai_rows import_rows usage_by_import_key create_usage_row is_import_of find raw_text
    entry glue digits
first_import = refl

import_rows_again_example :
    import_rows env 10 rows no_counts imported_once
    ≡ (ok (record no_counts { skipped = 0 + length rows }), imported_once)
import_rows_again_example =
    import_rows_again env 10 rows no_counts first_counts no_counts db imported_once
      (openai_rows-Keyed (bucket ∷ [])) first_import

abbrev page : String → Bool → AnthropicCostReport
page name more = record {
  buckets =
      record {
        starting_at = "2026-01-01T00:00:00Z";
        ending_at = "2026-01-02T00:00:00Z";
        results =
            record {
              amount = "500";
              currency = "USD";
              cost_type = "tokens";
              description = name;
              model = "claude";
              workspace_id = "w";
              token_type = "output";
            }
            ∷ [];
      }
      ∷ [];
  has_more = more;
  next_page = "p2";
}

-- Two pages.
abbrev pages : Fetch AnthropicCostReport
pages token =
    if token == ""
    then some record { status_code = 200; document = some (page "one" true) }
    else some record { status_code = 200; document = some (page "two" false) }

abbrev reader : AnthropicReader
reader = record { parse_amount = λ s. some (pos 5); workspace_name = λ id. none }

page_answered : read_answer (pages "") ≡ ok (page "one" true)
unfolding read_answer
page_answered = refl

last_answered : read_answer (pages "p2") ≡ ok (page "two" false)
unfolding read_answer
last_answered = refl

two_pages : Chain pages "" (page "one" true ∷ page "two" false ∷ [])
unfolding trim
two_pages = next page_answered refl (last last_answered refl)

import_pages-import_rows_example :
    import_pages env parsers reader pages 10 40 "" no_counts db
    ≡ import_rows env 10
        (all_rows parsers reader (page "one" true ∷ page "two" false ∷ []))
        no_counts
        db
import_pages-import_rows_example =
    import_pages-import_rows env parsers reader pages 10 40 ""
      (page "one" true ∷ page "two" false ∷ []) no_counts db two_pages (omega arith)
