-- ===== src/Imports/Rows.antt =====
-- The loop of both cost imports over the line items of a response: an item whose import key is
-- stored is skipped, another is written.
use opord_ai_demo.Base.{ℕ, suc, String, none, some, List, [], ◌∷◌, Result, ok, err, Exec}
use opord_ai_demo.Base.Int.{ℤ}
use opord_ai_demo.Json.{Json}
use opord_ai_demo.Db.{Env, Db, DbError, no_rows, violation, failed}
use opord_ai_demo.Db.Rows.{AiUsageRecord}
use opord_ai_demo.Db.Access.{usage_by_import_key, create_usage_row}

pub data ImportError : Type 0 where
  name_required key_missing empty_period bad_url request_failed bad_body no_adapter : ImportError
  bad_status : ℕ → ImportError
  wrong_type : String → ImportError
  not_found check_failed create_failed list_failed : DbError → ImportError

-- result.Imported and result.Skipped.
pub record Counts : Type 0 where
  pub imported : ℕ
  pub skipped : ℕ

abbrev pub no_counts : Counts
no_counts = record { imported = 0; skipped = 0 }

-- One line item: its period, its import key, its cost, and the document that is stored with it.
pub record CostRow : Type 0 where
  pub start : ℕ
  pub until : ℕ
  pub import_key : String
  pub cost : ℤ
  pub raw : Json

abbrev pub usage_row_of : ℕ → CostRow → AiUsageRecord
usage_row_of provider_id r = record {
  id = 0;
  instance_id = none;
  provider_id = provider_id;
  period_start = r.start;
  period_end = r.until;
  metric = "cost_usd";
  quantity = r.cost;
  unit = "usd";
  cost_usd = r.cost;
  raw = some r.raw;
}

-- After the insert: the rest, with one more imported.
abbrev pub counted :
    (Counts → Exec Db ImportError Counts)
    → Counts
    → Result DbError AiUsageRecord × Db
    → Result ImportError Counts × Db
counted next c (ok u, db) = next (record c { imported = suc c.imported }) db
counted next c (err x, db) = (err (create_failed x), db)

-- After the look-up of the import key.
abbrev pub unless_stored :
    Env
    → ℕ
    → CostRow
    → (Counts → Exec Db ImportError Counts)
    → Counts
    → Result DbError AiUsageRecord
    → Exec Db ImportError Counts
unless_stored e provider_id r next c (ok u) db = next (record c { skipped = suc c.skipped }) db
unless_stored e provider_id r next c (err no_rows) db =
    counted next c (create_usage_row e (usage_row_of provider_id r) db)
unless_stored e provider_id r next c (err violation) db = (err (check_failed violation), db)
unless_stored e provider_id r next c (err failed) db = (err (check_failed failed), db)

unfoldable pub import_rows : Env → ℕ → List CostRow → Counts → Exec Db ImportError Counts
import_rows e provider_id [] c db = (ok c, db)
import_rows e provider_id (r ∷ rs) c db =
    unless_stored e provider_id r (import_rows e provider_id rs) c
      (usage_by_import_key e provider_id r.start r.until "cost_usd" r.import_key db) db
