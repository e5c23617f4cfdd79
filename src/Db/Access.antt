-- ===== src/Db/Access.antt =====
-- internal/db/ai.sql.go: the queries on one service instance, and on the service and the provider
-- behind it. The join of a service with its provider drops no row: provider_id is a foreign key.
use opord_ai_demo.Base.{
  ℕ, Bool, none, some, Result, ok, find, update_where, ◌=?◌, String, err, ◌∷◌, ◌==◌, ◌||◌,
  if◌then◌else◌, List, Option, ◌&&◌, false,
}
use opord_ai_demo.Db.{
  Env, Db, DbError, query, first_row, write, get_instance, get_service, get_provider,
  revoke_instance, recertify_instance, fresh, violation, create_instance, create_usage,
  find_usage_by_key, find_key_spend, update_usage_cost,
}
use opord_ai_demo.Db.Rows.{AiProvider, AiService, AiServiceInstance, AiUsageRecord}
use opord_ai_demo.Base.Int.{ℤ}
use opord_ai_demo.Json.{Json, Raw, null, bool, num, text, arr, obj, entry}

unfoldable pub instance_by_id : Env → ℕ → Db → Result DbError AiServiceInstance
instance_by_id e id db =
    query e get_instance (first_row (find (λ (i : AiServiceInstance). i.id =? id) db.instances))

unfoldable pub service_by_id : Env → ℕ → Db → Result DbError AiService
service_by_id e id db =
    query e get_service (first_row (find (λ (s : AiService). s.id =? id) db.services))

unfoldable pub provider_by_id : Env → ℕ → Db → Result DbError AiProvider
provider_by_id e id db =
    query e get_provider (first_row (find (λ (p : AiProvider). p.id =? id) db.providers))

abbrev pub with_id : ℕ → AiServiceInstance → Bool
with_id id i = i.id =? id

update_instance :
    (AiServiceInstance → AiServiceInstance) → ℕ → Db → Result DbError AiServiceInstance × Db
update_instance change id db = elim (find (with_id id) db.instances) [
  | none ↦ (first_row none, db)
  | some i ↦
      (ok (change i), record db { instances = update_where (with_id id) change db.instances })
]

abbrev pub revoked : Env → AiServiceInstance → AiServiceInstance
revoked e i = record i { status = "revoked"; revoked_at = some e.now }

unfoldable pub revoke_instance_row : Env → ℕ → Db → Result DbError AiServiceInstance × Db
unfolding update_instance
revoke_instance_row e id db = write e revoke_instance db (update_instance (revoked e) id db)

abbrev pub extended : ℕ → AiServiceInstance → AiServiceInstance
extended until i = record i { expires_at = some until }

unfoldable pub recertify_instance_row : Env → ℕ → ℕ → Db → Result DbError AiServiceInstance × Db
unfolding update_instance
recertify_instance_row e id until db =
    write e recertify_instance db (update_instance (extended until) id db)

unfoldable pub valid_instance_status : String → Bool
valid_instance_status s =
    s == "provisioning"
    || s == "active"
    || s == "suspended"
    || s == "revoking"
    || s == "revoked"
    || s == "expired"
    || s == "failed"

-- The row is given with any id and creation time, which the insert replaces.
unfoldable pub create_instance_row :
    Env → AiServiceInstance → Db → Result DbError AiServiceInstance × Db
create_instance_row e row db =
    let i = record row { id = fresh db; created_at = e.now } in
    write e create_instance db (
      if valid_instance_status row.status
      then (ok i, record db { next_id = fresh db; instances = i ∷ db.instances })
      else (err violation, db))

-- The row is given with any id, which the insert replaces.
unfoldable pub create_usage_row : Env → AiUsageRecord → Db → Result DbError AiUsageRecord × Db
create_usage_row e row db =
    let u = record row { id = fresh db } in
    write e create_usage db (ok u, record db { next_id = fresh db; usage = u ∷ db.usage })

-- The provider that a service is joined with.
unfoldable pub joined :
    List AiProvider → Result DbError AiService → Result DbError (AiService × AiProvider)
joined ps (err x) = err x
joined ps (ok s) = elim (find (λ (p : AiProvider). p.id =? s.provider_id) ps) [
  | none ↦ first_row none
  | some p ↦ ok (s, p)
]

abbrev text_at : Option Json → Option String
text_at none = none
text_at (some null) = none
text_at (some (bool b)) = none
text_at (some (num n)) = none
text_at (some (text s)) = some s
text_at (some (arr xs)) = none
text_at (some (obj fs)) = none

abbrev pub is_text : Option String → String → Bool
is_text none s = false
is_text (some t) s = t == s

abbrev pub is_some_id : Option ℕ → ℕ → Bool
is_some_id none id = false
is_some_id (some i) id = i =? id

-- `raw->>'key'`, where it is a text. The values that are looked for are never printed numbers.
unfoldable pub raw_text : String → Raw → Option String
raw_text key none = none
raw_text key (some j) = elim j [ obj fs ↦ text_at (entry key fs) | _ ↦ none ]

unfoldable pub is_import_of : ℕ → ℕ → ℕ → String → String → AiUsageRecord → Bool
is_import_of provider_id start until metric key u =
    u.provider_id =? provider_id
    && u.period_start =? start
    && u.period_end =? until
    && u.metric == metric
    && is_text (raw_text "import_key" u.raw) key

unfoldable pub usage_by_import_key :
    Env → ℕ → ℕ → ℕ → String → String → Db → Result DbError AiUsageRecord
usage_by_import_key e provider_id start until metric key db =
    query e find_usage_by_key
      (first_row (find (is_import_of provider_id start until metric key) db.usage))

unfoldable pub is_key_spend : ℕ → AiUsageRecord → Bool
is_key_spend instance_id u =
    is_some_id u.instance_id instance_id
    && u.metric == "cost_usd"
    && is_text (raw_text "source" u.raw) "litellm_spend"

unfoldable pub key_spend_of : Env → ℕ → Db → Result DbError AiUsageRecord
key_spend_of e instance_id db =
    query e find_key_spend (first_row (find (is_key_spend instance_id) db.usage))

abbrev pub with_cost : Env → ℤ → AiUsageRecord → AiUsageRecord
with_cost e cost u = record u {
  cost_usd = cost;
  quantity = cost;
  period_start = e.now;
  period_end = e.now;
}

unfoldable pub update_usage_cost_row : Env → ℕ → ℤ → Db → Result DbError (Unit {0}) × Db
update_usage_cost_row e id cost db = write e update_usage_cost db (
  ok tt,
  record db {
    usage = update_where (λ (u : AiUsageRecord). u.id =? id) (with_cost e cost) db.usage;
  },
)
