-- ===== src/Quota/Laws.antt =====
-- What the edits of quotas may touch.
use opord_ai_demo.Base.{ℕ, ◌≡◌, ◌⊎◌, inl, inr, String, true, false, ok, err, arith, Bool-cases}
use opord_ai_demo.Base.Int.{ℤ, pos, ltb_ℤ}
use opord_ai_demo.Db.{Env, Db}
use opord_ai_demo.Db.Rows.{AiQuota}
use opord_ai_demo.Db.Governance.{quota_by_id, update_quota_row}
use opord_ai_demo.Tenant.{scope_tenant, may_see}
use opord_ai_demo.Budget.{GovernanceError, limit_not_positive, not_found}
use opord_ai_demo.Quota.{update_ai_quota, delete_ai_quota, normal_enforcement}

-- On a quota of another tenant, a caller who is held to a tenant gets an error from both edits,
-- and the database is as before.
pub edit_foreign_quota :
    (e : Env) (id : ℕ) (limit : ℤ) (period enforcement : String) (db : Db) (q : AiQuota)
    → quota_by_id e id db ≡ ok q
    → may_see (scope_tenant e) q.tenant_id ≡ false
    → ((x : GovernanceError) × (update_ai_quota e id limit period enforcement db ≡ (err x, db)))
      × (delete_ai_quota e id db ≡ (err not_found, db))
unfolding update_ai_quota delete_ai_quota
edit_foreign_quota e id limit period enforcement db q found foreign =
    let no_edit : (x : GovernanceError) × (update_ai_quota e id limit period enforcement db
          ≡ (err x, db)) =
      elim (Bool-cases (ltb_ℤ (pos 0) limit)) [
        | inl limited ↦ (not_found, rw (limited, found, foreign))
        | inr unlimited ↦ (limit_not_positive, rw unlimited)
      ] in
    (no_edit, rw (found, foreign))

-- An update that succeeds has a positive limit, and an enforcement that is "block" or "warn", as
-- the text asked for says.
pub update_ai_quota_ok :
    (e : Env) (id : ℕ) (limit : ℤ) (period enforcement : String) (db db' : Db) (q : AiQuota)
    → update_ai_quota e id limit period enforcement db ≡ (ok q, db')
    → (ltb_ℤ (pos 0) q.limit_quantity ≡ true)
      × ((q.enforcement ≡ "block") ⊎ (q.enforcement ≡ "warn"))
      × (q.enforcement ≡ normal_enforcement enforcement)
unfolding update_ai_quota update_quota_row normal_enforcement
update_ai_quota_ok e id limit period enforcement db db' q done = ground arith
