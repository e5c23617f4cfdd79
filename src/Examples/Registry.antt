-- ===== src/Examples/Registry.antt =====
-- Runs of the theorems on the MCP registry.
use opord_ai_demo.Base.{
  ◌≡◌, refl, true, false, some, ok, In, All, trim, lower, eq_iff, find, equal_fold, inl, inr, ◌=?◌,
  arith,
}
use opord_ai_demo.Db.{Db}
use opord_ai_demo.Db.Rows.{McpServer, McpGrant}
use opord_ai_demo.Db.Mcp.{
  server_by_name, active_grant, is_active_grant, is_grant_of, revoke_grant_row,
}
use opord_ai_demo.Mcp.Grants.{
  grant_mcp_access, request_mcp_access, approve_mcp_grant, revoke_mcp_grant,
}
use opord_ai_demo.Mcp.Authorize.{
  authorize_mcp, contains_fold, is_expired, tool_refused, grant_expired,
}
use opord_ai_demo.Mcp.Verdict.{
  authorize_mcp_sound, authorize_mcp_complete, MayUse, Unexpired, Grants,
}
use opord_ai_demo.Mcp.Lifecycle.{authorize_mcp-request, grant_mcp_access_expired}
use opord_ai_demo.Mcp.Revocation.{approve_mcp_grant-revoke, revoke_mcp_grant-denies}
use opord_ai_demo.Examples.{env, db, files, eve, bob}

files_found : server_by_name env "files" db ≡ ok files
unfolding server_by_name find
files_found = refl

eve_found : active_grant env 60 (trim " eve ") db ≡ ok eve
unfolding active_grant is_active_grant is_grant_of find trim lower
eve_found = refl

reads_allowed : (authorize_mcp env "files" " eve " "read" db).0.allowed ≡ true
unfolding authorize_mcp
reads_allowed =
    rw (files_found, eve_found)
      (unfold is_expired tool_refused contains_fold trim equal_fold in refl)

authorize_mcp_sound_example :
    (srv : McpServer) × In srv db.mcp_servers
    × (srv.name ≡ "files")
    × (srv.status ≡ "active")
    × MayUse srv "read"
    × ((g : McpGrant) × In g db.mcp_grants
        × (g.server_id ≡ srv.id)
        × (lower g.owner ≡ lower (trim " eve "))
        × (g.status ≡ "active")
        × Unexpired env.now g.expires_at)
authorize_mcp_sound_example = authorize_mcp_sound env "files" " eve " "read" db reads_allowed

read_usable : MayUse files "Read"
unfolding trim equal_fold
read_usable = inr (inr ("read", inl refl, refl))

eve_granted : Grants 60 " eve " eve
unfolding trim lower
eve_granted = (refl, refl, refl)

eve_current :
    All (λ (g : McpGrant). Grants 60 " eve " g → Unexpired env.now g.expires_at) db.mcp_grants
unfolding trim lower
eve_current = (λ h. omega arith, (λ h. absurd (cc ((eq_iff "bob" "eve").1 h.1)), tt))

authorize_mcp_complete_example : (authorize_mcp env "files" " eve " "Read" db).0.allowed ≡ true
authorize_mcp_complete_example =
    authorize_mcp_complete env "files" " eve " "Read" db files eve refl refl (inl refl) refl
      ((λ h. refl), tt) refl read_usable (inl refl) eve_granted eve_current

abbrev requested : Db
requested = (request_mcp_access env "files" "mallory" "mallory" db).1

authorize_mcp-request_example :
    (authorize_mcp env "files" "mallory" "" requested).0
    ≡ (authorize_mcp env "files" "mallory" "" db).0
authorize_mcp-request_example =
    authorize_mcp-request env env "files" "mallory" "mallory" "files" "mallory" "" db

bob_found : active_grant env 60 (trim "bob") db ≡ ok bob
unfolding active_grant is_active_grant is_grant_of find trim lower
bob_found = refl

abbrev regranted : Db
regranted = (grant_mcp_access env "files" "bob" (some 9000) "ops" db).1

grant_mcp_access_expired_example :
    (grant_mcp_access env "files" "bob" (some 9000) "ops" db ≡ (ok bob, db))
    × ((authorize_mcp env "files" "bob" "read" regranted).0.reason ≡ grant_expired)
grant_mcp_access_expired_example =
    grant_mcp_access_expired env "files" "bob" "read" "ops" (some 9000) db files bob
      (unfold trim in λ h. cc ((eq_iff "bob" "").1 h)) files_found refl bob_found
      (unfold is_expired in refl)

abbrev revoked_eve : McpGrant
revoked_eve = record eve { status = "revoked"; revoked_at = some 1000 }

abbrev revoked : Db
revoked = (revoke_mcp_grant env 70 "ops" db).1

eve_revoked : revoke_mcp_grant env 70 "ops" db ≡ (ok revoked_eve, revoked)
unfolding revoke_mcp_grant revoke_grant_row find
eve_revoked = refl

approve_mcp_grant-revoke_example :
    let out = approve_mcp_grant env 70 "ops" revoked in
    (g : McpGrant) × (out.0 ≡ ok g)
    × (g.id ≡ 70)
    × (g.status ≡ "active")
    × (find (λ (g : McpGrant). g.id =? 70) out.1.mcp_grants ≡ some g)
approve_mcp_grant-revoke_example =
    approve_mcp_grant-revoke env 70 "ops" "ops" db revoked_eve revoked eve_revoked refl

only_grant :
    All (λ (g : McpGrant). is_active_grant 60 (trim "eve") g ≡ true → g.id ≡ 70) db.mcp_grants
unfolding is_active_grant is_grant_of trim lower
only_grant = (λ h. refl, (λ h. absurd (cc h), tt))

revoke_mcp_grant-denies_example : (authorize_mcp env "files" "eve" "read" revoked).0.allowed ≡ false
revoke_mcp_grant-denies_example =
    revoke_mcp_grant-denies env 70 "ops" "files" "eve" "read" db revoked_eve revoked files
      eve_revoked files_found only_grant
