-- ===== src/Api/Table.antt =====
-- The route table of internal/api/server.go, below /api/v1: the reads, for viewers and up, and the
-- writes, for operators and up.
use opord_ai_demo.Base.{String, List, [], ◌∷◌}

pub data Method : Type 0 where
  get post patch delete options : Method

-- The server's method that handles a route, by its name.
pub data Route : Type 0 where
  route : Method → String → String → Route

abbrev pub read_routes : List Route
read_routes =
    route get "/me" "getMe"
    ∷ route get "/requests" "listRequests"
    ∷ route get "/requests/{name}" "getRequest"
    ∷ route get "/ai/providers" "listAIProviders"
    ∷ route get "/ai/services" "listAIServices"
    ∷ route get "/ai/requests" "listAIRequests"
    ∷ route get "/ai/instances" "listAIInstances"
    ∷ route get "/ai/usage" "listAIUsage"
    ∷ route get "/ai/budgets" "listAIBudgets"
    ∷ route get "/ai/quotas" "listAIQuotas"
    ∷ route get "/ai/policies" "listAIPolicies"
    ∷ route get "/ai/models" "listAIModels"
    ∷ route get "/ai/renewals" "listAIRenewals"
    ∷ route get "/ai/access-review" "listAIAccessReview"
    ∷ route get "/ai/audit" "listAIAudit"
    ∷ route get "/ai/admin/{name}/users" "listAIOrgUsers"
    ∷ route get "/ai/admin/{name}/workspaces" "listAIWorkspaces"
    ∷ route get "/ai/admin/{name}/invites" "listAIInvites"
    ∷ route get "/ai/admin/{name}/workspaces/{wsID}/access" "listAIWorkspaceAccess"
    ∷ route get "/ai/admin/{name}/workspaces/{wsID}/api-keys" "listAIProjectAPIKeys"
    ∷ route get "/ai/admin/{name}/workspaces/{wsID}/rate-limits" "listAIProjectRateLimits"
    ∷ route get "/ai/admin/{name}/workspaces/{wsID}/model-permissions"
        "getAIProjectModelPermissions"
    ∷ route get "/ai/admin/{name}/workspaces/{wsID}/tool-permissions"
        "getAIProjectHostedToolPermissions"
    ∷ route get "/ai/admin/{name}/workspaces/{wsID}/data-retention" "getAIProjectDataRetention"
    ∷ route get "/ai/admin/{name}/workspaces/{wsID}/spend-alerts" "listAIProjectSpendAlerts"
    ∷ route get "/ai/mcp/servers" "listMCPServers"
    ∷ route get "/ai/mcp/grants" "listMCPGrants"
    ∷ route get "/ai/mcp/authorize" "authorizeMCP"
    ∷ route post "/ai/mcp/requests" "requestMCPAccess"
    ∷ []

abbrev pub write_routes : List Route
write_routes =
    route post "/requests" "createRequest"
    ∷ route post "/requests/{name}/approve" "approveRequest"
    ∷ route post "/requests/{name}/reject" "rejectRequest"
    ∷ route post "/ai/providers" "createAIProvider"
    ∷ route patch "/ai/providers/{name}" "updateAIProvider"
    ∷ route delete "/ai/providers/{name}" "deleteAIProvider"
    ∷ route post "/ai/providers/{name}/check" "checkAIProvider"
    ∷ route post "/ai/providers/{name}/sync" "syncAIProvider"
    ∷ route post "/ai/providers/{name}/sync-models" "syncAIProviderModels"
    ∷ route post "/ai/requests" "createAIRequest"
    ∷ route post "/ai/requests/{name}/approve" "approveAIRequest"
    ∷ route post "/ai/requests/{name}/reject" "rejectAIRequest"
    ∷ route post "/ai/instances/{id}/revoke" "revokeAIInstance"
    ∷ route get "/ai/instances/{id}/secret" "revealAIInstanceSecret"
    ∷ route post "/ai/instances/{id}/recertify" "recertifyAIInstance"
    ∷ route post "/ai/instances/reap-expired" "reapExpiredAIInstances"
    ∷ route post "/ai/mcp/servers" "registerMCPServer"
    ∷ route delete "/ai/mcp/servers/{name}" "deleteMCPServer"
    ∷ route post "/ai/mcp/grants" "grantMCPAccess"
    ∷ route post "/ai/mcp/grants/{id}/approve" "approveMCPGrant"
    ∷ route post "/ai/mcp/grants/{id}/reject" "rejectMCPGrant"
    ∷ route post "/ai/mcp/grants/{id}/revoke" "revokeMCPGrant"
    ∷ route post "/ai/budgets" "createAIBudget"
    ∷ route patch "/ai/budgets/{id}" "updateAIBudget"
    ∷ route delete "/ai/budgets/{id}" "deleteAIBudget"
    ∷ route post "/ai/quotas" "createAIQuota"
    ∷ route patch "/ai/quotas/{id}" "updateAIQuota"
    ∷ route delete "/ai/quotas/{id}" "deleteAIQuota"
    ∷ route post "/ai/policies" "createAIPolicy"
    ∷ route patch "/ai/policies/{id}" "updateAIPolicy"
    ∷ route delete "/ai/policies/{id}" "deleteAIPolicy"
    ∷ route post "/ai/usage/import/openai" "importOpenAIUsage"
    ∷ route post "/ai/usage/import/anthropic" "importAnthropicUsage"
    ∷ route post "/ai/usage/import/litellm" "importLiteLLMSpend"
    ∷ route post "/ai/admin/{name}/invites" "inviteAIOrgUser"
    ∷ route post "/ai/admin/{name}/users/{userID}/role" "setAIOrgRole"
    ∷ route delete "/ai/admin/{name}/users/{userID}" "removeAIOrgUser"
    ∷ route post "/ai/admin/{name}/workspaces" "createAIWorkspace"
    ∷ route post "/ai/admin/{name}/workspaces/{wsID}/archive" "archiveAIWorkspace"
    ∷ route post "/ai/admin/{name}/workspaces/{wsID}/members" "grantAIWorkspaceAccess"
    ∷ route delete "/ai/admin/{name}/workspaces/{wsID}/members/{userID}" "removeAIWorkspaceMember"
    ∷ route delete "/ai/admin/{name}/workspaces/{wsID}/api-keys/{keyID}" "deleteAIProjectAPIKey"
    ∷ route post "/ai/admin/{name}/workspaces/{wsID}/rate-limits/{rateLimitID}"
        "updateAIProjectRateLimit"
    ∷ route post "/ai/admin/{name}/workspaces/{wsID}/model-permissions"
        "setAIProjectModelPermissions"
    ∷ route delete "/ai/admin/{name}/workspaces/{wsID}/model-permissions"
        "deleteAIProjectModelPermissions"
    ∷ route post "/ai/admin/{name}/workspaces/{wsID}/tool-permissions"
        "setAIProjectHostedToolPermissions"
    ∷ route post "/ai/admin/{name}/workspaces/{wsID}/data-retention" "setAIProjectDataRetention"
    ∷ route post "/ai/admin/{name}/workspaces/{wsID}/spend-alerts" "createAIProjectSpendAlert"
    ∷ route post "/ai/admin/{name}/workspaces/{wsID}/spend-alerts/{alertID}"
        "updateAIProjectSpendAlert"
    ∷ route delete "/ai/admin/{name}/workspaces/{wsID}/spend-alerts/{alertID}"
        "deleteAIProjectSpendAlert"
    ∷ route post "/ai/gateway/openai/responses" "gatewayOpenAIResponses"
    ∷ route post "/ai/gateway/anthropic/messages" "gatewayAnthropicMessages"
    ∷ []
