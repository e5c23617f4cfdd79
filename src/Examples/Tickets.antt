-- ===== src/Examples/Tickets.antt =====
-- Runs of the theorems on requests.
use opord_ai_demo.Base.{String, Option, none, some, [], ◌∷◌, ◌≡◌, refl, ok, find, any, update_where}
use opord_ai_demo.Json.{obj, end}
use opord_ai_demo.Db.{Db}
use opord_ai_demo.Db.Rows.{Request}
use opord_ai_demo.Db.Requests.{is_called, create_request_row, set_ticket_row, valid_kind}
use opord_ai_demo.Tenant.{tenant_for_create}
use opord_ai_demo.Requests.{
  CreateRequestInput, create_request, new_request, attach_ticket, request_status, reject_request,
}
use opord_ai_demo.Requests.Decisions.{Rejected, reject_request_outcome}
use opord_ai_demo.Requests.Creation.{request_status-create_request}
use opord_ai_demo.Examples.{env, db}

abbrev wish : CreateRequestInput
wish = record {
  name = "chat-1";
  environment = "";
  requester = "eve";
  kind = "ai_service";
  provider = "mock";
  blueprint = "";
  spec = none;
}

abbrev glpi : Request → Option String
glpi r = some "T-7"

abbrev filed : Request
filed = record {
  id = 101;
  name = "chat-1";
  environment = "dev";
  requester = "eve";
  kind = "ai_service";
  provider = "mock";
  blueprint = "";
  spec = some (obj end);
  status = "pending_approval";
  ticket_ref = "T-7";
  resource_ref = "";
  decided_by = "";
  reason = "";
  created_at = 1000;
  tenant_id = some 1;
}

abbrev with_wish : Db
with_wish = (create_request env glpi wish db).1

wish_is_made : create_request env glpi wish db ≡ (ok filed, with_wish)
unfolding create_request new_request create_request_row attach_ticket set_ticket_row
    tenant_for_create valid_kind is_called find any update_where
wish_is_made = refl

request_status-create_request_example :
    (request_status env "chat-1" "" with_wish ≡ (ok filed, with_wish))
    × (filed.status ≡ "pending_approval")
    × (filed.kind ≡ "ai_service")
    × (filed.tenant_id ≡ tenant_for_create env)
request_status-create_request_example =
    request_status-create_request env glpi wish db with_wish filed wish_is_made refl

abbrev pending : Db
pending = record db { requests = filed ∷ [] }

reject_request_outcome_example :
    Rejected env "chat-1" "dev" "ann" "no" pending
      (reject_request env "chat-1" "dev" "ann" "no" pending)
reject_request_outcome_example = reject_request_outcome env "chat-1" "dev" "ann" "no" pending
