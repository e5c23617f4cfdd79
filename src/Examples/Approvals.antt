-- ===== src/Examples/Approvals.antt =====
-- Runs of the theorems on provisioning and on approvals.
use opord_ai_demo.Base.{
  ℕ, ◌+◌, ◌*◌, ◌≤◌, ◌<◌, String, Option, none, some, [], ◌∷◌, ◌≡◌, ◌⊎◌, arith, true, find, trim, ok,
  non_empty, refl, glue, eq_refl, if◌then◌else◌, ◌==◌,
}
use opord_ai_demo.Base.Int.{pos}
use opord_ai_demo.Json.{Fields, entry, obj, field, text, end}
use opord_ai_demo.Db.{Db}
use opord_ai_demo.Db.Rows.{Request, AiServiceInstance}
use opord_ai_demo.Db.Access.{instance_by_id}
use opord_ai_demo.Tenant.{may_see, scope_tenant}
use opord_ai_demo.Providers.Adapter.{Wiring, Credentials}
use opord_ai_demo.Provision.Minted.{strip_minted_secret, reveal_ai_instance_secret, key_alias}
use opord_ai_demo.Provision.Reveal.{
  raw_of, path_of, reveal_ai_instance_secret-strip_minted_secret, Put, Stores,
}
use opord_ai_demo.Provision.Spec.{
  AiRequestSpec, Parsers, encode_spec, ai_request_spec_of, default_expiry,
}
use opord_ai_demo.Provision.Decode.{normal, ai_request_spec_of-encode_spec, default_expiry_bounds}
use opord_ai_demo.Provision.Grant.{provision_ai_request}
use opord_ai_demo.Provision.Sealed.{AllSealed, provision_ai_request-AllSealed}
use opord_ai_demo.Approval.Filed.{WellNumbered, Follows}
use opord_ai_demo.Approval.Refinement.{approve_named, run, run-Follows}
use opord_ai_demo.Examples.{env, db}
use opord_ai_demo.Examples.Providers.{wiring, eves_access}
use opord_ai_demo.Providers.Config.{remove_entry}

abbrev pub parsers : Parsers
parsers = record { parse_time = λ layout raw. none; parse_uuid = λ raw. none }

abbrev wanted : AiRequestSpec
wanted = record {
  service_id = "";
  service_slug = "chat";
  owner = "eve";
  workspace = "";
  justification = "";
  expires_at = "";
  metadata = some (field "team" (text "ml") end);
}

ai_request_spec_of-encode_spec_example :
    ai_request_spec_of (some (encode_spec wanted)) ≡ some (normal wanted)
ai_request_spec_of-encode_spec_example = ai_request_spec_of-encode_spec wanted

default_expiry_bounds_example :
    ((30 ≤ 106751) × (default_expiry 1000 (pos 30) ≡ some (1000 + 30 * 86400000000000)))
    ⊎ ((106751 < 30) × ((t : ℕ) × (default_expiry 1000 (pos 30) ≡ some t) × (t ≤ 1000)))
default_expiry_bounds_example = default_expiry_bounds 1000 30 (omega arith) (omega arith)

abbrev asked : Request
asked = record {
  id = 100;
  name = "chat-1";
  environment = "dev";
  requester = "eve";
  kind = "ai_service";
  provider = "mock";
  blueprint = "";
  spec = some (obj (field "service_slug" (text "chat") end));
  status = "pending_approval";
  ticket_ref = "";
  resource_ref = "";
  decided_by = "";
  reason = "";
  created_at = 1000;
  tenant_id = some 1;
}

abbrev asking : Db
asking = record db { requests = asked ∷ [] }

asking-AllSealed : AllSealed asking
unfolding AllSealed
asking-AllSealed = tt

provision_ai_request-AllSealed_example :
    AllSealed (provision_ai_request env wiring parsers asked asking).1
provision_ai_request-AllSealed_example =
    provision_ai_request-AllSealed env wiring parsers asked asking asking-AllSealed

abbrev no_ticket : Request → Option String
no_ticket r = none

asking-WellNumbered : WellNumbered asking
asking-WellNumbered = ((tt, tt), (omega arith, tt))

run-Follows_example :
    Follows asking.requests
      (run env wiring parsers no_ticket (approve_named "chat-1" "dev" "ann") asking).requests
    × WellNumbered (run env wiring parsers no_ticket (approve_named "chat-1" "dev" "ann") asking)
run-Follows_example =
    run-Follows env wiring parsers no_ticket (approve_named "chat-1" "dev" "ann") asking
      asking-WellNumbered

-- What the mock adapter answers, and a store that takes its key.
abbrev minted : Fields
minted = field "virtual_key" (text "sk-0123456789") end

abbrev put : Put
put path entries = some (λ asked. if asked == path then some entries else none)

put-Stores : Stores put
put-Stores path entries after stored = ground (arith, eq_refl path, stored)

-- What the store reads once it has taken the key.
abbrev key_stored : String → Option Credentials
key_stored asked =
    if asked == path_of env 100 minted then some (("key", raw_of minted) ∷ []) else none

abbrev holding : Wiring
holding = record wiring { write_secret = some put; read_secret = key_stored }

abbrev keyed : AiServiceInstance
keyed = record eves_access { observed = some (obj (strip_minted_secret env holding 100 minted)) }

abbrev with_keyed : Db
with_keyed = record db { instances = keyed ∷ [] }

keyed_found : instance_by_id env 80 with_keyed ≡ ok keyed
unfolding instance_by_id find
keyed_found = refl

key_given : non_empty (trim (raw_of minted)) ≡ true
unfolding trim entry
key_given = refl

keyed_seen : may_see (scope_tenant env) (some 1) ≡ true
unfolding may_see scope_tenant
keyed_seen = refl

alias_trimmed : trim (path_of env 100 minted) ≡ path_of env 100 minted
unfolding trim glue entry key_alias remove_entry
alias_trimmed = refl

reveal_ai_instance_secret-strip_minted_secret_example :
    (reveal_ai_instance_secret env holding 80 "ann" with_keyed).0 ≡ ok (trim (raw_of minted))
reveal_ai_instance_secret-strip_minted_secret_example =
    reveal_ai_instance_secret-strip_minted_secret env holding holding 100 minted put key_stored 80
      "ann" with_keyed keyed refl put-Stores refl refl alias_trimmed key_given keyed_found refl
      keyed_seen
