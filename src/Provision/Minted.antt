-- ===== src/Provision/Minted.antt =====
-- The secret that a provider mints for an access, in internal/orchestrator/ai.go:
-- stripMintedSecret, maskKey, mintedKeyPath, readMintedKey and RevealAIInstanceSecret. A key is a
-- text of ASCII characters.
use opord_ai_demo.Base.{
  ℕ, ◌-◌, String, none, some, Exec, pure, guard, perform, reading, ◌>>=◌, ◌>>◌, if◌then◌else◌, ◌==◌,
  leb, non_empty, or_else, trim, glue, text_length, text_front, text_from, [], ◌∷◌,
}
use opord_ai_demo.Json.{Fields, Raw, text, entry, text_of}
use opord_ai_demo.Db.{Env, Db, DbError}
use opord_ai_demo.Db.Access.{instance_by_id}
use opord_ai_demo.Tenant.{scope_tenant, may_see, emit_audit}
use opord_ai_demo.Providers.Config.{fields_of, remove_entry, set_entry}
use opord_ai_demo.Providers.Adapter.{secret, Wiring}

unfoldable pub mask_key : String → String
mask_key k =
    if leb (text_length k) 8
    then "****"
    else glue (text_front 4 k) (glue "…" (text_from (text_length k - 4) k))

unfoldable pub key_alias : Env → ℕ → Fields → String
key_alias e request_id observed =
    or_else (text_of (entry "key_alias" observed)) (e.uuid_string request_id)

abbrev pub key_path : String → String
key_path alias = glue "opord/ai/keys/" alias

-- The pointer to a secret that the store has accepted.
unfoldable pub with_pointer : Wiring → String → String → Fields → Fields
with_pointer w path raw observed = elim w.write_secret [
  | none ↦ observed
  | some put ↦ elim (put path (("key", raw) ∷ [])) [
    | none ↦ observed
    | some after ↦ set_entry "virtual_key_secret" (text path) observed
  ]
]

-- What stripMintedSecret leaves of the observed fields.
unfoldable pub strip_minted_secret : Env → Wiring → ℕ → Fields → Fields
unfolding key_alias with_pointer mask_key
strip_minted_secret e w request_id observed =
    let raw = text_of (entry "virtual_key" observed) in
    let rest = remove_entry "virtual_key" observed in
    if trim raw == ""
    then observed
    else set_entry "virtual_key_preview" (text (mask_key raw))
        (with_pointer w (key_path (key_alias e request_id rest)) raw rest)

unfoldable pub minted_key_path : Raw → String
minted_key_path observed = trim (text_of (entry "virtual_key_secret" (fields_of observed)))

unfoldable pub read_minted_key : Wiring → String → String
read_minted_key w path =
    if path == ""
    then ""
    else elim (w.read_secret path) [ none ↦ "" | some sec ↦ trim (secret "key" sec) ]

pub data SecretError : Type 0 where
  not_found : DbError → SecretError
  hidden no_stored_secret not_retrievable : SecretError

unfoldable pub reveal_ai_instance_secret : Env → Wiring → ℕ → String → Exec Db SecretError String
reveal_ai_instance_secret e w id actor = do
  inst ← reading (instance_by_id e id) not_found
  guard (may_see (scope_tenant e) inst.tenant_id) hidden
  guard (non_empty (minted_key_path inst.observed)) no_stored_secret
  guard (non_empty (read_minted_key w (minted_key_path inst.observed))) not_retrievable
  perform (emit_audit e "ai_instance" inst.id "secret_revealed" actor)
  pure (read_minted_key w (minted_key_path inst.observed))
