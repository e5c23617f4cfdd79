-- ===== src/Provision/Sealed.antt =====
-- The secret that a provider mints is not stored with the instance, and what an instance that was
-- created satisfies.
use opord_ai_demo.Base.{
  ℕ, String, false, Option, none, ◌≡◌, refl, inl, inr, ◌==◌, trim, Bool-cases, Option-cases, eq_iff,
  All, arith, [], ◌∷◌,
}
use opord_ai_demo.Json.{Json, Fields, text, end, field, entry, text_of}
use opord_ai_demo.Db.{Env, Db}
use opord_ai_demo.Providers.Adapter.{Wiring}
use opord_ai_demo.Providers.Config.{fields_of, remove_entry, set_entry}
use opord_ai_demo.Db.Rows.{Request, AiService, AiServiceInstance, AiUsageRecord}
use opord_ai_demo.Db.Access.{create_instance_row, create_usage_row}
use opord_ai_demo.Tenant.{emit_audit}
use opord_ai_demo.Provision.Spec.{Parsers}
use opord_ai_demo.Provision.Grant.{new_instance, provision_ai_request}
use opord_ai_demo.Provision.Through.{provisioned_keeps}
use opord_ai_demo.Provision.Minted.{
  strip_minted_secret, with_pointer, key_alias, mask_key, key_path,
}

pub entry-remove_entry : (k : String) (fs : Fields) → entry k (remove_entry k fs) ≡ none
unfolding entry remove_entry
entry-remove_entry k end = refl
entry-remove_entry k (field j v fs) = ground (arith, entry-remove_entry k fs)

-- Removing one key leaves what another holds.
entry-remove_other :
    (k j : String) (fs : Fields) → entry k fs ≡ none → entry k (remove_entry j fs) ≡ none
unfolding entry remove_entry
entry-remove_other k j end h = refl
entry-remove_other k j (field i v fs) h = ground (arith, entry-remove_other k j fs)

entry-set_other :
    (k j : String) (v : Json) (fs : Fields)
    → (j == k) ≡ false
    → entry k fs ≡ none
    → entry k (set_entry j v fs) ≡ none
unfolding entry set_entry
entry-set_other k j v fs apart h = ground (arith, entry-remove_other k j fs h, apart)

pointer_sealed :
    (w : Wiring) (path raw : String) (fs : Fields)
    → entry "virtual_key" fs ≡ none
    → entry "virtual_key" (with_pointer w path raw fs) ≡ none
unfolding with_pointer
pointer_sealed w path raw fs h = elim (Option-cases w.write_secret) [
  | inl no_writer ↦ rw (with_pointer, no_writer) h
  | inr (put, writer) ↦ elim (Option-cases (put path (("key", raw) ∷ []))) [
    | inr (after, stored) ↦
        rw (with_pointer, writer, stored)
          (entry-set_other "virtual_key" "virtual_key_secret" (text path) fs refl h)
    | inl refused ↦ rw (with_pointer, writer, refused) h
  ]
]

blank_is_blank : trim "" ≡ ""
unfolding trim
blank_is_blank = refl

-- stripMintedSecret leaves no text but blanks under `virtual_key`.
pub entry-strip_minted_secret :
    (e : Env) (w : Wiring) (id : ℕ) (observed : Fields)
    → trim (text_of (entry "virtual_key" (strip_minted_secret e w id observed))) ≡ ""
unfolding strip_minted_secret
entry-strip_minted_secret e w id observed =
    elim (Bool-cases (trim (text_of (entry "virtual_key" observed)) == "")) [
      | inl blank ↦ rw blank ((eq_iff (trim (text_of (entry "virtual_key" observed))) "").0 blank)
      | inr minted ↦
          let rest = remove_entry "virtual_key" observed in
          rw
            (
              minted,
              entry-set_other "virtual_key" "virtual_key_preview"
                  (text (mask_key (text_of (entry "virtual_key" observed))))
                  (with_pointer w (key_path (key_alias e id rest))
                    (text_of (entry "virtual_key" observed)) rest)
                  refl
                  (pointer_sealed w (key_path (key_alias e id rest))
                    (text_of (entry "virtual_key" observed)) rest
                    (entry-remove_entry "virtual_key" observed)),
            )
            blank_is_blank
    ]

-- No secret that a provider minted stands in the observed fields of an instance.
unfoldable pub AllSealed : Db → Type 0
AllSealed db =
    All
      (λ (i : AiServiceInstance). trim (text_of (entry "virtual_key" (fields_of i.observed))) ≡ "")
      db.instances

audited-AllSealed :
    (e : Env) (t : String) (id : ℕ) (action by : String) (db : Db)
    → AllSealed db
    → AllSealed (emit_audit e t id action by db)
unfolding AllSealed emit_audit
audited-AllSealed e t id action by db all = ground arith

usage-AllSealed :
    (e : Env) (row : AiUsageRecord) (db : Db)
    → AllSealed db
    → AllSealed (create_usage_row e row db).1
unfolding AllSealed create_usage_row
usage-AllSealed e row db all = ground arith

instance-AllSealed :
    (e : Env) (w : Wiring) (req : Request) (s : AiService) (owner workspace : String)
    (until : Option ℕ) (access_id : String) (observed : Fields) (db : Db)
    → AllSealed db
    → AllSealed
        (create_instance_row e
          (new_instance req s owner workspace until access_id
            (strip_minted_secret e w req.id observed))
          db).1
unfolding AllSealed create_instance_row new_instance fields_of
instance-AllSealed e w req s owner workspace until access_id observed db all =
    let sealed = entry-strip_minted_secret e w req.id observed in ground arith

-- ProvisionAIRequest, failing or not, stores no minted secret: where no instance has a text under
-- `virtual_key` in its observed fields, but for blanks, none has one afterwards, whatever the
-- provider answers.
pub provision_ai_request-AllSealed :
    (e : Env) (w : Wiring) (ps : Parsers) (req : Request) (db : Db)
    → AllSealed db
    → AllSealed (provision_ai_request e w ps req db).1
provision_ai_request-AllSealed e w ps req db all =
    provisioned_keeps AllSealed audited-AllSealed usage-AllSealed instance-AllSealed e w ps req db
      all
