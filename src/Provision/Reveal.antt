-- ===== src/Provision/Reveal.antt =====
-- RevealAIInstanceSecret gives back the secret that stripMintedSecret moved to the store.
use opord_ai_demo.Base.{
  ℕ, String, true, false, Option, some, [], ◌∷◌, ◌≡◌, refl, ap, ◌∙◌, ok, ◌==◌, non_empty, trim,
  eq_iff, Bool-cases, inl, inr, eq_refl, arith, glue, sym,
}
use opord_ai_demo.Json.{Json, Fields, Raw, obj, text, end, field, entry, text_of}
use opord_ai_demo.Db.{Env, Db}
use opord_ai_demo.Db.Rows.{AiServiceInstance}
use opord_ai_demo.Db.Access.{instance_by_id}
use opord_ai_demo.Tenant.{scope_tenant, may_see}
use opord_ai_demo.Providers.Adapter.{Wiring, secret, Credentials}
use opord_ai_demo.Providers.Config.{fields_of, remove_entry, set_entry}
use opord_ai_demo.Provision.Minted.{
  strip_minted_secret, with_pointer, key_alias, mask_key, key_path, minted_key_path,
  read_minted_key, reveal_ai_instance_secret,
}
use opord_ai_demo.Provision.Sealed.{entry-remove_entry}

-- The secret that a provider minted, and its place in the store.
abbrev pub raw_of : Fields → String
raw_of observed = text_of (entry "virtual_key" observed)

-- A write to the secret store.
abbrev pub Put : Type 0
Put = String → Credentials → Option (String → Option Credentials)

-- Once a write is accepted, the store reads at its path the entries that were written.
abbrev pub Stores : Put → Type 0
Stores put =
    (path : String) (entries : Credentials) (after : String → Option Credentials)
    → put path entries ≡ some after
    → after path ≡ some entries

abbrev pub path_of : Env → ℕ → Fields → String
path_of e id observed = key_path (key_alias e id (remove_entry "virtual_key" observed))

entry-remove_unlike :
    (k j : String) (fs : Fields) → (j == k) ≡ false → entry k (remove_entry j fs) ≡ entry k fs
unfolding entry remove_entry
entry-remove_unlike k j end apart = refl
entry-remove_unlike k j (field i v fs) apart =
    ground (arith, entry-remove_unlike k j fs apart, eq_iff i j, eq_iff i k, eq_iff j k)

entry-set_unlike :
    (k j : String) (v : Json) (fs : Fields)
    → (j == k) ≡ false
    → entry k (set_entry j v fs) ≡ entry k fs
unfolding entry set_entry
entry-set_unlike k j v fs apart = ground (arith, entry-remove_unlike k j fs apart, apart)

entry-set_entry : (k : String) (v : Json) (fs : Fields) → entry k (set_entry k v fs) ≡ some v
unfolding entry set_entry
entry-set_entry k v fs = ground (arith, entry-remove_entry k fs, eq_refl k)

entry-pointer :
    (w : Wiring) (put : Put) (after : String → Option Credentials) (path raw : String) (fs : Fields)
    → w.write_secret ≡ some put
    → put path (("key", raw) ∷ []) ≡ some after
    → entry "virtual_key_secret" (with_pointer w path raw fs) ≡ some (text path)
unfolding with_pointer
entry-pointer w put after path raw fs writer stored =
    rw (with_pointer, writer, stored) (entry-set_entry "virtual_key_secret" (text path) fs)

-- The pointer that is left with the instance.
pointer-strip_minted_secret :
    (e : Env) (w : Wiring) (id : ℕ) (observed : Fields) (put : Put)
    (after : String → Option Credentials)
    → w.write_secret ≡ some put
    → put (path_of e id observed) (("key", raw_of observed) ∷ []) ≡ some after
    → non_empty (trim (raw_of observed)) ≡ true
    → entry "virtual_key_secret" (strip_minted_secret e w id observed)
      ≡ some (text (path_of e id observed))
unfolding strip_minted_secret
pointer-strip_minted_secret e w id observed put after writer stored minted =
    let rest = remove_entry "virtual_key" observed in
    let fs = with_pointer w (path_of e id observed) (raw_of observed) rest in
    let given : (trim (raw_of observed) == "") ≡ false = ground (arith, minted) in
    rw given (
      entry-set_unlike "virtual_key_secret" "virtual_key_preview"
        (text (mask_key (raw_of observed))) fs refl
      ∙ entry-pointer w put after (path_of e id observed) (raw_of observed) rest writer stored)

path_not_blank : (alias : String) → non_empty (trim (key_path alias)) ≡ true
unfolding trim glue
path_not_blank alias = elim (Bool-cases (trim (key_path alias) == "")) [
  | inl blank ↦ absurd (cc ((eq_iff (trim (key_path alias)) "").0 blank))
  | inr given ↦ rw given refl
]

path_left :
    (e : Env) (w : Wiring) (id : ℕ) (observed : Fields) (put : Put)
    (after : String → Option Credentials) (row : Raw)
    → row ≡ some (obj (strip_minted_secret e w id observed))
    → w.write_secret ≡ some put
    → put (path_of e id observed) (("key", raw_of observed) ∷ []) ≡ some after
    → non_empty (trim (raw_of observed)) ≡ true
    → minted_key_path row ≡ trim (path_of e id observed)
unfolding minted_key_path fields_of
path_left e w id observed put after row left writer stored minted = rw left (
    ap (λ (j : Option Json). trim (text_of j))
      (pointer-strip_minted_secret e w id observed put after writer stored minted))

key_read :
    (w : Wiring) (path raw : String)
    → w.read_secret path ≡ some (("key", raw) ∷ [])
    → non_empty path ≡ true
    → read_minted_key w path ≡ trim raw
unfolding read_minted_key secret
key_read w path raw held given =
    let named : (path == "") ≡ false = ground (arith, given) in rw (named, held) refl

-- A secret that an adapter minted for an access and that the store took is given back: where `w'`
-- still reads at the path what the store read there after stripMintedSecret's write, an instance has
-- the observed fields that stripMintedSecret left, and the caller may see it,
-- RevealAIInstanceSecret answers the minted secret, without the blanks around it. An accepted write
-- makes the store read the entries that were written, and the path does not end in a blank.
pub reveal_ai_instance_secret-strip_minted_secret :
    (e : Env) (w w' : Wiring) (request_id : ℕ) (observed : Fields) (put : Put)
    (after : String → Option Credentials) (id : ℕ) (actor : String) (db : Db)
    (i : AiServiceInstance)
    → w.write_secret ≡ some put
    → Stores put
    → put (path_of e request_id observed) (("key", raw_of observed) ∷ []) ≡ some after
    → w'.read_secret (path_of e request_id observed) ≡ after (path_of e request_id observed)
    → trim (path_of e request_id observed) ≡ path_of e request_id observed
    → non_empty (trim (raw_of observed)) ≡ true
    → instance_by_id e id db ≡ ok i
    → i.observed ≡ some (obj (strip_minted_secret e w request_id observed))
    → may_see (scope_tenant e) i.tenant_id ≡ true
    → (reveal_ai_instance_secret e w' id actor db).0 ≡ ok (trim (raw_of observed))
unfolding reveal_ai_instance_secret
reveal_ai_instance_secret-strip_minted_secret e w w' request_id observed put after id actor db i
      writer stores stored held trimmed minted found left seen =
    let path = path_of e request_id observed in
    let alias = key_alias e request_id (remove_entry "virtual_key" observed) in
    let pointer : minted_key_path i.observed ≡ path =
      path_left e w request_id observed put after i.observed left writer stored minted ∙ trimmed in
    let given : non_empty path ≡ true = ap non_empty (sym trimmed) ∙ path_not_blank alias in
    let read =
      key_read w' path (raw_of observed)
        (held ∙ stores path (("key", raw_of observed) ∷ []) after stored) given in
    rw (found, seen, pointer, given, read, minted) refl
