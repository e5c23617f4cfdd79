-- ===== src/Provision/Decode.antt =====
-- Reading back the spec that was written, and the days of an expiry.
use opord_ai_demo.Base.{
  ℕ, suc, ◌+◌, ◌*◌, ◌≤◌, ◌<◌, String, Option, none, some, ◌≡◌, refl, sym, ap, ◌∙◌, ◌⊎◌, inl, inr,
  ◌==◌, ltb, equal_fold, Bool-cases, eq_iff, arith, zero,
}
use opord_ai_demo.Base.Int.{pos}
use opord_ai_demo.Json.{Json, Fields, text, end, field}
use opord_ai_demo.Provision.Spec.{
  AiRequestSpec, empty_spec, text_field, map_field, encode_spec, spec_field, spec_fields,
  ai_request_spec_of, days_after, default_expiry,
}

-- An empty map is not written, and is read as none.
abbrev normal_map : Option Fields → Option Fields
normal_map none = none
normal_map (some end) = none
normal_map (some (field k v fs)) = some (field k v fs)

abbrev pub normal : AiRequestSpec → AiRequestSpec
normal s = record s { metadata = normal_map s.metadata }

read_known :
    (key : String) (j : Json) (fs : Fields) (s t : AiRequestSpec)
    → spec_field key j s ≡ some t
    → spec_fields (field key j fs) s ≡ spec_fields fs t
unfolding spec_fields
read_known key j fs s t known = ground (arith, known)

-- A text that is written under a key is read into the field that the key sets; one that is not
-- written is the field's empty text.
read_text :
    (key v : String) (fs : Fields) (s : AiRequestSpec) (set : String → AiRequestSpec)
    → spec_field key (text v) s ≡ some (set v)
    → set "" ≡ s
    → spec_fields (text_field key v fs) s ≡ spec_fields fs (set v)
unfolding text_field spec_fields
read_text key v fs s set known blank = elim (Bool-cases (v == "")) [
  | inl empty ↦ rw (empty, (eq_iff v "").0 empty) (ap (spec_fields fs) (sym blank))
  | inr given ↦ rw given (read_known key (text v) fs s (set v) known)
]

read_map :
    (m : Option Fields) (s : AiRequestSpec)
    → s.metadata ≡ none
    → spec_fields (map_field "metadata" m end) s ≡ some (record s { metadata = normal_map m })
unfolding spec_fields spec_field equal_fold
read_map none s blank = rw (sym blank) refl
read_map (some end) s blank = rw (sym blank) refl
read_map (some (field k v fs)) s blank = refl

-- A spec is read back as it was written: aiRequestSpecOf of what CreateAIRequest stores is the
-- spec, with an empty metadata map read as none.
pub ai_request_spec_of-encode_spec :
    (s : AiRequestSpec) → ai_request_spec_of (some (encode_spec s)) ≡ some (normal s)
unfolding ai_request_spec_of encode_spec spec_field equal_fold
ai_request_spec_of-encode_spec s =
    let s1 = record empty_spec { service_id = s.service_id } in
    let s2 = record s1 { service_slug = s.service_slug } in
    let s3 = record s2 { owner = s.owner } in
    let s4 = record s3 { workspace = s.workspace } in
    let s5 = record s4 { justification = s.justification } in
    let s6 = record s5 { expires_at = s.expires_at } in
    read_text "service_id" s.service_id _ empty_spec (λ v. record empty_spec { service_id = v })
      refl refl
    ∙ (read_text "service_slug" s.service_slug _ s1 (λ v. record s1 { service_slug = v }) refl refl
        ∙ (read_text "owner" s.owner _ s2 (λ v. record s2 { owner = v }) refl refl
            ∙ (read_text "workspace" s.workspace _ s3 (λ v. record s3 { workspace = v }) refl refl
                ∙ (read_text "justification" s.justification _ s4
                      (λ v. record s4 { justification = v }) refl refl
                    ∙ (read_text "expires_at" s.expires_at _ s5 (λ v. record s5 { expires_at = v })
                          refl refl
                        ∙ read_map s.metadata s6 refl)))))

-- The default expiry, from CreatedAt and the days of the service: up to 106751 days, it is exactly
-- that many days of 24 hours after the creation. From there on an int64 of nanoseconds wraps, and
-- up to 213503 days the expiry is not after the creation.
pub default_expiry_bounds :
    (created days : ℕ)
    → 0 < days
    → days ≤ 213503
    → ((days ≤ 106751)
        × (default_expiry created (pos days) ≡ some (created + days * 86400000000000)))
      ⊎ ((106751 < days) × ((t : ℕ) × (default_expiry created (pos days) ≡ some t) × (t ≤ created)))
unfolding default_expiry days_after
default_expiry_bounds created zero positive small = absurd (omega arith)
default_expiry_bounds created (suc n) positive small = elim (Bool-cases (ltb n 106751)) [
  | inl low ↦ inl (ground arith, ground arith)
  | inr high ↦ inr (ground arith, (days_after created (suc n), refl, ground arith))
]
