-- ===== src/Gateway/Usage.antt =====
-- recordGatewayUsage of internal/orchestrator/ai_governance.go: the usage that a model's response
-- reports, priced and stored. Token counts are whole numbers.
use opord_ai_demo.Base.{ℕ, String, Bool, Option, none, some, if◌then◌else◌, ◌&&◌, equal_fold, ◌=?◌}
use opord_ai_demo.Base.Int.{ℤ, pos, pos_part, neg_part, sub_ℕ, ◌+ℤ◌}
use opord_ai_demo.Json.{
  Json, Fields, Raw, null, bool, num, text, arr, obj, end, field, decode_text, map_some,
}
use opord_ai_demo.Db.{Env, Db}
use opord_ai_demo.Db.Rows.{AiUsageRecord}
use opord_ai_demo.Db.Access.{create_usage_row}
use opord_ai_demo.Pricing.{estimate_ai_cost, estimate_ai_cost_total}

pub record Tokens : Type 0 where
  pub input_tokens : ℤ
  pub output_tokens : ℤ
  pub total_tokens : ℤ
  pub prompt_tokens : ℤ
  pub completion_tokens : ℤ

pub record Reported : Type 0 where
  pub model : String
  pub usage : Tokens

abbrev pub no_tokens : Tokens
no_tokens = record {
  input_tokens = pos 0;
  output_tokens = pos 0;
  total_tokens = pos 0;
  prompt_tokens = pos 0;
  completion_tokens = pos 0;
}

-- Into a number field: `null` leaves it, another kind is an error.
abbrev pub decode_num : ℤ → Json → Option ℤ
decode_num old null = some old
decode_num old (num n) = some n
decode_num old (bool b) = none
decode_num old (text s) = none
decode_num old (arr xs) = none
decode_num old (obj fs) = none

unfoldable pub tokens_field : String → Json → Tokens → Option Tokens
tokens_field k v t =
    if equal_fold k "input_tokens"
    then map_some (λ n. record t { input_tokens = n }) (decode_num t.input_tokens v)
    else if equal_fold k "output_tokens"
    then map_some (λ n. record t { output_tokens = n }) (decode_num t.output_tokens v)
    else if equal_fold k "total_tokens"
    then map_some (λ n. record t { total_tokens = n }) (decode_num t.total_tokens v)
    else if equal_fold k "prompt_tokens"
    then map_some (λ n. record t { prompt_tokens = n }) (decode_num t.prompt_tokens v)
    else if equal_fold k "completion_tokens"
    then map_some (λ n. record t { completion_tokens = n }) (decode_num t.completion_tokens v)
    else some t

unfoldable pub tokens_fields : Fields → Tokens → Option Tokens
tokens_fields end t = some t
tokens_fields (field k v fs) t =
    let rest = λ (u : Tokens). tokens_fields fs u in
    elim (tokens_field k v t) [ none ↦ none | some u ↦ rest u ]

abbrev pub decode_tokens : Tokens → Json → Option Tokens
decode_tokens old null = some old
decode_tokens old (obj fs) = tokens_fields fs old
decode_tokens old (num n) = none
decode_tokens old (bool b) = none
decode_tokens old (text s) = none
decode_tokens old (arr xs) = none

unfoldable pub reported_field : String → Json → Reported → Option Reported
reported_field k v r =
    if equal_fold k "model"
    then map_some (λ s. record r { model = s }) (decode_text r.model v)
    else if equal_fold k "usage"
    then map_some (λ t. record r { usage = t }) (decode_tokens r.usage v)
    else some r

unfoldable pub reported_fields : Fields → Reported → Option Reported
reported_fields end r = some r
reported_fields (field k v fs) r =
    let rest = λ (s : Reported). reported_fields fs s in
    elim (reported_field k v r) [ none ↦ none | some s ↦ rest s ]

abbrev pub nothing_reported : Reported
nothing_reported = record { model = ""; usage = no_tokens }

-- `json.Unmarshal(body, &payload)`; `none` is an error.
unfoldable pub reported : Raw → Option Reported
reported none = none
reported (some null) = some nothing_reported
reported (some (obj fs)) = reported_fields fs nothing_reported
reported (some _) = none

abbrev pub is_zero : ℤ → Bool
is_zero n = (pos_part n =? 0) && (neg_part n =? 0)

abbrev pub or_if_zero : ℤ → ℤ → ℤ
or_if_zero n d = if is_zero n then d else n

abbrev pub in_of : Tokens → ℤ
in_of t = or_if_zero t.input_tokens t.prompt_tokens

abbrev pub out_of : Tokens → ℤ
out_of t = or_if_zero t.output_tokens t.completion_tokens

abbrev pub total_of : Tokens → ℤ
total_of t = or_if_zero t.total_tokens (in_of t +ℤ out_of t)

-- The estimates are linear in the counts: a negative count costs the negative.
unfoldable pub gateway_cost : String → ℤ → ℤ → ℤ → ℤ
gateway_cost model input output total =
    if is_zero input && is_zero output
    then sub_ℕ (estimate_ai_cost_total model (pos_part total))
        (estimate_ai_cost_total model (neg_part total))
    else sub_ℕ (estimate_ai_cost model (pos_part input) (pos_part output))
        (estimate_ai_cost model (neg_part input) (neg_part output))

unfoldable pub gateway_record : Env → ℕ → Reported → AiUsageRecord
unfolding gateway_cost ◌+ℤ◌
gateway_record e provider_id r = record {
  id = 0;
  instance_id = none;
  provider_id = provider_id;
  period_start = e.now;
  period_end = e.now;
  metric = "tokens";
  quantity = total_of r.usage;
  unit = "tokens";
  cost_usd = gateway_cost r.model (in_of r.usage) (out_of r.usage) (total_of r.usage);
  raw = some (
      obj (
        field "source" (text "opord_gateway_lite") (
          field "model" (text r.model) (
            field "input_tokens" (num (in_of r.usage)) (
              field "output_tokens" (num (out_of r.usage))
                (field "cost_basis" (text "estimated") end))))));
}

-- A body that is not understood, or without tokens, is passed over, and so is a failing insert.
unfoldable pub record_gateway_usage : Env → ℕ → Raw → Db → Db
unfolding gateway_record ◌+ℤ◌
record_gateway_usage e provider_id body db = elim (reported body) [
  | none ↦ db
  | some r ↦
      if is_zero (total_of r.usage)
      then db
      else (create_usage_row e (gateway_record e provider_id r) db).1
]
