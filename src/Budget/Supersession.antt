-- ===== src/Budget/Supersession.antt =====
-- Spend is counted once: a provider's gateway estimates give way to an authoritative import.
use opord_ai_demo.Base.{
  ℕ, ◌≡◌, refl, String, Bool, true, List, [], ◌∷◌, any, select, ◌==◌, eq_iff, ◌&&◌, not, lower, In,
  In-any, arith, Bool-cases, inl, inr,
}
use opord_ai_demo.Base.Int.{ℤ, pos, ◌+ℤ◌}
use opord_ai_demo.Db.Governance.{UsageRow}
use opord_ai_demo.Budget.Cost.{
  usage_source, is_authoritative, in_window, authoritative, has_name, is_superseded, sum_cost,
  ai_cost_usd,
}

pub total : List UsageRow → ℤ
total [] = pos 0
total (u ∷ us) = u.cost_usd +ℤ total us

-- A row is an authoritative import for a provider, in the window and in scope.
abbrev pub imports : ℕ → (UsageRow → Bool) → String → UsageRow → Bool
imports start in_scope provider v =
    (in_window start in_scope v && is_authoritative (usage_source v.raw))
    && lower v.provider_name == provider

-- What counts: a row of the window that is no gateway estimate of a provider with an import.
abbrev pub counts : ℕ → (UsageRow → Bool) → List UsageRow → UsageRow → Bool
counts start in_scope usage u =
    in_window start in_scope u
    && not (
        usage_source u.raw == "opord_gateway_lite"
        && any (imports start in_scope (lower u.provider_name)) usage)

module _ (start : ℕ) (in_scope : UsageRow → Bool) where
  has_name-authoritative :
      (provider : String) (us : List UsageRow)
      → has_name provider (authoritative start in_scope us)
        ≡ any (imports start in_scope provider) us
  unfolding has_name authoritative any
  has_name-authoritative provider [] = refl
  has_name-authoritative provider (u ∷ us) =
      elim (Bool-cases (in_window start in_scope u && is_authoritative (usage_source u.raw))) [
        | inl official ↦ rw official (rw (has_name-authoritative provider us))
        | inr other ↦ rw other (has_name-authoritative provider us)
      ]

  sum_cost-total :
      (usage us : List UsageRow)
      → sum_cost start in_scope (authoritative start in_scope usage) us
        ≡ total (select (counts start in_scope usage) us)
  unfolding sum_cost select is_superseded total
  sum_cost-total usage [] = refl
  sum_cost-total usage (u ∷ us) =
      rw (has_name-authoritative (lower u.provider_name) usage)
        (ground (arith, sum_cost-total usage us))

  -- The two loops of aiCostUSD compute the total of the rows that count: the rows of the window
  -- but for the gateway estimates of providers with an authoritative import there.
  pub ai_cost_usd-total :
      (usage : List UsageRow)
      → ai_cost_usd usage start in_scope ≡ total (select (counts start in_scope usage) usage)
  unfolding ai_cost_usd
  ai_cost_usd-total usage = sum_cost-total usage usage

  authoritative_lite :
      (u : UsageRow) (us : List UsageRow)
      → usage_source u.raw ≡ "opord_gateway_lite"
      → authoritative start in_scope (u ∷ us) ≡ authoritative start in_scope us
  unfolding authoritative is_authoritative
  authoritative_lite u us source = rw source (ground arith)

  sum_cost_superseded :
      (names : List String) (u : UsageRow) (us : List UsageRow)
      → is_superseded names u ≡ true
      → sum_cost start in_scope names (u ∷ us) ≡ sum_cost start in_scope names us
  unfolding sum_cost
  sum_cost_superseded names u us h = rw h (ground arith)

  -- Once a provider's import is in the window, recording a gateway estimate of that provider
  -- leaves the cost as it was.
  pub ai_cost_usd-superseded :
      (usage : List UsageRow) (estimate import : UsageRow)
      → usage_source estimate.raw ≡ "opord_gateway_lite"
      → In import usage
      → in_window start in_scope import ≡ true
      → is_authoritative (usage_source import.raw) ≡ true
      → lower import.provider_name ≡ lower estimate.provider_name
      → ai_cost_usd (estimate ∷ usage) start in_scope ≡ ai_cost_usd usage start in_scope
  unfolding ai_cost_usd
  ai_cost_usd-superseded usage estimate import source place window official same =
      let named : has_name (lower estimate.provider_name) (authoritative start in_scope usage)
          ≡ true =
        rw (has_name-authoritative (lower estimate.provider_name) usage) (
          In-any (imports start in_scope (lower estimate.provider_name)) import usage place
            (ground (arith, eq_iff (lower import.provider_name) (lower estimate.provider_name)))) in
      rw (authoritative_lite estimate usage source) (
        sum_cost_superseded (authoritative start in_scope usage) estimate usage (
          unfold is_superseded in
          ground (arith, eq_iff (usage_source estimate.raw) "opord_gateway_lite")))
