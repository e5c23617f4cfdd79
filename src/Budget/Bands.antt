-- ===== src/Budget/Bands.antt =====
-- The three bands of a budget: they cover every amount, and spending more never leaves a higher
-- one.
use opord_ai_demo.Base.{ℕ, ◌+◌, ◌≤◌, ◌<◌, ◌≡◌, ◌⊎◌, String, true, arith, if◌then◌else◌, ◌==◌}
use opord_ai_demo.Base.Int.{ℤ, pos, ◌*ℤ◌, ◌≤ℤ◌, ltb_ℤ, pos_part, neg_part, *ℤ_mono}
use opord_ai_demo.Db.Rows.{AiBudget}
use opord_ai_demo.Budget.Summary.{reaches, usage_pct, budget_status, summary_of}

-- What CreateAIBudget and UpdateAIBudget see to.
pub record IsValid (b : AiBudget) : Type 0 where
  pub limited : ltb_ℤ (pos 0) b.limit_usd ≡ true
  pub soft_positive : ltb_ℤ (pos 0) b.soft_threshold_pct ≡ true
  pub ordered : b.soft_threshold_pct ≤ℤ b.hard_threshold_pct

-- `threshold` per cent of the limit, against 100 times the amount.
abbrev pub Reached : AiBudget → ℤ → ℤ → Type 0
Reached b threshold actual = threshold *ℤ pos (pos_part b.limit_usd) ≤ℤ actual *ℤ pos 100

abbrev pub Missed : AiBudget → ℤ → ℤ → Type 0
Missed b threshold actual =
    pos_part (actual *ℤ pos 100) + neg_part (threshold *ℤ pos (pos_part b.limit_usd))
    < pos_part (threshold *ℤ pos (pos_part b.limit_usd)) + neg_part (actual *ℤ pos 100)

usage_pct_limited :
    (b : AiBudget) (actual : ℤ)
    → IsValid b
    → usage_pct actual b.limit_usd
      ≡ record { numerator = actual *ℤ pos 100; denominator = pos_part b.limit_usd }
unfolding usage_pct
usage_pct_limited b actual v = rw v.limited

-- A valid budget is at its hard limit from the hard threshold on, in the warning band between the
-- soft and the hard threshold, and ok below the soft one.
pub summary_of_bands :
    (b : AiBudget) (actual : ℤ)
    → IsValid b
    → (((summary_of b actual).status ≡ "hard_limit")
        × Reached b b.hard_threshold_pct actual
        × Reached b b.soft_threshold_pct actual)
      ⊎ ((((summary_of b actual).status ≡ "warning")
            × Missed b b.hard_threshold_pct actual
            × Reached b b.soft_threshold_pct actual)
          ⊎ (((summary_of b actual).status ≡ "ok")
              × Missed b b.hard_threshold_pct actual
              × Missed b b.soft_threshold_pct actual))
unfolding summary_of budget_status reaches
summary_of_bands b actual v = rw (usage_pct_limited b actual v) (
    ground
      (arith, *ℤ_mono b.soft_threshold_pct b.hard_threshold_pct (pos_part b.limit_usd) v.ordered))

unfoldable pub severity : String → ℕ
severity s = if s == "hard_limit" then 2 else if s == "warning" then 1 else 0

severity_values :
    (s : String)
    → (s ≡ "hard_limit" → severity s ≡ 2)
      × (s ≡ "warning" → severity s ≡ 1)
      × (s ≡ "ok" → severity s ≡ 0)
unfolding severity
severity_values s = ((λ h. rw h), (λ h. rw h), (λ h. rw h))

-- With more spent, a valid budget's status never becomes less severe.
pub summary_of_mono :
    (b : AiBudget) (actual more : ℤ)
    → IsValid b
    → actual ≤ℤ more
    → severity (summary_of b actual).status ≤ severity (summary_of b more).status
summary_of_mono b actual more v h = ground (
  arith,
  summary_of_bands b actual v,
  summary_of_bands b more v,
  *ℤ_mono actual more 100 h,
  severity_values (summary_of b actual).status,
  severity_values (summary_of b more).status,
)
