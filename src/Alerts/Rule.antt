-- ===== src/Alerts/Rule.antt =====
-- services/alert-notification/internal/domain/alert/rule.go. A float64 is an abstract type with its
-- three comparisons, and the times of a rule's creation and change and the random ID of an event are
-- left out; an instant is a number of nanoseconds, as in Ingestion.
use green_lab.Prelude.{ℕ, String, Bool, false, not}
use green_lab.Ingestion.Domain.{Time}

-- `<`, `<=` and `==` on float64; `a > b` is `b < a`, and `!=` is the negation of `==`, NaN included.
pub record Comparisons (F : Type 0) : Type 0 where
  pub less : F → F → Bool
  pub less_eq : F → F → Bool
  pub equal : F → F → Bool

-- RuleCondition; `unknown` is any other string.
pub data RuleCondition : Type 0 where
  gt gte lt lte eq neq unknown : RuleCondition

pub data RuleSeverity : Type 0 where
  info warning critical : RuleSeverity

pub record Rule (F : Type 0) : Type 0 where
  pub id : String
  pub channel_id : String
  pub workspace_id : String
  pub name : String
  pub field_name : String
  pub condition : RuleCondition
  pub threshold : F
  pub severity : RuleSeverity
  pub message : String
  pub enabled : Bool
  pub cooldown_sec : ℕ
  pub webhook_secret : String

pub record AlertEvent (F : Type 0) : Type 0 where
  pub rule_id : String
  pub channel_id : String
  pub workspace_id : String
  pub field_name : String
  pub actual_value : F
  pub threshold : F
  pub condition : RuleCondition
  pub severity : RuleSeverity
  pub message : String
  pub triggered_at : Time
  pub webhook_secret : String

module _ {F : Type 0} (cmp : Comparisons F) where
  compare_by : RuleCondition → F → F → Bool
  compare_by gt threshold value = cmp.less threshold value
  compare_by gte threshold value = cmp.less_eq threshold value
  compare_by lt threshold value = cmp.less value threshold
  compare_by lte threshold value = cmp.less_eq value threshold
  compare_by eq threshold value = cmp.equal value threshold
  compare_by neq threshold value = not (cmp.equal value threshold)
  compare_by unknown threshold value = false

  unfoldable pub triggers : Rule F → F → Bool
  unfolding compare_by
  triggers rule value = compare_by rule.condition rule.threshold value
