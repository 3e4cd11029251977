-- ===== src/Alerts/RuleEngine.antt =====
-- services/alert-notification/internal/application/rule_engine.go. The clock of one Evaluate call is
-- one instant, `now`. Each call holds the lock while it checks and sets the last firing, so calls are
-- run one after the other.
pub mod Cooldown
pub mod Selection
use green_lab.Prelude.{
  ℕ, ◌+◌, ◌*◌, String, Bool, true, false, not, ◌&&◌, Option, none, some, List, [], ◌∷◌, ◌++◌, ltb,
  if◌then◌else◌,
}
use green_lab.Prelude.Maps.{lookup, insert}
use green_lab.Ingestion.Domain.{Time, second}
use green_lab.Alerts.Rule.{Comparisons, Rule, AlertEvent, triggers}

pub record TelemetryEvent (F : Type 0) : Type 0 where
  pub channel_id : String
  pub device_id : String
  pub fields : List (String × F)
  pub timestamp : Time

-- The maps of RuleEngine: channelID → rules, and ruleID → last fired time.
pub record RuleEngine (F : Type 0) : Type 0 where
  pub rules : List (String × List (Rule F))
  pub last_fired : List (String × Time)

-- A call of PublishAlert, with the rule that it is for and the instant stored as its last firing.
pub record Firing (F : Type 0) : Type 0 where
  pub at : Time
  pub rule : Rule F
  pub event : AlertEvent F

module _ {F : Type 0} where
  unfoldable pub new_rule_engine : RuleEngine F
  new_rule_engine = record { rules = []; last_fired = [] }

  abbrev pub or_empty : Option (List (Rule F)) → List (Rule F)
  or_empty none = []
  or_empty (some rules) = rules

  -- newRules[chID] = append(newRules[chID], r), for each rule.
  unfoldable pub group_rules :
      List (Rule F) → List (String × List (Rule F)) → List (String × List (Rule F))
  group_rules [] new_rules = new_rules
  group_rules (r ∷ rules) new_rules =
      group_rules rules
        (insert r.channel_id (or_empty (lookup r.channel_id new_rules) ++ r ∷ []) new_rules)

  -- LoadRules, on what the repository lists; `none` is its error, which changes nothing.
  unfoldable pub load_rules : Option (List (Rule F)) → RuleEngine F → RuleEngine F
  load_rules none engine = engine
  load_rules (some rules) engine = record engine { rules = group_rules rules [] }

  -- hasFired && time.Since(lastFired) < cooldown
  unfoldable pub cooling_down : Time → Rule F → Option Time → Bool
  cooling_down now rule none = false
  cooling_down now rule (some fired) = ltb now (fired + rule.cooldown_sec * second)

  abbrev pub alert_event : TelemetryEvent F → Rule F → F → AlertEvent F
  alert_event evt rule value = record {
    rule_id = rule.id;
    channel_id = rule.channel_id;
    workspace_id = rule.workspace_id;
    field_name = rule.field_name;
    actual_value = value;
    threshold = rule.threshold;
    condition = rule.condition;
    severity = rule.severity;
    message = rule.message;
    triggered_at = evt.timestamp;
    webhook_secret = rule.webhook_secret;
  }

  module _ (cmp : Comparisons F) where
    -- The value that makes an enabled rule apply, if there is one.
    unfoldable pub applicable : TelemetryEvent F → Rule F → Option F
    applicable evt rule =
        if not rule.enabled then none else elim (lookup rule.field_name evt.fields) [
          | none ↦ none
          | some value ↦ if not (triggers cmp rule value) then none else some value
        ]

    fire :
        Time
        → TelemetryEvent F
        → Rule F
        → Option F
        → List (String × Time)
        → List (String × Time) × List (Firing F)
    fire now evt rule none last_fired = (last_fired, [])
    fire now evt rule (some value) last_fired =
        if cooling_down now rule (lookup rule.id last_fired) then (last_fired, []) else (
          insert rule.id now last_fired,
          record { at = now; rule = rule; event = alert_event evt rule value } ∷ [],
        )

    -- One round of the loop over the channel's rules.
    unfoldable pub evaluate_rule :
        Time
        → TelemetryEvent F
        → Rule F
        → List (String × Time)
        → List (String × Time) × List (Firing F)
    unfolding fire
    evaluate_rule now evt rule last_fired = fire now evt rule (applicable evt rule) last_fired

    unfoldable pub evaluate_rules :
        Time
        → TelemetryEvent F
        → List (Rule F)
        → List (String × Time)
        → List (String × Time) × List (Firing F)
    evaluate_rules now evt [] last_fired = (last_fired, [])
    evaluate_rules now evt (rule ∷ rules) last_fired =
        let (after, fired) = evaluate_rule now evt rule last_fired in
        let (final, more) = evaluate_rules now evt rules after in (final, fired ++ more)

    unfoldable pub evaluate :
        Time → TelemetryEvent F → RuleEngine F → RuleEngine F × List (Firing F)
    evaluate now evt engine =
        let (final, fired) =
          evaluate_rules now evt (or_empty (lookup evt.channel_id engine.rules))
            engine.last_fired in
        (record engine { last_fired = final }, fired)
