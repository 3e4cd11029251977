-- ===== src/Tests/Rules.antt =====
-- Tests of the rule engine.
use green_lab.Prelude.{◌+◌, ◌≤◌, ℕ, ◌*◌, ◌≡◌, All, true, none, some, List, [], ◌∷◌, ltb, leb, ◌==◌}
use green_lab.Ingestion.Domain.{second}
use green_lab.Alerts.Rule.{Comparisons, Rule, gt, warning}
use green_lab.Alerts.RuleEngine.{TelemetryEvent, new_rule_engine, load_rules, evaluate}
use green_lab.Alerts.RuleEngine.Cooldown.{Op, load, evaluate_at, Spaced, run, run-Spaced}
use green_lab.Alerts.RuleEngine.Selection.{of_channel, firings, evaluate-load_rules}
use green_lab.Alerts.Rule.{AlertEvent}
use green_lab.Alerts.RuleEngine.{alert_event}
use green_lab.Alerts.Delivery.{
  DeliveryLib, SendNotificationInput, send_notification, send_alert_notification,
}
use green_lab.Alerts.Delivery.Silent.{Plain, ByMail, unsigned_unlogged}
use green_lab.Tests.Data.{now}

abbrev cmp : Comparisons ℕ
cmp = record { less = ltb; less_eq = leb; equal = λ a b. a == b }

-- A rule that fires above 30, at most once a minute.
abbrev hot : Rule ℕ
hot = record {
  id = "r1";
  channel_id = "c1";
  workspace_id = "w1";
  name = "hot";
  field_name = "temperature";
  condition = gt;
  threshold = 30;
  severity = warning;
  message = "hot";
  enabled = true;
  cooldown_sec = 60;
  webhook_secret = "";
}

abbrev reading : TelemetryEvent ℕ
reading = record {
  channel_id = "c1";
  device_id = "d1";
  fields = ("temperature", 35) ∷ [];
  timestamp = now;
}

abbrev calls : List (Op ℕ)
calls = load (some (hot ∷ [])) ∷ evaluate_at 100 reading ∷ evaluate_at (200 * second) reading ∷ []

run-Spaced_example : Spaced (run cmp calls new_rule_engine).1
run-Spaced_example = run-Spaced cmp calls new_rule_engine

ready : (fired : ℕ) → none ≡ some fired → fired + 60 * second ≤ now
ready fired never = absurd (cc)

evaluate-load_rules_example :
    (evaluate cmp now reading (load_rules (some (hot ∷ [])) new_rule_engine)).1
    ≡ firings cmp now reading (of_channel "c1" (hot ∷ []))
unfolding new_rule_engine
evaluate-load_rules_example =
    evaluate-load_rules cmp now reading (hot ∷ []) new_rule_engine (tt, tt) (ready, tt)

-- Clients that succeed.
abbrev clients : DeliveryLib ℕ
clients = record {
  mail_answer = λ to subject body. none;
  post_answer = λ url payload signature. record {
    http_status = 200;
    response_body = "";
    latency_ms = 3;
    error = none;
  };
  sign = λ secret payload. "ab12";
  unsupported = λ channel. channel;
  non_success = λ status. "non-2xx";
  parse_uuid = some;
  marshal_body = λ evt. some "{}";
  subject_line = λ evt. "Alert";
}

abbrev to_hook : SendNotificationInput
to_hook = record {
  workspace_id = "w1";
  channel_type = "webhook";
  recipient = "https://example.org/hook";
  subject = "";
  body = "{}";
}

abbrev signed_event : AlertEvent ℕ
signed_event = alert_event reading (record hot { webhook_secret = "s3cret" }) 35

unsigned_unlogged_example :
    All Plain (send_notification clients now true "n1" "l1" to_hook).1
    × All ByMail
        (send_alert_notification clients now true "ops@example.org" "n1" "l1" signed_event).1
unsigned_unlogged_example =
    unsigned_unlogged clients now true "ops@example.org" "n1" "l1" to_hook signed_event
