-- ===== src/Alerts/Notification.antt =====
-- services/alert-notification/internal: domain/notification/notification.go and
-- domain/delivery/delivery.go. Times and new IDs are arguments.
use Prim.Native.String.{◌++◌}
use green_lab.Prelude.{ℕ, ◌+◌, String, Bool, false, Option, none, some, str_eq, if◌then◌else◌}
use green_lab.Ingestion.Domain.{Time}

pub data NotificationStatus : Type 0 where
  pending sent delivery_failed : NotificationStatus

-- A channel type is any string; these are the three with a name.
abbrev pub channel_type_email : String
channel_type_email = "email"

abbrev pub channel_type_webhook : String
channel_type_webhook = "webhook"

pub record Notification : Type 0 where
  pub id : String
  pub workspace_id : String
  pub rule_id : Option String
  pub channel_type : String
  pub recipient : String
  pub subject : String
  pub body : String
  pub status : NotificationStatus
  pub retries : ℕ
  pub sent_at : Option Time
  pub error_msg : String
  pub read : Bool
  pub read_at : Option Time
  pub created_at : Time
  pub updated_at : Time
  pub webhook_secret : String

abbrev pub new_notification :
    String → Time → String → String → String → String → String → Notification
new_notification new_id now workspace_id channel_type recipient subject body = record {
  id = new_id;
  workspace_id = workspace_id;
  rule_id = none;
  channel_type = channel_type;
  recipient = recipient;
  subject = subject;
  body = body;
  status = pending;
  retries = 0;
  sent_at = none;
  error_msg = "";
  read = false;
  read_at = none;
  created_at = now;
  updated_at = now;
  webhook_secret = "";
}

unfoldable pub mark_sent : Time → Notification → Notification
mark_sent now n = record n { status = sent; sent_at = some now; updated_at = now }

unfoldable pub mark_failed : Time → String → Notification → Notification
mark_failed now err_msg n = record n {
  status = delivery_failed;
  error_msg = err_msg;
  retries = n.retries + 1;
  updated_at = now;
}

-- The signature of dispatchWebhook; `sign` is ComputeHMAC.
abbrev pub signature_of : (String → String → String) → Notification → String
signature_of sign n =
    if str_eq n.webhook_secret "" then "" else "sha256=" ++ sign n.webhook_secret n.body

-- delivery.Log
pub record DeliveryLog : Type 0 where
  pub id : String
  pub rule_id : String
  pub url : String
  pub http_status : ℕ
  pub latency_ms : ℕ
  pub response_body : String
  pub error_msg : String
  pub delivered_at : Time
