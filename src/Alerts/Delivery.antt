-- ===== src/Alerts/Delivery.antt =====
-- services/alert-notification/internal/application: dispatcher.go, and Send and
-- SendAlertNotification of notification_service.go with their dispatch. The goroutine of a dispatch
-- is run to its end, after the call that starts it. A call gives what it does, in order.
pub mod Silent
use green_lab.Prelude.{
  ℕ, String, Bool, true, false, ◌||◌, Option, none, some, List, [], ◌∷◌, ◌++◌, ltb, leb, str_eq,
  if◌then◌else◌,
}
use green_lab.Ingestion.Domain.{Time}
use green_lab.Alerts.Rule.{AlertEvent}
use green_lab.Alerts.Notification.{
  Notification, DeliveryLog, channel_type_email, channel_type_webhook, new_notification, mark_sent,
  mark_failed, signature_of,
}

pub data Action : Type 0 where
  save_notification update_notification : Notification → Action
  send_mail : (to subject body : String) → Action
  post_detailed : (url payload signature : String) → Action
  save_log : DeliveryLog → Action

-- What PostDetailed returns.
pub record PostAnswer : Type 0 where
  pub http_status : ℕ
  pub response_body : String
  pub latency_ms : ℕ
  pub error : Option String

-- The mail and webhook clients, with an error as its text or `none`, the texts that Go writes, the
-- HMAC, and the decoding of a UUID; `marshal_body` and `subject_line` are of an alert.
pub record DeliveryLib (F : Type 0) : Type 0 where
  pub mail_answer : (to subject body : String) → Option String
  pub post_answer : (url payload signature : String) → PostAnswer
  pub sign : (secret payload : String) → String
  pub unsupported : String → String
  pub non_success : ℕ → String
  pub parse_uuid : String → Option String
  pub marshal_body : AlertEvent F → Option String
  pub subject_line : AlertEvent F → String

pub data NotificationError : Type 0 where
  invalid_workspace not_saved not_marshalled : NotificationError

pub record SendNotificationInput : Type 0 where
  pub workspace_id : String
  pub channel_type : String
  pub recipient : String
  pub subject : String
  pub body : String

module _ {F : Type 0} (lib : DeliveryLib F) (now : Time) where
  abbrev pub or_no_text : Option String → String
  or_no_text none = ""
  or_no_text (some text) = text

  -- Whether the repository keeps the log changes nothing: its error is only logged.
  abbrev pub log_of : String → Notification → PostAnswer → Option String → List Action
  log_of log_id n answer none = []
  log_of log_id n answer (some rule_id) =
      save_log (record {
        id = log_id;
        rule_id = rule_id;
        url = n.recipient;
        http_status = answer.http_status;
        latency_ms = answer.latency_ms;
        response_body = answer.response_body;
        error_msg = or_no_text answer.error;
        delivered_at = now;
      })
      ∷ []

  abbrev pub post_outcome : PostAnswer → Option String
  post_outcome answer = elim answer.error [
    | some e ↦ some e
    | none ↦
        if ltb answer.http_status 200 || leb 300 answer.http_status
        then some (lib.non_success answer.http_status)
        else none
  ]

  unfoldable pub dispatch_webhook : String → Notification → Option String × List Action
  dispatch_webhook log_id n =
      let signature = signature_of lib.sign n in
      let answer = lib.post_answer n.recipient n.body signature in
      (
        post_outcome answer,
        post_detailed n.recipient n.body signature ∷ log_of log_id n answer n.rule_id,
      )

  -- Dispatcher.Dispatch; `log_id` is the ID of the delivery log, if one is written.
  unfoldable pub dispatch_by_channel : String → Notification → Option String × List Action
  unfolding dispatch_webhook
  dispatch_by_channel log_id n =
      if str_eq n.channel_type channel_type_email
      then (
        lib.mail_answer n.recipient n.subject n.body,
        send_mail n.recipient n.subject n.body ∷ [],
      )
      else if str_eq n.channel_type channel_type_webhook
      then dispatch_webhook log_id n
      else (some (lib.unsupported n.channel_type), [])

  abbrev pub mark_outcome : Notification → Option String → Notification
  mark_outcome n none = mark_sent now n
  mark_outcome n (some e) = mark_failed now e n

  -- NotificationService.dispatch
  unfoldable pub dispatch_and_update : String → Notification → List Action
  unfolding dispatch_by_channel
  dispatch_and_update log_id n =
      let (outcome, trace) = dispatch_by_channel log_id n in
      trace ++ update_notification (mark_outcome n outcome) ∷ []

  -- Save and the dispatch that follows; `saved` says whether Save succeeds.
  unfoldable pub save_and_dispatch :
      Bool → String → Notification → Option NotificationError × List Action
  unfolding dispatch_and_update
  save_and_dispatch saved log_id n =
      let dispatched = dispatch_and_update log_id n in
      if saved
      then (none, save_notification n ∷ dispatched)
      else (some not_saved, save_notification n ∷ [])

  -- Send, from the workspace's ID if it is one.
  unfoldable pub send_to :
      Bool
      → (new_id log_id : String) → SendNotificationInput
      → Option String
      → Option NotificationError × List Action
  unfolding save_and_dispatch
  send_to saved new_id log_id input none = (some invalid_workspace, [])
  send_to saved new_id log_id input (some ws_id) = save_and_dispatch saved log_id (
      new_notification new_id now ws_id input.channel_type input.recipient input.subject input.body)

  -- NotificationService.Send
  unfoldable pub send_notification :
      Bool
      → (new_id log_id : String) → SendNotificationInput
      → Option NotificationError × List Action
  unfolding send_to
  send_notification saved new_id log_id input =
      send_to saved new_id log_id input (lib.parse_uuid input.workspace_id)

  -- The notification of an alert event, from its body.
  abbrev pub alert_notification : (fallback new_id body : String) → AlertEvent F → Notification
  alert_notification fallback new_id body evt =
      record (new_notification new_id now evt.workspace_id channel_type_email fallback
        (lib.subject_line evt) body) {
          rule_id = some evt.rule_id;
          webhook_secret = evt.webhook_secret;
        }

  -- SendAlertNotification, from the body if the event can be encoded.
  unfoldable pub send_alert_body :
      Bool
      → (fallback new_id log_id : String) → AlertEvent F
      → Option String
      → Option NotificationError × List Action
  unfolding save_and_dispatch
  send_alert_body saved fallback new_id log_id evt none = (some not_marshalled, [])
  send_alert_body saved fallback new_id log_id evt (some body) =
      save_and_dispatch saved log_id (alert_notification fallback new_id body evt)

  unfoldable pub send_alert_notification :
      Bool
      → (fallback new_id log_id : String) → AlertEvent F
      → Option NotificationError × List Action
  unfolding send_alert_body
  send_alert_notification saved fallback new_id log_id evt =
      send_alert_body saved fallback new_id log_id evt (lib.marshal_body evt)
