-- ===== src/Alerts/Delivery/Silent.antt =====
-- What no notification leads to: a signed webhook or an entry of the delivery log.
use green_lab.Prelude.{
  ◌≡◌, refl, String, Bool, Bool-cases, true, false, inl, inr, Option, none, some, str_eq, All,
}
use green_lab.Ingestion.Domain.{Time}
use green_lab.Alerts.Rule.{AlertEvent}
use green_lab.Alerts.Notification.{channel_type_email, channel_type_webhook, new_notification}
use green_lab.Alerts.Delivery.{
  Action, post_detailed, save_log, DeliveryLib, SendNotificationInput, dispatch_webhook,
  dispatch_by_channel, dispatch_and_update, save_and_dispatch, send_to, send_alert_body,
  send_notification, alert_notification, send_alert_notification,
}

-- No signature and no entry of the delivery log.
abbrev pub Plain : Action → Type 0
Plain (post_detailed url payload signature) = signature ≡ ""
Plain (save_log entry) = true ≡ false
Plain _ = true ≡ true

-- No webhook and no entry of the delivery log.
abbrev pub ByMail : Action → Type 0
ByMail (post_detailed url payload signature) = true ≡ false
ByMail (save_log entry) = true ≡ false
ByMail _ = true ≡ true

module _ {F : Type 0} (lib : DeliveryLib F) (now : Time) where
  dispatch-Plain :
      (log_id new_id ws_id channel recipient subject body : String)
      → All Plain (
          dispatch_and_update lib now log_id
            (new_notification new_id now ws_id channel recipient subject body))
  unfolding dispatch_and_update dispatch_by_channel dispatch_webhook
  dispatch-Plain log_id new_id ws_id channel recipient subject body =
      elim (Bool-cases (str_eq channel channel_type_email)) [
        | inl email ↦ rw email (refl, (refl, tt))
        | inr other ↦ elim (Bool-cases (str_eq channel channel_type_webhook)) [
          | inl webhook ↦ rw (other, webhook) (refl, (refl, tt))
          | inr none_of_them ↦ rw (other, none_of_them) (refl, tt)
        ]
      ]

  dispatch-ByMail :
      (fallback new_id log_id body : String) (evt : AlertEvent F)
      → All ByMail
          (dispatch_and_update lib now log_id (alert_notification lib now fallback new_id body evt))
  unfolding dispatch_and_update dispatch_by_channel dispatch_webhook
  dispatch-ByMail fallback new_id log_id body evt = (refl, (refl, tt))

  send_to-Plain :
      (saved : Bool) (new_id log_id : String) (input : SendNotificationInput) (id : Option String)
      → All Plain (send_to lib now saved new_id log_id input id).1
  unfolding send_to save_and_dispatch
  send_to-Plain saved new_id log_id input none = tt
  send_to-Plain true new_id log_id input (some ws_id) = (
    refl,
    dispatch-Plain log_id new_id ws_id input.channel_type input.recipient input.subject input.body,
  )
  send_to-Plain false new_id log_id input (some ws_id) = (refl, tt)

  send_alert_body-ByMail :
      (saved : Bool) (fallback new_id log_id : String) (evt : AlertEvent F) (body : Option String)
      → All ByMail (send_alert_body lib now saved fallback new_id log_id evt body).1
  unfolding send_alert_body save_and_dispatch
  send_alert_body-ByMail saved fallback new_id log_id evt none = tt
  send_alert_body-ByMail true fallback new_id log_id evt (some body) =
      (refl, dispatch-ByMail fallback new_id log_id body evt)
  send_alert_body-ByMail false fallback new_id log_id evt (some body) = (refl, tt)

  -- Whatever the input and the answers of the clients and the repository are, a notification that
  -- Send makes posts only without a signature and writes no delivery log, and the one that
  -- SendAlertNotification makes of an event, also with a webhook secret, posts no webhook and
  -- writes no delivery log.
  pub unsigned_unlogged :
      (saved : Bool) (fallback new_id log_id : String) (input : SendNotificationInput)
      (evt : AlertEvent F)
      → All Plain (send_notification lib now saved new_id log_id input).1
        × All ByMail (send_alert_notification lib now saved fallback new_id log_id evt).1
  unfolding send_notification send_alert_notification
  unsigned_unlogged saved fallback new_id log_id input evt = (
    send_to-Plain saved new_id log_id input (lib.parse_uuid input.workspace_id),
    send_alert_body-ByMail saved fallback new_id log_id evt (lib.marshal_body evt),
  )
