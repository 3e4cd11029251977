-- ===== src/Realtime/Hub.antt =====
-- services/query-realtime/internal: application/hub.go and domain/realtime/subscription.go. Each
-- method holds the hub's lock, so calls run one after the other. A subscription is known by its ID,
-- and its channel of bytes and the flag that closes it are an Inbox.
pub mod Members
pub mod SlowReader
use green_lab.Prelude.{
  String, Bool, true, Option, none, some, List, [], ◌∷◌, ◌++◌, length, map, ltb, if◌then◌else◌,
}
use green_lab.Prelude.Maps.{lookup, insert, erase}

pub record Subscription : Type 0 where
  pub id : String
  pub channel_id : String
  pub user_id : String

-- channelID → subID → sub
abbrev pub Hub : Type 0
Hub = List (String × List (String × Subscription))

abbrev pub subs_of : Option (List (String × Subscription)) → List (String × Subscription)
subs_of none = []
subs_of (some subs) = subs

unfoldable pub subscribe : Subscription → Hub → Hub
subscribe sub hub =
    insert sub.channel_id (insert sub.id sub (subs_of (lookup sub.channel_id hub))) hub

-- The channel is deleted with its last subscription.
leave : String → List (String × Subscription) → Hub → Hub
leave channel_id [] hub = erase channel_id hub
leave channel_id (s ∷ subs) hub = insert channel_id (s ∷ subs) hub

unfoldable pub unsubscribe : Subscription → Hub → Hub
unfolding leave
unsubscribe sub hub = elim (lookup sub.channel_id hub) [
  | none ↦ hub
  | some subs ↦ leave sub.channel_id (erase sub.id subs) hub
]

-- The subscriptions that Broadcast writes the message to, once it is encoded.
unfoldable pub broadcast_targets : String → Hub → List Subscription
broadcast_targets channel_id hub = map (λ s. s.1) (subs_of (lookup channel_id hub))

-- The buffered channel `Send`, its oldest message first, and `isClosed`.
pub record Inbox (M : Type 0) : Type 0 where
  pub queue : List M
  pub is_closed : Bool

module _ {M : Type 0} where
  -- Write: a message for which there is no room is dropped.
  unfoldable pub write : M → Inbox M → Inbox M
  write msg inbox =
      if inbox.is_closed
      then inbox
      else if ltb (length inbox.queue) 256
      then record inbox { queue = inbox.queue ++ msg ∷ [] }
      else inbox

  unfoldable pub close : Inbox M → Inbox M
  close inbox = if inbox.is_closed then inbox else record inbox { is_closed = true }
