-- ===== src/Realtime/Hub/Members.antt =====
-- Who is subscribed after any sequence of calls.
use green_lab.Prelude.{
  ◌≡◌, refl, ◌∙◌, ap, String, Bool, ◌&&◌, Option, none, some, List, [], ◌∷◌, eq_iff, str_eq,
  if◌then◌else◌, Option-cases, inl, inr, arith,
}
use green_lab.Prelude.Maps.{lookup, insert, erase, lookup-insert, lookup-erase}
use green_lab.Realtime.Hub.{Subscription, Hub, subs_of, subscribe, unsubscribe, leave}

-- The subscription of an ID in a channel.
abbrev pub member : String → String → Hub → Option Subscription
member channel_id id hub = lookup id (subs_of (lookup channel_id hub))

abbrev pub is_sub : String → String → Subscription → Bool
is_sub channel_id id sub = str_eq sub.channel_id channel_id && str_eq sub.id id

member-subscribe :
    (channel_id id : String) (sub : Subscription) (hub : Hub)
    → member channel_id id (subscribe sub hub)
      ≡ (if is_sub channel_id id sub then some sub else member channel_id id hub)
unfolding subscribe
member-subscribe channel_id id sub hub =
    let subs = subs_of (lookup sub.channel_id hub) in
    ground (
      arith,
      eq_iff sub.channel_id channel_id,
      lookup-insert sub.channel_id channel_id (insert sub.id sub subs) hub,
      lookup-insert sub.id id sub subs,
    )

member-leave :
    (channel_id id c : String) (subs : List (String × Subscription)) (hub : Hub)
    → member channel_id id (leave c subs hub)
      ≡ (if str_eq c channel_id then lookup id subs else member channel_id id hub)
unfolding leave
member-leave channel_id id c [] hub = ground (arith, lookup-erase c channel_id hub)
member-leave channel_id id c (s ∷ subs) hub =
    ground (arith, lookup-insert c channel_id (s ∷ subs) hub)

member-unsubscribe :
    (channel_id id : String) (sub : Subscription) (hub : Hub)
    → member channel_id id (unsubscribe sub hub)
      ≡ (if is_sub channel_id id sub then none else member channel_id id hub)
unfolding unsubscribe
member-unsubscribe channel_id id sub hub = elim (Option-cases (lookup sub.channel_id hub)) [
  | inr e ↦ ground (arith, eq_iff sub.channel_id channel_id)
  | inl (subs, e) ↦ ground (
    arith,
    eq_iff sub.channel_id channel_id,
    member-leave channel_id id sub.channel_id (erase sub.id subs) hub,
    lookup-erase sub.id id subs,
  )
]

pub data Op : Type 0 where
  join part : Subscription → Op

abbrev pub run : List Op → Hub → Hub
run [] hub = hub
run (join sub ∷ ops) hub = run ops (subscribe sub hub)
run (part sub ∷ ops) hub = run ops (unsubscribe sub hub)

-- What the calls say of one ID in one channel, by the last of them that names it.
abbrev pub latest : String → String → List Op → Option Subscription → Option Subscription
latest channel_id id [] old = old
latest channel_id id (join sub ∷ ops) old =
    latest channel_id id ops (if is_sub channel_id id sub then some sub else old)
latest channel_id id (part sub ∷ ops) old =
    latest channel_id id ops (if is_sub channel_id id sub then none else old)

-- After any sequence of Subscribe and Unsubscribe calls, an ID is subscribed to a channel just as
-- the last call that names this ID in this channel says, and as before if none does.
pub run-latest :
    (channel_id id : String) (ops : List Op) (hub : Hub)
    → member channel_id id (run ops hub) ≡ latest channel_id id ops (member channel_id id hub)
run-latest channel_id id [] hub = refl
run-latest channel_id id (join sub ∷ ops) hub =
    run-latest channel_id id ops (subscribe sub hub)
    ∙ ap (latest channel_id id ops) (member-subscribe channel_id id sub hub)
run-latest channel_id id (part sub ∷ ops) hub =
    run-latest channel_id id ops (unsubscribe sub hub)
    ∙ ap (latest channel_id id ops) (member-unsubscribe channel_id id sub hub)
