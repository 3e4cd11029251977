-- ===== src/Tests/Subscribers.antt =====
-- Tests of the hub.
use green_lab.Prelude.{ℕ, ◌≡◌, false, List, [], ◌∷◌, ◌++◌, take, arith}
use green_lab.Realtime.Hub.{Subscription}
use green_lab.Realtime.Hub.Members.{join, part, Op, member, run, latest, run-latest}
use green_lab.Realtime.Hub.SlowReader.{write_all, write_all-take}

abbrev browser : Subscription
browser = record { id = "s1"; channel_id = "c1"; user_id = "u1" }

abbrev phone : Subscription
phone = record { id = "s2"; channel_id = "c1"; user_id = "u1" }

abbrev ops : List Op
ops = join browser ∷ join phone ∷ part browser ∷ []

run-latest_example : member "c1" "s1" (run ops []) ≡ latest "c1" "s1" ops (member "c1" "s1" [])
run-latest_example = run-latest "c1" "s1" ops []

abbrev queued : List ℕ
queued = 1 ∷ 2 ∷ []

write_all-take_example :
    write_all (3 ∷ 4 ∷ []) (record { queue = queued; is_closed = false })
    ≡ record { queue = take 256 (queued ++ 3 ∷ 4 ∷ []); is_closed = false }
write_all-take_example = write_all-take (3 ∷ 4 ∷ []) queued (omega arith)
