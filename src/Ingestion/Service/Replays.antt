-- ===== src/Ingestion/Service/Replays.antt =====
-- IngestReplay: three attempts, then the dead-letter queue.
use mathlib.Core.List.{append_assoc, append-nil}
use green_lab.Prelude.{
  ℕ, ◌≡◌, ◌∙◌, ap, refl, Bool, true, false, Option, none, some, List, [], ◌∷◌, ◌++◌, map, arith,
}
use green_lab.Ingestion.Domain.{Time, Error, ok, err, Reading}
use green_lab.Ingestion.Compact.{IngestInput}
use green_lab.Ingestion.Service.{
  Effect, publish_replay_readings, sleep, push, incr_failure_metric, Exit, returned, panicked,
  prepare_replay, collect_replay, retry, deliver, dlq_entry, ingest_replay,
}

-- The last error of the three attempts, and what was sent.
abbrev retry_spec :
    {V : Type 0}
    → List (Reading V)
    → Option Error
    → Option Error
    → Option Error
    → Option Error × List (Effect V)
retry_spec batch none b c = (none, publish_replay_readings batch ∷ [])
retry_spec batch (some e) none c =
    (none, publish_replay_readings batch ∷ sleep 100 ∷ publish_replay_readings batch ∷ [])
retry_spec batch (some e) (some f) c = (
  c,
  publish_replay_readings batch
      ∷ sleep 100
      ∷ publish_replay_readings batch
      ∷ sleep 200
      ∷ publish_replay_readings batch
      ∷ [],
)

module _ {V : Type 0} (now : Time) (window_days : ℕ) where
  -- The readings of a list of inputs, each of which is accepted.
  pub data Replays : List (IngestInput V) → List (Reading V) → Type 0 where
    none_left : Replays [] []
    next :
        {input : IngestInput V} {inputs : List (IngestInput V)} {reading : Reading V}
        {readings : List (Reading V)}
        → prepare_replay now window_days input ≡ ok reading
        → Replays inputs readings
        → Replays (input ∷ inputs) (reading ∷ readings)

  collect_replay-Replays :
      {inputs : List (IngestInput V)} {readings : List (Reading V)} (batch : List (Reading V))
      → Replays inputs readings
      → collect_replay now window_days inputs batch ≡ ok (batch ++ readings)
  unfolding collect_replay
  collect_replay-Replays batch none_left = rw append-nil
  collect_replay-Replays batch (next {reading = r} {readings = rs} h rest) =
      rw h (collect_replay-Replays (batch ++ r ∷ []) rest ∙ ap ok (append_assoc batch (r ∷ []) rs))

  collect_replay_refused :
      {inputs : List (IngestInput V)} {readings : List (Reading V)} (batch : List (Reading V))
      (bad : IngestInput V) (post : List (IngestInput V)) (e : Error)
      → Replays inputs readings
      → prepare_replay now window_days bad ≡ err e
      → collect_replay now window_days (inputs ++ bad ∷ post) batch ≡ err e
  unfolding collect_replay
  collect_replay_refused batch bad post e none_left h = rw h
  collect_replay_refused batch bad post e (next {reading = r} h rest) k =
      rw h (collect_replay_refused (batch ++ r ∷ []) bad post e rest k)

  -- The first input that is refused ends the request with its error: nothing is published, nothing is
  -- queued, and there is no wait.
  pub ingest_replay_refused :
      (has_dlq : Bool) (answer : ℕ → Option Error) (pre : List (IngestInput V))
      (readings : List (Reading V)) (bad : IngestInput V) (post : List (IngestInput V)) (e : Error)
      → Replays pre readings
      → prepare_replay now window_days bad ≡ err e
      → ingest_replay now window_days has_dlq answer (pre ++ bad ∷ post) ≡ (returned (some e), [])
  unfolding ingest_replay
  ingest_replay_refused has_dlq answer [] readings bad post e h k =
      rw (collect_replay_refused [] bad post e none_left k)
  ingest_replay_refused has_dlq answer (input ∷ pre) readings bad post e h k =
      rw (collect_replay_refused [] bad post e h k)

  -- The loop, by the answers to its three rounds.
  retry_by :
      (batch : List (Reading V)) (answer : ℕ → Option Error) (a b c : Option Error)
      → answer 0 ≡ a
      → answer 1 ≡ b
      → answer 2 ≡ c
      → retry batch answer 3 0 none ≡ retry_spec batch a b c
  unfolding retry
  retry_by batch answer none b c ha hb hc = ground arith
  retry_by batch answer (some e) none c ha hb hc = ground arith
  retry_by batch answer (some e) (some f) none ha hb hc = ground arith
  retry_by batch answer (some e) (some f) (some g) ha hb hc = ground arith

  -- What is sent when every input is accepted, by the publisher's answers to the three attempts: the
  -- waits are 100 and 200 milliseconds, the first success ends the call, and after three failures
  -- every reading is pushed to the queue, in order, and the failure is counted.
  pub data Schedule (batch : List (Reading V)) (answer : ℕ → Option Error)
      : Exit × List (Effect V) → Type 0 where
    first :
        answer 0 ≡ none → Schedule batch answer (returned none, publish_replay_readings batch ∷ [])
    second :
        (e : Error)
        → answer 0 ≡ some e
        → answer 1 ≡ none
        → Schedule batch answer (
          returned none,
          publish_replay_readings batch ∷ sleep 100 ∷ publish_replay_readings batch ∷ [],
        )
    third :
        (e f : Error)
        → answer 0 ≡ some e
        → answer 1 ≡ some f
        → answer 2 ≡ none
        → Schedule batch answer (
          returned none,
          publish_replay_readings batch
              ∷ sleep 100
              ∷ publish_replay_readings batch
              ∷ sleep 200
              ∷ publish_replay_readings batch
              ∷ [],
        )
    queued :
        (e f g : Error)
        → answer 0 ≡ some e
        → answer 1 ≡ some f
        → answer 2 ≡ some g
        → Schedule batch answer (
          returned (some g),
          publish_replay_readings batch
              ∷ sleep 100
              ∷ publish_replay_readings batch
              ∷ sleep 200
              ∷ publish_replay_readings batch
              ∷ (map (λ r. push (dlq_entry now r)) batch ++ incr_failure_metric ∷ []),
        )

  by_answers :
      (input : IngestInput V) (inputs : List (IngestInput V)) (batch : List (Reading V))
      (answer : ℕ → Option Error) (a b c : Option Error)
      → answer 0 ≡ a
      → answer 1 ≡ b
      → answer 2 ≡ c
      → Replays (input ∷ inputs) batch
      → Schedule batch answer (ingest_replay now window_days true answer (input ∷ inputs))
  unfolding ingest_replay
  by_answers input inputs batch answer none b c ha hb hc h =
      rw (collect_replay-Replays [] h, retry_by batch answer none b c ha hb hc) (first ha)
  by_answers input inputs batch answer (some e) none c ha hb hc h =
      rw (collect_replay-Replays [] h, retry_by batch answer (some e) none c ha hb hc)
        (second e ha hb)
  by_answers input inputs batch answer (some e) (some f) none ha hb hc h =
      rw (collect_replay-Replays [] h, retry_by batch answer (some e) (some f) none ha hb hc)
        (third e f ha hb hc)
  by_answers input inputs batch answer (some e) (some f) (some g) ha hb hc h =
      rw (collect_replay-Replays [] h, retry_by batch answer (some e) (some f) (some g) ha hb hc)
        (queued e f g ha hb hc)

  -- With a dead-letter queue and accepted inputs, a replay follows the schedule.
  pub ingest_replay-Schedule :
      (answer : ℕ → Option Error) (input : IngestInput V) (inputs : List (IngestInput V))
      (batch : List (Reading V))
      → Replays (input ∷ inputs) batch
      → Schedule batch answer (ingest_replay now window_days true answer (input ∷ inputs))
  ingest_replay-Schedule answer input inputs batch h =
      by_answers input inputs batch answer (answer 0) (answer 1) (answer 2) refl refl refl h

  -- With no queue, a replay of accepted inputs whose three attempts all fail panics.
  pub ingest_replay_panics :
      (answer : ℕ → Option Error) (input : IngestInput V) (inputs : List (IngestInput V))
      (batch : List (Reading V)) (e f g : Error)
      → Replays (input ∷ inputs) batch
      → answer 0 ≡ some e
      → answer 1 ≡ some f
      → answer 2 ≡ some g
      → (ingest_replay now window_days false answer (input ∷ inputs)).0 ≡ panicked
  unfolding ingest_replay
  ingest_replay_panics answer input inputs batch e f g h ha hb hc = rw (
    collect_replay-Replays [] h,
    deliver,
    retry_by batch answer (some e) (some f) (some g) ha hb hc,
  )
