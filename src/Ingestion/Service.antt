-- ===== src/Ingestion/Service.antt =====
-- services/ingestion/internal/application/ingest_service.go. A call's clock readings are one
-- instant, `now`. The publisher and the dead-letter queue are not part of the service: what they
-- answer is an argument, and what is sent to them is the trace of effects that a call returns.
pub mod Grouping
pub mod Batches
pub mod Recency
pub mod Replays
use green_lab.Prelude.{
  ℕ, zero, suc, ◌+◌, ◌-◌, ◌*◌, ◌^◌, String, Bool, true, false, Option, none, some, List, [], ◌∷◌,
  ◌++◌, length, map, ltb, ◌==◌, if◌then◌else◌,
}
use green_lab.Prelude.Maps.{lookup, insert}
use green_lab.Ingestion.Domain.{
  Time, Error, empty_fields, Result, ok, err, ◌>>=◌, ◌>>◌, Reading, new_reading,
  validate_channel_id, validate_timestamp, validate_replay_timestamp,
}
use green_lab.Ingestion.Compact.{IngestInput, base_of}

pub record ReplayDlqEntry (V : Type 0) : Type 0 where
  pub channel_id : String
  pub device_id : String
  pub timestamp : Time
  pub fields : List (String × V)
  pub failed_at : Time

-- PublishReadings, PublishReplayReadings, time.Sleep in milliseconds, dlq.Push, and
-- dlq.IncrFailureMetric.
pub data Effect (V : Type 0) : Type 0 where
  publish_readings : List (Reading V) → Effect V
  publish_replay_readings : List (Reading V) → Effect V
  sleep : ℕ → Effect V
  push : ReplayDlqEntry V → Effect V
  incr_failure_metric : Effect V

-- How a call ends: with an error or nil, or with a panic.
pub data Exit : Type 0 where
  returned : Option Error → Exit
  panicked : Exit

-- fieldTimestamps[fieldName], if it is there and not nil.
abbrev pub own_instant : List (String × Option Time) → String → Option Time
own_instant stamps name = elim (lookup name stamps) [ none ↦ none | some ft ↦ ft ]

-- The instant that a field is filed under.
abbrev pub effective : Time → List (String × Option Time) → String → Time
effective default_ts stamps name = base_of default_ts (own_instant stamps name)

check_own : Time → ℕ → Option Time → Option Error
check_own now max_reading_age none = none
check_own now max_reading_age (some ft) = validate_timestamp now ft max_reading_age

check_instant : (Time → Option Error) → Option Time → Option Error
check_instant check none = none
check_instant check (some ts) = check ts

module _ {V : Type 0} where
  -- `findOrCreate(ts)[fieldName] = value`
  unfoldable pub put_group :
      Time → String → V → List (Time × List (String × V)) → List (Time × List (String × V))
  put_group ts name value [] = (ts, (name, value) ∷ []) ∷ []
  put_group ts name value ((t, fields) ∷ groups) =
      if t == ts
      then (t, insert name value fields) ∷ groups
      else (t, fields) ∷ put_group ts name value groups

  -- The loop over the fields.
  unfoldable pub group_fields :
      Time
      → ℕ
      → List (String × Option Time)
      → Time
      → List (String × V)
      → List (Time × List (String × V))
      → Result (List (Time × List (String × V)))
  unfolding check_own
  group_fields now max_reading_age stamps default_ts [] groups = ok groups
  group_fields now max_reading_age stamps default_ts ((name, value) ∷ fields) groups =
      check_own now max_reading_age (own_instant stamps name)
      >> group_fields now max_reading_age stamps default_ts fields
          (put_group (effective default_ts stamps name) name value groups)

  -- groupByTimestamp; the input carries the ids, the fields, their instants and the tags.
  unfoldable pub group_by_timestamp : Time → ℕ → IngestInput V → Time → Result (List (Reading V))
  group_by_timestamp now max_reading_age input default_ts = do
    groups ← group_fields now max_reading_age input.field_timestamps default_ts input.fields []
    ok (map (λ g. new_reading input.channel_id input.device_id g.1 input.tags g.0) groups)

  check_fields : List (String × V) → Option Error
  check_fields [] = some empty_fields
  check_fields (f ∷ fs) = none

  -- What Ingest does before it publishes.
  unfoldable pub prepare : Time → ℕ → IngestInput V → Result (List (Reading V))
  unfolding check_fields check_instant
  prepare now max_reading_age input =
      validate_channel_id input.channel_id
      >> (check_fields input.fields
          >> (check_instant (λ ts. validate_timestamp now ts max_reading_age) input.timestamp
              >> group_by_timestamp now max_reading_age input (base_of now input.timestamp)))

  -- What is published, and the publisher's answer.
  publish : Option Error → Result (List (Reading V)) → Exit × List (Effect V)
  publish answer (err e) = (returned (some e), [])
  publish answer (ok readings) = (returned answer, publish_readings readings ∷ [])

  unfoldable pub ingest : Time → ℕ → Option Error → IngestInput V → Exit × List (Effect V)
  unfolding publish
  ingest now max_reading_age answer input = publish answer (prepare now max_reading_age input)

  -- What a round of IngestBatch does with its input.
  unfoldable pub prepare_item : Time → ℕ → IngestInput V → Result (List (Reading V))
  unfolding check_fields check_instant
  prepare_item now max_reading_age input =
      validate_channel_id input.channel_id
      >> (check_fields input.fields
          >> (check_instant (λ ts. validate_timestamp now ts max_reading_age) input.timestamp
              >> group_by_timestamp now max_reading_age input (base_of now input.timestamp)))

  -- The loop of IngestBatch.
  unfoldable pub collect :
      Time → ℕ → List (IngestInput V) → List (Reading V) → Result (List (Reading V))
  collect now max_reading_age [] batch = ok batch
  collect now max_reading_age (input ∷ inputs) batch = do
    grouped ← prepare_item now max_reading_age input
    collect now max_reading_age inputs (batch ++ grouped)

  unfoldable pub ingest_batch :
      Time → ℕ → Option Error → List (IngestInput V) → Exit × List (Effect V)
  unfolding publish
  ingest_batch now max_reading_age answer [] = (returned none, [])
  ingest_batch now max_reading_age answer (input ∷ inputs) =
      publish answer (collect now max_reading_age (input ∷ inputs) [])

  unfoldable pub prepare_replay : Time → ℕ → IngestInput V → Result (Reading V)
  unfolding check_fields check_instant
  prepare_replay now window_days input =
      validate_channel_id input.channel_id
      >> (check_fields input.fields
          >> (check_instant (λ ts. validate_replay_timestamp now ts window_days) input.timestamp
              >> ok (
                  new_reading input.channel_id input.device_id input.fields input.tags
                    (base_of now input.timestamp))))

  unfoldable pub collect_replay :
      Time → ℕ → List (IngestInput V) → List (Reading V) → Result (List (Reading V))
  collect_replay now window_days [] batch = ok batch
  collect_replay now window_days (input ∷ inputs) batch = do
    reading ← prepare_replay now window_days input
    collect_replay now window_days inputs (batch ++ reading ∷ [])

  -- `if attempt > 0 { time.Sleep(100*(1<<(attempt-1)) ms) }`
  back_off : ℕ → List (Effect V)
  back_off zero = []
  back_off (suc k) = sleep (100 * 2 ^ k) ∷ []

  -- The retry loop: `n` is the rounds left and `answer` the publisher's answer to each attempt. The
  -- first part is nil once a round has succeeded, and the last error otherwise.
  unfoldable pub retry :
      List (Reading V) → (ℕ → Option Error) → ℕ → ℕ → Option Error → Option Error × List (Effect V)
  unfolding back_off
  retry batch answer zero attempt last_err = (last_err, [])
  retry batch answer (suc n) attempt last_err =
      let here = back_off attempt ++ publish_replay_readings batch ∷ [] in
      elim (answer attempt) [
        | none ↦ (none, here)
        | some e ↦
            let (last, rest) = retry batch answer n (attempt + 1) (some e) in (last, here ++ rest)
      ]

  unfoldable pub dlq_entry : Time → Reading V → ReplayDlqEntry V
  dlq_entry now r = record {
    channel_id = r.channel_id;
    device_id = r.device_id;
    timestamp = r.timestamp;
    fields = r.fields;
    failed_at = now;
  }

  -- What follows the loop. Without a queue the interface is nil and `dlq.Push` panics.
  give_up : Time → Bool → List (Reading V) → Option Error × List (Effect V) → Exit × List (Effect V)
  unfolding dlq_entry
  give_up now has_dlq batch (none, trace) = (returned none, trace)
  give_up now true batch (some e, trace) = (
    returned (some e),
    trace ++ (map (λ r. push (dlq_entry now r)) batch ++ incr_failure_metric ∷ []),
  )
  give_up now false batch (some e, trace) = (panicked, trace)

  deliver : Time → Bool → (ℕ → Option Error) → Result (List (Reading V)) → Exit × List (Effect V)
  unfolding give_up
  deliver now has_dlq answer (err e) = (returned (some e), [])
  deliver now has_dlq answer (ok batch) = give_up now has_dlq batch (retry batch answer 3 0 none)

  unfoldable pub ingest_replay :
      Time → ℕ → Bool → (ℕ → Option Error) → List (IngestInput V) → Exit × List (Effect V)
  unfolding deliver
  ingest_replay now window_days has_dlq answer [] = (returned none, [])
  ingest_replay now window_days has_dlq answer (input ∷ inputs) =
      deliver now has_dlq answer (collect_replay now window_days (input ∷ inputs) [])
