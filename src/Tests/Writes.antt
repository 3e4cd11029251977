-- ===== src/Tests/Writes.antt =====
-- Tests of the write path: the service and the handler.
use green_lab.Prelude.{
  inr, ℕ, ◌*◌, ◌≡◌, ◌==◌, refl, true, false, String, Option, none, some, [], ◌∷◌, ◌++◌, map, All,
  if◌then◌else◌,
}
use green_lab.Prelude.Maps.{lookup}
use green_lab.Ingestion.Domain.{
  Time, day, Error, publish_error, empty_fields, ok, err, Reading, uuid_re, validate_channel_id,
  validate_timestamp, validate_replay_timestamp,
}
use green_lab.Ingestion.Service.{
  publish_readings, returned, panicked, effective, group_by_timestamp, group_fields, put_group,
  prepare_item, prepare_replay, ingest, ingest_batch, ingest_replay,
}
use green_lab.Ingestion.Service.Grouping.{DistinctTimes, fields_at, group_by_timestamp_files}
use green_lab.Ingestion.Service.Batches
use green_lab.Ingestion.Service.Batches.{
  at_once, one_by_one, ingest_batch-ingest, ingest_batch-Prepares, ingest_batch_refused,
}
use green_lab.Ingestion.Service.Recency.{IsRecent, prepare-IsRecent}
use green_lab.Ingestion.Service.Replays.{
  Replays, Schedule, ingest_replay-Schedule, ingest_replay_panics,
}
use green_lab.Tests.Data.{distinct, channel_id, device_id, now, input, empty_input, readings}

prepared_item : prepare_item now (7 * day) input ≡ ok readings
unfolding prepare_item group_by_timestamp group_fields put_group validate_channel_id uuid_re
    validate_timestamp
prepared_item = refl

no_fields : prepare_item now (7 * day) empty_input ≡ err empty_fields
unfolding prepare_item validate_channel_id uuid_re
no_fields = refl

grouped : group_by_timestamp now (7 * day) input now ≡ ok readings
unfolding group_by_timestamp group_fields put_group validate_timestamp
grouped = refl

group_by_timestamp_files_example :
    DistinctTimes (map (λ r. r.timestamp) readings)
    × ((t : Time) (k : String)
        → lookup k (fields_at t readings)
          ≡ (if effective now input.field_timestamps k == t then lookup k input.fields else none))
    × All
        (λ r.
          (r.channel_id ≡ input.channel_id)
          × (r.device_id ≡ input.device_id)
          × (r.tags ≡ input.tags))
        readings
group_by_timestamp_files_example =
    group_by_timestamp_files now (7 * day) input now ((distinct, tt), (tt, tt)) grouped

prepare-IsRecent_example : All (λ r. IsRecent now (7 * day) r.timestamp) readings
prepare-IsRecent_example = prepare-IsRecent now (7 * day) input (inr prepared_item)

ingest_batch-Prepares_example :
    ingest_batch now (7 * day) none (input ∷ [])
    ≡ (returned none, publish_readings (readings ++ []) ∷ [])
ingest_batch-Prepares_example =
    ingest_batch-Prepares now (7 * day) none input [] (readings ++ [])
      (Batches.next prepared_item Batches.none_left)

ingest_batch_refused_example :
    ingest_batch now (7 * day) none ((input ∷ []) ++ empty_input ∷ (input ∷ []))
    ≡ (returned (some empty_fields), [])
ingest_batch_refused_example =
    ingest_batch_refused now (7 * day) none (input ∷ []) (readings ++ []) empty_input (input ∷ [])
      empty_fields (Batches.next prepared_item Batches.none_left) no_fields

abbrev replayed : Reading ℕ
replayed = record {
  channel_id = channel_id;
  device_id = device_id;
  fields = input.fields;
  tags = input.tags;
  timestamp = now;
}

replay_prepared : prepare_replay now 30 input ≡ ok replayed
unfolding prepare_replay validate_channel_id uuid_re validate_replay_timestamp
replay_prepared = refl

abbrev always_failing : ℕ → Option Error
always_failing attempt = some publish_error

ingest_replay-Schedule_example :
    Schedule now 30
      (replayed ∷ [])
      always_failing
      (ingest_replay now 30 true always_failing (input ∷ []))
ingest_replay-Schedule_example =
    ingest_replay-Schedule now 30 always_failing input [] (replayed ∷ [])
      (Replays.next replay_prepared Replays.none_left)

ingest_replay_panics_example : (ingest_replay now 30 false always_failing (input ∷ [])).0 ≡ panicked
ingest_replay_panics_example =
    ingest_replay_panics now 30 always_failing input [] (replayed ∷ []) publish_error publish_error
      publish_error (Replays.next replay_prepared Replays.none_left) refl refl refl

ingest_batch-ingest_example :
    (ingest_batch now (7 * day) none (input ∷ input ∷ [])
      ≡ at_once now (7 * day) none (one_by_one now (7 * day) (input ∷ input ∷ [])))
    × (ingest_batch now (7 * day) none (input ∷ []) ≡ ingest now (7 * day) none input)
ingest_batch-ingest_example = ingest_batch-ingest now (7 * day) none input (input ∷ [])
