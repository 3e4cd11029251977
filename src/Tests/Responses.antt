-- ===== src/Tests/Responses.antt =====
-- Tests of the HTTP handlers of the write path.
use green_lab.Prelude.{
  ℕ, ◌*◌, ◌≡◌, ◌⊎◌, ◌==◌, refl, Bool, true, false, Option, none, some, List, [], ◌∷◌, ◌++◌, length,
  map, if◌then◌else◌, arith,
}
use green_lab.Ingestion.Domain.{
  day, Error, publish_error, timestamp_out_of_replay_window, invalid_frame_length, ok, err, Reading,
  uuid_re, validate_channel_id, validate_timestamp, validate_replay_timestamp,
}
use green_lab.Ingestion.Binary
use green_lab.Ingestion.Positional
use green_lab.Ingestion.Compact.{
  IngestInput, deserialize_compact, assemble, resolve_fields, value_at, field_at,
  resolve_td_offsets, add_offsets, fields_of,
}
use green_lab.Ingestion.Service.{
  Effect, Exit, group_by_timestamp, group_fields, put_group, prepare_item, prepare_replay,
}
use green_lab.Ingestion.Service.Batches
use green_lab.Ingestion.Service.Replays
use green_lab.Ingestion.Service.Replays.{Schedule}
use green_lab.Ingestion.Handler.{
  Response, created, replay_accepted, refused, bad_request, service, ReplayReading, replay_input,
  label_input, ingest_compact, replay,
}
use green_lab.Ingestion.Handler.Refusals.{malformed_unavailable, bad_frame_refused}
use green_lab.Ingestion.Handler.Outcomes.{
  succeeded, after_publish, replay_refused_accepted, replay_delivers, ingest_compact_publishes,
}
use green_lab.Tests.Data.{channel_id, device_id, as_float, now, schema, batch}

abbrev no_codec : List ℕ → Option (Positional.Payload ℕ)
no_codec body = none

malformed_unavailable_example :
    ingest_compact now
      (7 * day)
      none
      none
      channel_id
      schema
      (Positional.parse no_codec)
      100
      (some (1 ∷ 2 ∷ []))
    ≡ (refused 503 "service_unavailable", [])
malformed_unavailable_example =
    malformed_unavailable now (7 * day) none none channel_id schema no_codec 100 (1 ∷ 2 ∷ [])
      (omega arith) refl

short_frame : Binary.parse as_float device_id (1 ∷ 2 ∷ []) ≡ err invalid_frame_length
unfolding Binary.parse
short_frame = refl

bad_frame_refused_example :
    (response : Response) × (ingest_compact now
        (7 * day)
        none
        none
        channel_id
        schema
        (Binary.parse as_float device_id)
        32
        (some (1 ∷ 2 ∷ []))
      ≡ (response, []))
    × ((response ≡ bad_request) ⊎ (response ≡ refused 403 "device_id_mismatch"))
bad_frame_refused_example =
    bad_frame_refused now (7 * day) none none as_float channel_id schema (1 ∷ 2 ∷ [])
      invalid_frame_length (omega arith) short_frame

-- One reading of the clock's second, and one of 1970.
abbrev fresh : ReplayReading ℕ
fresh = record { fields = ("temperature", 215) ∷ []; timestamp = now }

abbrev stale : ReplayReading ℕ
stale = record { fields = ("temperature", 215) ∷ []; timestamp = 0 }

abbrev always_valid : List (ReplayReading ℕ) → Bool
always_valid readings = true

abbrev failing_once : ℕ → Option Error
failing_once attempt = if attempt == 0 then some publish_error else none

abbrev replayed : Reading ℕ
replayed = record {
  channel_id = channel_id;
  device_id = device_id;
  fields = ("temperature", 215) ∷ [];
  tags = [];
  timestamp = now;
}

fresh_kept : prepare_replay now 30 (replay_input channel_id device_id fresh) ≡ ok replayed
unfolding prepare_replay validate_channel_id uuid_re validate_replay_timestamp
fresh_kept = refl

stale_refused :
    prepare_replay now 30 (replay_input channel_id device_id stale)
    ≡ err timestamp_out_of_replay_window
unfolding prepare_replay validate_channel_id uuid_re validate_replay_timestamp
stale_refused = refl

replay_refused_accepted_example :
    replay now true failing_once channel_id
      (some schema)
      (some ((fresh ∷ []) ++ stale ∷ []))
      always_valid
    ≡ (replay_accepted 0 (length ((fresh ∷ []) ++ stale ∷ [])), [])
replay_refused_accepted_example =
    replay_refused_accepted now failing_once channel_id schema always_valid (fresh ∷ [])
      (replayed ∷ []) stale [] timestamp_out_of_replay_window refl
      (Replays.next fresh_kept Replays.none_left) stale_refused

replay_delivers_example :
    (outcome : Exit × List (Effect ℕ)) × Schedule now 30 (replayed ∷ []) failing_once outcome
    × (replay now true failing_once channel_id (some schema) (some (fresh ∷ [])) always_valid ≡ (
      if succeeded failing_once then created 1 else replay_accepted 0 1,
      map service outcome.1,
    ))
replay_delivers_example =
    replay_delivers now failing_once channel_id schema always_valid fresh [] (replayed ∷ []) refl
      (Replays.next fresh_kept Replays.none_left)

abbrev parsed : IngestInput ℕ
parsed = record {
  channel_id = "";
  device_id = "";
  fields = ("temperature", 215) ∷ ("humidity", 60) ∷ [];
  field_timestamps = ("temperature", some now) ∷ ("humidity", some (1700000000250000000)) ∷ [];
  tags = [];
  timestamp = some now;
}

deserialized :
    deserialize_compact now (9 ∷ []) schema (λ body. ok batch) channel_id ≡ ok (parsed ∷ [])
unfolding deserialize_compact assemble resolve_fields value_at field_at resolve_td_offsets
    add_offsets fields_of
deserialized = refl

abbrev published : List (Reading ℕ)
published =
    record {
      channel_id = channel_id;
      device_id = device_id;
      fields = ("temperature", 215) ∷ [];
      tags = [];
      timestamp = now;
    }
    ∷ record {
      channel_id = channel_id;
      device_id = device_id;
      fields = ("humidity", 60) ∷ [];
      tags = [];
      timestamp = 1700000000250000000;
    }
    ∷ []

prepared : prepare_item now (7 * day) (label_input channel_id schema parsed) ≡ ok published
unfolding prepare_item group_by_timestamp group_fields put_group validate_channel_id uuid_re
    validate_timestamp
prepared = refl

ingest_compact_publishes_example :
    ingest_compact now
      (7 * day)
      none
      (some (some false))
      channel_id
      schema
      (λ body. ok batch)
      32
      (some (9 ∷ []))
    ≡ after_publish none (some (some false)) channel_id schema 1 (published ++ [])
ingest_compact_publishes_example =
    ingest_compact_publishes now (7 * day) none (some (some false)) channel_id schema
      (λ body. ok batch) 32 (9 ∷ []) parsed [] (published ++ []) (omega arith) deserialized
      (Batches.next prepared Batches.none_left)
