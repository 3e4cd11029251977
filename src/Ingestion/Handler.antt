-- ===== src/Ingestion/Handler.antt =====
-- services/ingestion/internal/transport/http: handler.go. A handler's result is the response and the
-- trace of its calls. What gin, the JSON decoder and the validator make of a request are arguments.
-- Logging, headers and the texts of messages are left out of the model.
pub mod Refusals
pub mod Outcomes
pub mod ThingSpeak
pub mod Unreachable
use green_lab.Prelude.{
  ℕ, ◌+◌, ◌^◌, String, Bool, true, false, ◌||◌, Option, none, some, List, [], ◌∷◌, ◌++◌, length,
  map, take, ltb, ◌==◌, str_eq, if◌then◌else◌,
}
use green_lab.Ingestion.Domain.{
  Time, Error, invalid_channel_id, empty_fields, timestamp_too_old, timestamp_future,
  timestamp_out_of_replay_window, schema_mismatch, missing_schema_version, unknown_field_index,
  payload_too_large, body_read_error, crc_mismatch, device_id_mismatch, invalid_frame_length,
  ts_delta_invalid, schema_mismatch_error, DeviceSchema, Result, ok, err,
}
use green_lab.Ingestion.Batch.{CompactBatch}
use green_lab.Ingestion.Positional
use green_lab.Ingestion.Positional.{Payload}
use green_lab.Ingestion.Binary
use green_lab.Ingestion.Compact.{IngestInput, deserialize_compact}
use green_lab.Ingestion.Service.{
  Effect, Exit, returned, panicked, ingest, ingest_batch, ingest_replay,
}

-- The status, and the code or the counts of the body.
pub data Response : Type 0 where
  created : ℕ → Response  -- 201, `accepted`
  replay_accepted : ℕ → ℕ → Response  -- 202, `accepted` and `queued_for_retry`
  conflict : ℕ → String → Response  -- 409, `current_version` and the channel of `schema_url`
  refused : ℕ → String → Response  -- any other status, with its machine-readable code
  crashed : Response  -- a panic, which gin.Recovery turns into a 500

-- What a handler calls besides the service.
pub data Call (V : Type 0) : Type 0 where
  service : Effect V → Call V
  is_force_deprecated : String → Call V
  set_stuck : String → String → Call V
  record_ack : String → String → ℕ → Call V

abbrev pub max_body_json : ℕ
max_body_json = 2 ^ 20

abbrev pub max_body_bin : ℕ
max_body_bin = 32

abbrev pub max_bulk_size : ℕ
max_bulk_size = 1000

abbrev pub default_replay_window_days : ℕ
default_replay_window_days = 30

-- apierr.BadRequest
abbrev pub bad_request : Response
bad_request = refused 400 "bad_request"

unfoldable pub is_domain_validation_error : Error → Bool
is_domain_validation_error invalid_channel_id = true
is_domain_validation_error empty_fields = true
is_domain_validation_error timestamp_too_old = true
is_domain_validation_error timestamp_future = true
is_domain_validation_error timestamp_out_of_replay_window = true
is_domain_validation_error _ = false

-- The `switch` of errorToHTTPResponse below the validation errors; the last clause is `default`.
other_response : Error → Response
other_response payload_too_large = refused 413 "payload_too_large"
other_response unknown_field_index = bad_request
other_response missing_schema_version = bad_request
other_response crc_mismatch = bad_request
other_response invalid_frame_length = bad_request
other_response ts_delta_invalid = bad_request
other_response body_read_error = bad_request
other_response _ = refused 503 "service_unavailable"

unfoldable pub error_to_http_response : Error → Response
unfolding is_domain_validation_error other_response
error_to_http_response (schema_mismatch_error version channel_id) = conflict version channel_id
error_to_http_response schema_mismatch = refused 409 "schema_version_mismatch"
error_to_http_response device_id_mismatch = refused 403 "device_id_mismatch"
error_to_http_response e = if is_domain_validation_error e then bad_request else other_response e

-- The response to the end of a service call.
unfoldable pub respond : Response → Exit → Response
respond success (returned none) = success
respond success (returned (some e)) = error_to_http_response e
respond success panicked = crashed

-- The ACK store, if one is attached: what IsForceDeprecated answers, where `none` is its error.
abbrev pub AckStore : Type 0
AckStore = Option (Option Bool)

-- IngestRequest: the opaque `data` is not read.
pub record IngestRequest (V : Type 0) : Type 0 where
  pub fields : List (String × V)
  pub field_timestamps : List (String × Option Time)
  pub tags : List (String × String)
  pub timestamp : Option Time

-- ReplayReadingRequest
pub record ReplayReading (V : Type 0) : Type 0 where
  pub fields : List (String × V)
  pub timestamp : Time

-- The end of Replay: every error is a 202 if a queue is attached.
replay_response : Bool → ℕ → Exit → Response
replay_response has_dlq count (returned none) = created count
replay_response true count (returned (some e)) = replay_accepted 0 count
replay_response false count (returned (some e)) = error_to_http_response e
replay_response has_dlq count panicked = crashed

module _ {V : Type 0} where
  -- After a refused body: only a SchemaMismatchError asks the ACK store.
  force_deprecated : Option Bool → String → DeviceSchema → Error → Response × List (Call V)
  force_deprecated (some true) channel_id schema e = (
    refused 410 "schema_force_deprecated",
    is_force_deprecated channel_id ∷ set_stuck channel_id schema.device_id ∷ [],
  )
  force_deprecated _ channel_id schema e =
      (error_to_http_response e, is_force_deprecated channel_id ∷ [])

  unfoldable pub refuse_compact :
      AckStore → String → DeviceSchema → Error → Response × List (Call V)
  unfolding force_deprecated
  refuse_compact (some answer) channel_id schema (schema_mismatch_error version channel) =
      force_deprecated answer channel_id schema (schema_mismatch_error version channel)
  refuse_compact ack_store channel_id schema e = (error_to_http_response e, [])

  acknowledge : AckStore → String → DeviceSchema → List (Call V)
  acknowledge none channel_id schema = []
  acknowledge (some answer) channel_id schema =
      record_ack channel_id schema.device_id schema.schema_version ∷ []

  finish_compact :
      AckStore → String → DeviceSchema → ℕ → Exit × List (Effect V) → Response × List (Call V)
  unfolding acknowledge
  finish_compact ack_store channel_id schema count (returned none, trace) =
      (created count, map service trace ++ acknowledge ack_store channel_id schema)
  finish_compact ack_store channel_id schema count (exit, trace) =
      (respond (created count) exit, map service trace)

  abbrev pub label_input : String → DeviceSchema → IngestInput V → IngestInput V
  label_input channel_id schema input = record input {
    channel_id = channel_id;
    device_id = schema.device_id;
  }

  -- ingestCompact. `body` is what the request's body holds, `none` if reading it fails: at most
  -- `max_body + 1` bytes of it are read.
  unfoldable pub ingest_compact :
      Time
      → ℕ
      → Option Error
      → AckStore
      → String
      → DeviceSchema
      → (List ℕ → Result (CompactBatch V))
      → ℕ
      → Option (List ℕ)
      → Response × List (Call V)
  unfolding finish_compact
  ingest_compact now age answer ack_store channel_id schema parse max_body none = (bad_request, [])
  ingest_compact now age answer ack_store channel_id schema parse max_body (some raw) =
      let body = take (max_body + 1) raw in
      if ltb max_body (length body)
      then (refused 413 "payload_too_large", [])
      else elim (deserialize_compact now body schema parse channel_id) [
        | err e ↦ refuse_compact ack_store channel_id schema e
        | ok inputs ↦
            finish_compact ack_store channel_id schema (length inputs)
              (ingest_batch now age answer (map (label_input channel_id schema) inputs))
      ]

  -- What a JSON endpoint does once its request is decoded, bounded and validated.
  finish_json : ℕ → Exit × List (Effect V) → Response × List (Call V)
  finish_json count (exit, trace) = (respond (created count) exit, map service trace)

  abbrev pub input_of : String → String → IngestRequest V → IngestInput V
  input_of channel_id device_id r = record {
    channel_id = channel_id;
    device_id = device_id;
    fields = r.fields;
    field_timestamps = r.field_timestamps;
    tags = r.tags;
    timestamp = r.timestamp;
  }

  -- ingestJSON. `req` is `none` if the JSON does not bind, and `valid` is the validator's verdict; a
  -- failed validation is a 422 of shared/pkg/response.
  unfoldable pub ingest_json :
      Time
      → ℕ
      → Option Error
      → String
      → String
      → Option (IngestRequest V)
      → (IngestRequest V → Bool)
      → Response × List (Call V)
  unfolding finish_json
  ingest_json now age answer channel_id device_id none valid = (bad_request, [])
  ingest_json now age answer channel_id device_id (some req) valid =
      if valid req
      then finish_json 1 (ingest now age answer (input_of channel_id device_id req))
      else (refused 422 "validation_error", [])

  unfoldable pub bulk_ingest :
      Time
      → ℕ
      → Option Error
      → String
      → Option DeviceSchema
      → Option (List (IngestRequest V))
      → (List (IngestRequest V) → Bool)
      → Response × List (Call V)
  unfolding finish_json
  bulk_ingest now age answer channel_id schema none valid = (bad_request, [])
  bulk_ingest now age answer channel_id schema (some readings) valid =
      if ltb max_bulk_size (length readings)
      then (bad_request, [])
      else if valid readings
      then elim schema [
        | none ↦ (refused 500 "internal_server_error", [])
        | some s ↦
            finish_json (length readings)
              (ingest_batch now age answer (map (input_of channel_id s.device_id) readings))
      ]
      else (refused 422 "validation_error", [])

  abbrev pub replay_input : String → String → ReplayReading V → IngestInput V
  replay_input channel_id device_id r = record {
    channel_id = channel_id;
    device_id = device_id;
    fields = r.fields;
    field_timestamps = [];
    tags = [];
    timestamp = some r.timestamp;
  }

  finish_replay : Bool → ℕ → Exit × List (Effect V) → Response × List (Call V)
  unfolding replay_response
  finish_replay has_dlq count (exit, trace) =
      (replay_response has_dlq count exit, map service trace)

  unfoldable pub replay :
      Time
      → Bool
      → (ℕ → Option Error)
      → String
      → Option DeviceSchema
      → Option (List (ReplayReading V))
      → (List (ReplayReading V) → Bool)
      → Response × List (Call V)
  unfolding finish_replay
  replay now has_dlq answer channel_id none readings valid =
      (refused 500 "internal_server_error", [])
  replay now has_dlq answer channel_id (some schema) none valid = (bad_request, [])
  replay now has_dlq answer channel_id (some schema) (some readings) valid =
      if valid readings
      then finish_replay has_dlq (length readings) (
          ingest_replay now default_replay_window_days has_dlq answer
            (map (replay_input channel_id schema.device_id) readings))
      else (refused 422 "validation_error", [])

  -- Ingest: the content types that it tells apart. The two codecs are parameters.
  unfoldable pub ingest_request :
      (ℕ → V)
      → (List ℕ → Option (Payload V))
      → (List ℕ → Option (Payload V))
      → Time
      → ℕ
      → Option Error
      → AckStore
      → String
      → Option DeviceSchema
      → String
      → Option (List ℕ)
      → Option (IngestRequest V)
      → (IngestRequest V → Bool)
      → Response × List (Call V)
  ingest_request to_float json_unmarshal msgpack_unmarshal now age answer ack channel_id none ct
        body req valid =
      (refused 500 "internal_server_error", [])
  ingest_request to_float json_unmarshal msgpack_unmarshal now age answer ack channel_id (some s) ct
        body req valid =
      if str_eq ct "application/json" || str_eq ct ""
      then ingest_json now age answer channel_id s.device_id req valid
      else if str_eq ct "application/x-greenlab-ojson"
      then ingest_compact now age answer ack channel_id s (Positional.parse json_unmarshal)
          max_body_json body
      else if str_eq ct "application/msgpack"
      then ingest_compact now age answer ack channel_id s (Positional.parse msgpack_unmarshal)
          max_body_json body
      else if str_eq ct "application/x-thingspeak-binary"
      then ingest_compact now age answer ack channel_id s (Binary.parse to_float s.device_id)
          max_body_bin body
      else if str_eq ct "application/x-protobuf"
      then (refused 501 "not_implemented", [])
      else (refused 415 "unsupported_media_type", [])
