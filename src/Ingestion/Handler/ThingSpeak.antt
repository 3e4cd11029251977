-- ===== src/Ingestion/Handler/ThingSpeak.antt =====
-- services/ingestion/internal/transport/http/handler.go: ThingSpeak, and what it gets of
-- infrastructure/deviceregistry/client.go from services/device-registry.
use green_lab.Prelude.{
  ℕ, zero, suc, ◌+◌, ◌/◌, String, Bool, false, ◌||◌, Option, none, some, List, [], ◌∷◌, leb, ◌==◌,
  str_eq, if◌then◌else◌,
}
use green_lab.Prelude.Maps.{insert}
use green_lab.Prelude.Actions.{done, failed}
use green_lab.Ingestion.Domain.{
  Time, second, Error, device_not_found, codec_error, FieldEntry, DeviceSchema, Result, ok, err,
}
use green_lab.Ingestion.Compact.{IngestInput}
use green_lab.Ingestion.Service.{Exit, Effect, returned, ingest}
use green_lab.Registry.Device.{RegistryLib, RegistryError}
use green_lab.Registry.Device
use green_lab.Registry.Keys.{ResolveChannelResult}

-- The body of the response: "0", or the Unix time in seconds.
pub data Reply : Type 0 where
  zero_reply : Reply
  entry_id : ℕ → Reply

-- posToName: a later entry replaces an earlier one.
unfoldable pub name_at : ℕ → List FieldEntry → Option String
name_at i [] = none
name_at i (f ∷ fs) = elim (name_at i fs) [
  | some name ↦ some name
  | none ↦ if f.index == i then some f.name else none
]

-- `param i` is the parameter field<i>; `parse_float` is Sscanf with %g, of finite values only;
-- `count` is the number of requests in the last minute, if Redis is there and answers.
module _ {V : Type 0} (parse_float : String → Option V) (param : ℕ → String) where
  abbrev pub put_param : List FieldEntry → ℕ → List (String × V) → List (String × V)
  put_param entries i fields =
      if str_eq (param i) "" then fields else elim (parse_float (param i)) [
        | none ↦ fields
        | some v ↦ elim (name_at i entries) [ none ↦ fields | some name ↦ insert name v fields ]
      ]

  -- The loop over the fields: `n` is the rounds left and `i` the next index.
  unfoldable pub read_params : List FieldEntry → ℕ → ℕ → List (String × V) → List (String × V)
  unfolding name_at
  read_params entries zero i fields = fields
  read_params entries (suc n) i fields = read_params entries n (i + 1) (put_param entries i fields)

  abbrev pub over_limit : Option ℕ → Bool
  over_limit none = false
  over_limit (some count) = leb 100 count

  -- The input that Ingest gets: without a timestamp and tags.
  abbrev pub thing_speak_input : DeviceSchema → List (String × V) → IngestInput V
  thing_speak_input schema fields = record {
    channel_id = schema.channel_id;
    device_id = schema.device_id;
    fields = fields;
    field_timestamps = [];
    tags = [];
    timestamp = none;
  }

  -- From the outcome of Ingest, which never panics.
  abbrev pub reply_to : Time → Exit × List (Effect V) → Reply × List (Effect V)
  reply_to now (returned none, trace) = (entry_id (now / second), trace)
  reply_to now (exit, trace) = (zero_reply, trace)

  abbrev pub ingest_fields :
      Time → ℕ → Option Error → DeviceSchema → List (String × V) → Reply × List (Effect V)
  ingest_fields now age answer schema [] = (zero_reply, [])
  ingest_fields now age answer schema (f ∷ fields) =
      reply_to now (ingest now age answer (thing_speak_input schema (f ∷ fields)))

  unfoldable pub answer_schema :
      Time → ℕ → Option Error → Option ℕ → Result DeviceSchema → Reply × List (Effect V)
  unfolding read_params
  answer_schema now age answer count (err e) = (zero_reply, [])
  answer_schema now age answer count (ok schema) =
      if over_limit count
      then (zero_reply, [])
      else ingest_fields now age answer schema (read_params schema.fields 8 1 [])

  -- ThingSpeak; `key_param` is the parameter api_key and `header` the header X-API-Key.
  unfoldable pub thing_speak :
      Time
      → ℕ
      → Option Error
      → String
      → String
      → Option ℕ
      → (String → Result DeviceSchema)
      → Reply × List (Effect V)
  unfolding answer_schema
  thing_speak now age answer key_param header count look_up =
      let key = if str_eq key_param "" then header else key_param in
      if str_eq key "" then (zero_reply, []) else answer_schema now age answer count (look_up key)

-- Client.ResolveChannelByAPIKey, from what device-registry answers.
unfoldable pub resolved_schema : Device.Answer ResolveChannelResult → Result DeviceSchema
resolved_schema (failed e) = elim e [
  | RegistryError.device_not_found ↦ err device_not_found
  | _ ↦ err codec_error
]
resolved_schema (done r) =
    if str_eq r.result.device_id "" || str_eq r.channel_id ""
    then err codec_error
    else ok (record {
      device_id = r.result.device_id;
      channel_id = r.channel_id;
      fields = r.result.fields;
      schema_version = r.result.schema_version;
    })
