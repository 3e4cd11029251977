-- ===== src/Ingestion/Handler/Refusals.antt =====
-- How the errors of the write path become responses.
use green_lab.Prelude.{
  ℕ, ◌+◌, ◌<◌, ◌≤◌, ◌≡◌, ◌⊎◌, refl, Bool, true, false, String, Option, none, some, List, [], length,
  take, take_short, length-take_long, ltb, lt→ltb, arith,
}
use green_lab.Ingestion.Domain.{
  Time, Error, schema_mismatch_error, codec_error, DeviceSchema, Result, err,
}
use green_lab.Ingestion.Batch.{CompactBatch}
use green_lab.Ingestion.Positional
use green_lab.Ingestion.Positional.{Payload}
use green_lab.Ingestion.Binary
use green_lab.Ingestion.Binary.Rejects.{parse_error}
use green_lab.Ingestion.Compact.{deserialize_compact}
use green_lab.Ingestion.Handler.{
  Response, refused, AckStore, bad_request, error_to_http_response, refuse_compact, ingest_compact,
}

is_mismatch : Error → Bool
is_mismatch (schema_mismatch_error v c) = true
is_mismatch _ = false

refuse_plain :
    {V : Type 0} (ack_store : AckStore) (channel_id : String) (schema : DeviceSchema) (e : Error)
    → is_mismatch e ≡ false
    → refuse_compact {V = V} ack_store channel_id schema e ≡ (error_to_http_response e, [])
unfolding refuse_compact is_mismatch
refuse_plain ack_store channel_id schema e h = ground arith

module _ {V : Type 0} (now : Time) (age : ℕ) (answer : Option Error) (ack_store : AckStore) where
  -- A body that is too long is refused with 413 whatever it holds: it is not parsed, and nothing is
  -- called.
  pub ingest_compact_too_large :
      (channel_id : String) (schema : DeviceSchema) (parse : List ℕ → Result (CompactBatch V))
      (max_body : ℕ) (raw : List ℕ)
      → max_body < length raw
      → ingest_compact now age answer ack_store channel_id schema parse max_body (some raw)
        ≡ (refused 413 "payload_too_large", [])
  unfolding ingest_compact
  ingest_compact_too_large channel_id schema parse max_body raw h =
      let read : length (take (max_body + 1) raw) ≡ max_body + 1 =
        length-take_long (max_body + 1) raw (omega arith) in
      rw (read, lt→ltb max_body (max_body + 1) (omega arith))

  -- A body that fits and is refused by the parser, with no version mismatch, gets the response of its
  -- error, and nothing is called.
  ingest_compact_unparsed :
      (channel_id : String) (schema : DeviceSchema) (parse : List ℕ → Result (CompactBatch V))
      (max_body : ℕ) (raw : List ℕ) (e : Error)
      → length raw ≤ max_body
      → parse raw ≡ err e
      → is_mismatch e ≡ false
      → ingest_compact now age answer ack_store channel_id schema parse max_body (some raw)
        ≡ (error_to_http_response e, [])
  unfolding ingest_compact deserialize_compact
  ingest_compact_unparsed channel_id schema parse max_body raw e h p r =
      let read : take (max_body + 1) raw ≡ raw = take_short (max_body + 1) raw (omega arith) in
      let fits : ltb max_body (length raw) ≡ false = ground arith in
      rw (read, fits, p) (refuse_plain ack_store channel_id schema e r)

  -- A body of a positional format that its codec cannot decode is answered with 503, though the fault
  -- is the client's.
  pub malformed_unavailable :
      (channel_id : String) (schema : DeviceSchema) (unmarshal : List ℕ → Option (Payload V))
      (max_body : ℕ) (raw : List ℕ)
      → length raw ≤ max_body
      → unmarshal raw ≡ none
      → ingest_compact now age answer ack_store channel_id schema
          (Positional.parse unmarshal)
          max_body
          (some raw)
        ≡ (refused 503 "service_unavailable", [])
  unfolding Positional.parse error_to_http_response is_mismatch
  malformed_unavailable channel_id schema unmarshal max_body raw h u =
      ingest_compact_unparsed channel_id schema (Positional.parse unmarshal) max_body raw
        codec_error h (ground arith) refl

  -- A binary frame that is refused is answered with 400 or 403, and nothing is called.
  pub bad_frame_refused :
      (to_float : ℕ → V) (channel_id : String) (schema : DeviceSchema) (raw : List ℕ) (e : Error)
      → length raw ≤ 32
      → Binary.parse to_float schema.device_id raw ≡ err e
      → (response : Response) × (ingest_compact now age answer ack_store channel_id schema
            (Binary.parse to_float schema.device_id)
            32
            (some raw)
          ≡ (response, []))
        × ((response ≡ bad_request) ⊎ (response ≡ refused 403 "device_id_mismatch"))
  unfolding is_mismatch error_to_http_response
  bad_frame_refused to_float channel_id schema raw e h p =
      let plain : is_mismatch e ≡ false =
        ground (arith, parse_error to_float schema.device_id raw p) in
      (
        error_to_http_response e,
        ingest_compact_unparsed channel_id schema (Binary.parse to_float schema.device_id) 32 raw e
            h p plain,
        ground (arith, parse_error to_float schema.device_id raw p),
      )
