-- ===== src/Ingestion/Handler/Outcomes.antt =====
-- What a handler has done when it answers.
use green_lab.Prelude.{
  ℕ, ◌+◌, ◌≡◌, refl, ap, Bool, true, false, ◌||◌, String, Option, none, some, List, [], ◌∷◌, ◌++◌,
  length, take, take_short, ◌≤◌, map, ltb, if◌then◌else◌, arith,
}
use mathlib.Core.List.{map-append}
use green_lab.Ingestion.Domain.{Time, Error, DeviceSchema, Result, ok, err, Reading}
use green_lab.Ingestion.Batch.{CompactBatch}
use green_lab.Ingestion.Compact.{IngestInput, deserialize_compact}
use green_lab.Ingestion.Service.{
  Effect, publish_readings, Exit, returned, prepare_replay, ingest_replay,
}
use green_lab.Ingestion.Service.Batches.{Prepares, ingest_batch-Prepares}
use green_lab.Ingestion.Service.Replays.{
  Replays, Schedule, first, second, third, queued, ingest_replay_refused, ingest_replay-Schedule,
}
use green_lab.Ingestion.Handler.{
  finish_compact, respond, error_to_http_response, Response, created, replay_accepted, AckStore,
  Call, service, record_ack, ReplayReading, replay_input, label_input, ingest_compact, replay,
  replay_response,
}

-- One of the three attempts is answered without an error.
abbrev pub is_ok : Option Error → Bool
is_ok none = true
is_ok (some e) = false

abbrev pub succeeded : (ℕ → Option Error) → Bool
succeeded answer = is_ok (answer 0) || is_ok (answer 1) || is_ok (answer 2)

module _ {V : Type 0} (now : Time) where
  -- With a dead-letter queue, a replay in which one reading is refused, the readings before it being
  -- accepted, is answered with 202 and all its readings are reported as queued for a retry; but
  -- nothing has been published and nothing has been queued.
  pub replay_refused_accepted :
      (answer : ℕ → Option Error) (channel_id : String) (schema : DeviceSchema)
      (valid : List (ReplayReading V) → Bool) (pre : List (ReplayReading V))
      (kept : List (Reading V)) (bad : ReplayReading V) (post : List (ReplayReading V)) (e : Error)
      → valid (pre ++ bad ∷ post) ≡ true
      → Replays now 30 (map (replay_input channel_id schema.device_id) pre) kept
      → prepare_replay now 30 (replay_input channel_id schema.device_id bad) ≡ err e
      → replay now true answer channel_id (some schema) (some (pre ++ bad ∷ post)) valid
        ≡ (replay_accepted 0 (length (pre ++ bad ∷ post)), [])
  unfolding replay
  replay_refused_accepted answer channel_id schema valid pre kept bad post e hv hk he =
      let split : map (replay_input channel_id schema.device_id) (pre ++ bad ∷ post)
          ≡ map (replay_input channel_id schema.device_id) pre
            ++ (replay_input channel_id schema.device_id bad
                ∷ map (replay_input channel_id schema.device_id) post) =
        rw map-append in
      rw (
        hv,
        split,
        ingest_replay_refused now 30 true answer
            (map (replay_input channel_id schema.device_id) pre) kept
            (replay_input channel_id schema.device_id bad)
            (map (replay_input channel_id schema.device_id) post) e hk he,
      )

  response_of :
      (answer : ℕ → Option Error) (count : ℕ) {batch : List (Reading V)}
      {outcome : Exit × List (Effect V)}
      → Schedule now 30 batch answer outcome
      → replay_response true count outcome.0
        ≡ (if succeeded answer then created count else replay_accepted 0 count)
  unfolding replay_response
  response_of answer count (first a) = rw a
  response_of answer count (second e a b) = rw (a, b)
  response_of answer count (third e f a b c) = rw (a, b, c)
  response_of answer count (queued e f g a b c) = rw (a, b, c)

  -- With a dead-letter queue and accepted readings, the response is 201 if one of the three attempts
  -- succeeded, and else 202 with every reading reported as queued; the calls are the scheduled ones.
  pub replay_delivers :
      (answer : ℕ → Option Error) (channel_id : String) (schema : DeviceSchema)
      (valid : List (ReplayReading V) → Bool) (r : ReplayReading V) (rs : List (ReplayReading V))
      (batch : List (Reading V))
      → valid (r ∷ rs) ≡ true
      → Replays now 30 (map (replay_input channel_id schema.device_id) (r ∷ rs)) batch
      → (outcome : Exit × List (Effect V)) × Schedule now 30 batch answer outcome
        × (replay now true answer channel_id (some schema) (some (r ∷ rs)) valid ≡ (
          if succeeded answer
              then created (length (r ∷ rs))
              else replay_accepted 0 (length (r ∷ rs)),
          map service outcome.1,
        ))
  unfolding replay
  replay_delivers answer channel_id schema valid r rs batch hv h =
      let inputs = map (replay_input channel_id schema.device_id) (r ∷ rs) in
      let outcome = ingest_replay now 30 true answer inputs in
      let schedule =
        ingest_replay-Schedule now 30 answer (replay_input channel_id schema.device_id r)
          (map (replay_input channel_id schema.device_id) rs) batch h in
      (
        outcome,
        schedule,
        rw hv (
            ap (λ (t : Response). (t, map service outcome.1))
              (response_of answer (length (r ∷ rs)) schedule)),
      )

module _ {V : Type 0} where
  -- What a compact ingest does once it has published: the device is acknowledged at the server's
  -- schema version after a success, and only then.
  abbrev pub after_publish :
      Option Error
      → AckStore
      → String
      → DeviceSchema
      → ℕ
      → List (Reading V)
      → Response × List (Call V)
  after_publish none none channel_id schema count readings =
      (created count, service (publish_readings readings) ∷ [])
  after_publish none (some a) channel_id schema count readings = (
    created count,
    service (publish_readings readings)
        ∷ record_ack channel_id schema.device_id schema.schema_version
        ∷ [],
  )
  after_publish (some e) ack_store channel_id schema count readings =
      (error_to_http_response e, service (publish_readings readings) ∷ [])

module _ {V : Type 0} (now : Time) (age : ℕ) where
  -- A body that fits, parses and resolves, and whose inputs are accepted under the ids of the request,
  -- is published in one call; the response is 201 with the number of inputs if the publisher takes
  -- them and else the response of its error, and the schema version is acknowledged in the first case
  -- alone.
  pub ingest_compact_publishes :
      (answer : Option Error) (ack_store : AckStore) (channel_id : String) (schema : DeviceSchema)
      (parse : List ℕ → Result (CompactBatch V)) (max_body : ℕ) (raw : List ℕ)
      (input : IngestInput V) (inputs : List (IngestInput V)) (readings : List (Reading V))
      → length raw ≤ max_body
      → deserialize_compact now raw schema parse channel_id ≡ ok (input ∷ inputs)
      → Prepares now age (map (label_input channel_id schema) (input ∷ inputs)) readings
      → ingest_compact now age answer ack_store channel_id schema parse max_body (some raw)
        ≡ after_publish answer ack_store channel_id schema (length (input ∷ inputs)) readings
  unfolding ingest_compact respond
  ingest_compact_publishes answer ack_store channel_id schema parse max_body raw input inputs
        readings h hd hp =
      let read : take (max_body + 1) raw ≡ raw = take_short (max_body + 1) raw (omega arith) in
      let fits : ltb max_body (length raw) ≡ false = ground arith in
      let sent =
        ingest_batch-Prepares now age answer (label_input channel_id schema input)
          (map (label_input channel_id schema) inputs) readings hp in
      rw (read, fits, hd, sent) (finish answer ack_store)
    where
      finish :
          (answer : Option Error) (ack_store : AckStore)
          → finish_compact ack_store channel_id schema
              (length (input ∷ inputs))
              (returned answer, publish_readings readings ∷ [])
            ≡ after_publish answer ack_store channel_id schema (length (input ∷ inputs)) readings
      finish none none = refl
      finish none (some a) = refl
      finish (some e) none = refl
      finish (some e) (some a) = refl
