-- ===== src/Ingestion/Handler/Unreachable.antt =====
-- The ThingSpeak endpoint and the channel that device-registry names to it.
use green_lab.Prelude.{
  ℕ, ◌≡◌, refl, ap, subst, String, Bool, false, Bool-cases, inl, inr, Option, some, List, [], ◌∷◌,
  take, str_eq, if◌then◌else◌, ◌||◌,
}
use green_lab.Ingestion.Domain.{
  Time, Error, invalid_channel_id, codec_error, DeviceSchema, Result, ok, err, ok_injective, codes,
  uuid_re, validate_channel_id,
}
use green_lab.Ingestion.Compact.{IngestInput}
use green_lab.Ingestion.Service.{returned, ingest, prepare}
use green_lab.Ingestion.Handler.ThingSpeak.{
  zero_reply, read_params, over_limit, ingest_fields, thing_speak_input, answer_schema, thing_speak,
  resolved_schema,
}
use green_lab.Registry.Device.{RegistryLib}
use green_lab.Registry.Tables.{Db, DbCall, key_query}
use green_lab.Registry.Keys.{
  ResolveRow, order_by, resolve_before, resolve_rows, resolve_answer, resolve_channel_by_api_key,
}

-- A channel ID that is no UUID is refused.
ingest_invalid :
    {V : Type 0} (now : Time) (age : ℕ) (answer : Option Error) (input : IngestInput V)
    → uuid_re (codes input.channel_id) ≡ false
    → ingest now age answer input ≡ (returned (some invalid_channel_id), [])
unfolding ingest prepare validate_channel_id
ingest_invalid now age answer input h = rw h

module _ {V : Type 0} (parse_float : String → Option V) (param : ℕ → String) where
  ingest_fields_zero :
      (now : Time) (age : ℕ) (answer : Option Error) (schema : DeviceSchema)
      (fields : List (String × V))
      → uuid_re (codes schema.channel_id) ≡ false
      → ingest_fields parse_float param now age answer schema fields ≡ (zero_reply, [])
  ingest_fields_zero now age answer schema [] h = refl
  ingest_fields_zero now age answer schema (f ∷ fields) h =
      rw (ingest_invalid now age answer (thing_speak_input parse_float param schema (f ∷ fields)) h)

  answer_schema_zero :
      (now : Time) (age : ℕ) (answer : Option Error) (count : Option ℕ) (o : Result DeviceSchema)
      → ((schema : DeviceSchema) → o ≡ ok schema → uuid_re (codes schema.channel_id) ≡ false)
      → answer_schema parse_float param now age answer count o ≡ (zero_reply, [])
  unfolding answer_schema
  answer_schema_zero now age answer count (err e) h = refl
  answer_schema_zero now age answer count (ok schema) h =
      elim (Bool-cases (over_limit parse_float param count)) [
        | inl over ↦ rw over
        | inr under ↦ rw under (
            ingest_fields_zero now age answer schema
              (read_params parse_float param schema.fields 8 1 []) (h schema refl))
      ]

  resolve_answer-ok :
      (decimal : ℕ → String) (rows : List ResolveRow) (schema : DeviceSchema)
      → ((n : ℕ) → uuid_re (codes (decimal n)) ≡ false)
      → resolved_schema (resolve_answer decimal rows) ≡ ok schema
      → uuid_re (codes schema.channel_id) ≡ false
  unfolding resolved_schema
  resolve_answer-ok decimal [] schema digits h = absurd (cc)
  resolve_answer-ok decimal ((d, (c, f)) ∷ rows) schema digits h =
      elim (Bool-cases (str_eq d.id "" || str_eq (decimal c.short_id) "")) [
        | inl empty ↦ absurd (let refused : err codec_error ≡ ok schema = rw empty at h in cc)
        | inr full ↦
            let same = ap (λ (q : DeviceSchema). q.channel_id) (ok_injective (rw full at h)) in
            subst (λ id. uuid_re (codes id) ≡ false) same (digits c.short_id)
      ]

  resolved-ok :
      (lib : RegistryLib) (down : DbCall → Bool) (decimal : ℕ → String) (key : String) (s : Db)
      (schema : DeviceSchema)
      → ((n : ℕ) → uuid_re (codes (decimal n)) ≡ false)
      → resolved_schema (resolve_channel_by_api_key lib down decimal key s).1 ≡ ok schema
      → uuid_re (codes schema.channel_id) ≡ false
  unfolding resolve_channel_by_api_key resolved_schema
  resolved-ok lib down decimal key s schema digits h = elim (Bool-cases (down key_query)) [
    | inl d ↦ absurd (let refused : err codec_error ≡ ok schema = rw d at h in cc)
    | inr d ↦
        resolve_answer-ok decimal
          (take 100 (order_by resolve_before (resolve_rows key s.devices s.channels s.fields)))
          schema digits (rw d at h)
  ]

  -- The ThingSpeak endpoint never accepts a reading: with the channel that device-registry resolves
  -- for the API key, whatever the key, the fields, the tables and the failures are, the response is
  -- "0" and nothing is published, as the channel is named by its short ID in decimal, which is no
  -- UUID.
  pub thing_speak-resolve_channel_by_api_key :
      (lib : RegistryLib) (down : DbCall → Bool) (decimal : ℕ → String) (s : Db) (now : Time)
      (age : ℕ) (answer : Option Error) (key_param header : String) (count : Option ℕ)
      → ((n : ℕ) → uuid_re (codes (decimal n)) ≡ false)
      → thing_speak parse_float param now age answer key_param header count
          (λ key. resolved_schema (resolve_channel_by_api_key lib down decimal key s).1)
        ≡ (zero_reply, [])
  unfolding thing_speak
  thing_speak-resolve_channel_by_api_key lib down decimal s now age answer key_param header count
        digits =
      let key = if str_eq key_param "" then header else key_param in
      let closed =
        answer_schema_zero now age answer count
          (resolved_schema (resolve_channel_by_api_key lib down decimal key s).1)
          (λ schema. resolved-ok lib down decimal key s schema digits) in
      elim (Bool-cases (str_eq key "")) [ inl empty ↦ rw empty refl | inr given ↦ rw given closed ]
