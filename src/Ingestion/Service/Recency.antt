-- ===== src/Ingestion/Service/Recency.antt =====
-- Which instants are accepted by validateTimestamp, and so by Ingest and IngestBatch.
use green_lab.Prelude.{
  ℕ, ◌+◌, ◌*◌, ◌≡◌, ◌⊎◌, ◌≤◌, ◌<◌, sym, String, Option, none, some, List, [], ◌∷◌, map, All, ◌==◌,
  Bool-cases, inl, inr, arith,
}
use green_lab.Ingestion.Domain.{
  Time, second, ok, ok_injective, >>-eq-ok, >>=-eq-ok, Reading, new_reading, validate_channel_id,
  validate_timestamp,
}
use green_lab.Ingestion.Compact.{IngestInput, base_of}
use green_lab.Ingestion.Service.{
  own_instant, effective, check_own, check_instant, check_fields, put_group, group_fields,
  group_by_timestamp, prepare, prepare_item,
}

-- The instants that validate_timestamp accepts.
pub record IsRecent (now : Time) (age : ℕ) (ts : Time) : Type 0 where
  pub not_future : ts ≤ now + 30 * second
  pub not_too_old : 0 < age → now ≤ ts + age

validate_timestamp-IsRecent :
    (now ts : Time) (age : ℕ) → validate_timestamp now ts age ≡ none → IsRecent now age ts
unfolding validate_timestamp
validate_timestamp-IsRecent now ts age h = record {
  not_future = ground arith;
  not_too_old = λ p. ground arith;
}

now-IsRecent : (now : Time) (age : ℕ) → IsRecent now age now
now-IsRecent now age = record { not_future = omega arith; not_too_old = λ p. omega arith }

module _ (now : Time) (age : ℕ) where
  own-IsRecent :
      (own : Option Time) (default_ts : Time)
      → IsRecent now age default_ts
      → check_own now age own ≡ none
      → IsRecent now age (base_of default_ts own)
  unfolding check_own
  own-IsRecent none default_ts d h = d
  own-IsRecent (some ts) default_ts d h = validate_timestamp-IsRecent now ts age h

  base-IsRecent :
      (timestamp : Option Time)
      → check_instant (λ ts. validate_timestamp now ts age) timestamp ≡ none
      → IsRecent now age (base_of now timestamp)
  unfolding check_instant
  base-IsRecent none h = now-IsRecent now age
  base-IsRecent (some ts) h = validate_timestamp-IsRecent now ts age h

module _ {V : Type 0} (now : Time) (age : ℕ) where
  put_group-IsRecent :
      (ts : Time) (name : String) (v : V) (groups : List (Time × List (String × V)))
      → IsRecent now age ts
      → All (λ g. IsRecent now age g.0) groups
      → All (λ g. IsRecent now age g.0) (put_group ts name v groups)
  unfolding put_group
  put_group-IsRecent ts name v [] r h = (r, tt)
  put_group-IsRecent ts name v ((t, fields) ∷ groups) r h = elim (Bool-cases (t == ts)) [
    | inl e ↦ rw e h
    | inr e ↦ rw e (h.0, put_group-IsRecent ts name v groups r h.1)
  ]

  group_fields-IsRecent :
      (stamps : List (String × Option Time)) (default_ts : Time) (fields : List (String × V))
      (groups : List (Time × List (String × V))) {result : List (Time × List (String × V))}
      → IsRecent now age default_ts
      → All (λ g. IsRecent now age g.0) groups
      → group_fields now age stamps default_ts fields groups ≡ ok result
      → All (λ g. IsRecent now age g.0) result
  unfolding group_fields
  group_fields-IsRecent stamps default_ts [] groups d r h = rw (sym (ok_injective h)) r
  group_fields-IsRecent stamps default_ts ((name, v) ∷ fields) groups d r h =
      let inverted = >>-eq-ok (check_own now age (own_instant stamps name)) _ h in
      let mine = own-IsRecent now age (own_instant stamps name) default_ts d inverted.0 in
      group_fields-IsRecent stamps default_ts fields
        (put_group (effective default_ts stamps name) name v groups) d
        (put_group-IsRecent (effective default_ts stamps name) name v groups mine r) inverted.1

  readings-IsRecent :
      (channel_id device_id : String) (tags : List (String × String))
      (groups : List (Time × List (String × V)))
      → All (λ g. IsRecent now age g.0) groups
      → All
          (λ (r : Reading V). IsRecent now age r.timestamp)
          (map (λ g. new_reading channel_id device_id g.1 tags g.0) groups)
  readings-IsRecent channel_id device_id tags [] h = tt
  readings-IsRecent channel_id device_id tags (g ∷ groups) h =
      (h.0, readings-IsRecent channel_id device_id tags groups h.1)

  prepare-IsRecent_single :
      (input : IngestInput V) {readings : List (Reading V)}
      → prepare now age input ≡ ok readings
      → All (λ r. IsRecent now age r.timestamp) readings
  unfolding prepare group_by_timestamp
  prepare-IsRecent_single input h =
      let valid = >>-eq-ok (validate_channel_id input.channel_id) _ h in
      let full = >>-eq-ok (check_fields input.fields) _ valid.1 in
      let instant =
        >>-eq-ok (check_instant (λ ts. validate_timestamp now ts age) input.timestamp) _ full.1 in
      let base = base_of now input.timestamp in
      let (groups, grouped, built) =
        >>=-eq-ok (group_fields now age input.field_timestamps base input.fields [])
          (λ (gs : List (Time × List (String × V))). ok (
            map
              (λ (g : Time × List (String × V)).
                new_reading input.channel_id input.device_id g.1 input.tags g.0)
              gs))
          instant.1 in
      rw (sym (ok_injective built)) (
        readings-IsRecent input.channel_id input.device_id input.tags groups (
          group_fields-IsRecent input.field_timestamps base input.fields []
            (base-IsRecent now age input.timestamp instant.0) tt grouped))

  -- Every reading that Ingest or a round of IngestBatch makes of an accepted input is stamped at most
  -- 30 seconds after the clock, and not before the greatest age allowed (an age of 0 allows any),
  -- whether its instant is the input's, a field's or the clock's.
  pub prepare-IsRecent :
      (input : IngestInput V) {readings : List (Reading V)}
      → (prepare now age input ≡ ok readings) ⊎ (prepare_item now age input ≡ ok readings)
      → All (λ r. IsRecent now age r.timestamp) readings
  unfolding prepare prepare_item
  prepare-IsRecent input (inl h) = prepare-IsRecent_single input h
  prepare-IsRecent input (inr h) = prepare-IsRecent_single input h
