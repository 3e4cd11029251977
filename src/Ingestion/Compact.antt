-- ===== src/Ingestion/Compact.antt =====
-- services/ingestion/internal/transport/http: deserialize.go and resolve_td_offsets.go, the steps
-- that all compact formats share. `now` is the clock's reading.
pub mod Offsets
pub mod Pipeline
use green_lab.Prelude.{
  ℕ, zero, suc, ◌+◌, ◌*◌, String, Bool, true, false, not, ◌&&◌, Option, none, some, List, [], ◌∷◌,
  length, map, ◌==◌, if◌then◌else◌,
}
use green_lab.Prelude.Maps.{insert}
use green_lab.Ingestion.Domain.{
  Time, millisecond, FieldEntry, DeviceSchema, schema_mismatch_error, unknown_field_index,
  ts_delta_invalid, Result, ok, err, ◌>>=◌,
}
use green_lab.Ingestion.Batch.{CompactBatch}

-- IngestInput of application/ingest_service.go. A nil *time.Time in `field_timestamps` is `none`.
pub record IngestInput (V : Type 0) : Type 0 where
  pub channel_id : String
  pub device_id : String
  pub fields : List (String × V)
  pub field_timestamps : List (String × Option Time)
  pub tags : List (String × String)
  pub timestamp : Option Time

-- The loop that gives every field the base instant.
unfoldable pub share_base :
    Time → List String → List (String × Option Time) → List (String × Option Time)
share_base base_ts [] result = result
share_base base_ts (name ∷ names) result =
    share_base base_ts names (insert name (some base_ts) result)

-- The loop that adds the offsets. It is run on lists of one length only.
unfoldable pub add_offsets :
    Time → List ℕ → List String → List (String × Option Time) → List (String × Option Time)
add_offsets base_ts (d ∷ td) (name ∷ names) result =
    add_offsets base_ts td names (insert name (some (base_ts + d * millisecond)) result)
add_offsets base_ts _ _ result = result

unfoldable pub resolve_td_offsets :
    Time → List ℕ → List String → Result (List (String × Option Time))
resolve_td_offsets base_ts td field_names =
    if length td == 0
    then ok (share_base base_ts field_names [])
    else if not (length td == length field_names)
    then err ts_delta_invalid
    else ok (add_offsets base_ts td field_names [])

-- indexToField[idx]: the loop stores the entries in turn, so the last entry of an index is kept.
keep_last : Option FieldEntry → Bool → FieldEntry → Option FieldEntry
keep_last (some later) here f = some later
keep_last none true f = some f
keep_last none false f = none

unfoldable pub field_at : ℕ → List FieldEntry → Option FieldEntry
unfolding keep_last
field_at idx [] = none
field_at idx (f ∷ fs) = keep_last (field_at idx fs) (f.index == idx) f

-- The instant of a batch, or the server's.
abbrev pub base_of : Time → Option Time → Time
base_of now none = now
base_of now (some ts) = ts

abbrev pub version_mismatch : ℕ → ℕ → Bool
version_mismatch server batch = not (server == 0) && not (batch == 0) && not (batch == server)

module _ {V : Type 0} where
  -- batch.FieldValues[idx]
  unfoldable pub value_at : ℕ → List (ℕ × V) → Option V
  value_at idx [] = none
  value_at idx ((j, v) ∷ m) = if j == idx then some v else value_at idx m

  -- One round of the loop over the indices, and the rounds after it.
  resolve_one :
      Option V → Option FieldEntry → Result (List (String × V)) → Result (List (String × V))
  resolve_one none fe rest = rest
  resolve_one (some val) none rest = err unknown_field_index
  resolve_one (some val) (some fe) rest = do more ← rest; ok ((fe.name, val) ∷ more)

  -- The loop `for idx := uint8(1); idx <= 8; idx++`: `n` is the rounds left.
  unfoldable pub resolve_fields :
      List FieldEntry → List (ℕ × V) → ℕ → ℕ → Result (List (String × V))
  unfolding resolve_one
  resolve_fields schema_fields field_values zero idx = ok []
  resolve_fields schema_fields field_values (suc n) idx =
      resolve_one (value_at idx field_values) (field_at idx schema_fields)
        (resolve_fields schema_fields field_values n (idx + 1))

  -- The loop that fills `fields`.
  unfoldable pub fields_of : List (String × V) → List (String × V) → List (String × V)
  fields_of [] m = m
  fields_of ((name, value) ∷ resolved) m = fields_of resolved (insert name value m)

  -- Steps 3 to 6.
  unfoldable pub assemble :
      Time → DeviceSchema → String → CompactBatch V → Result (List (IngestInput V))
  assemble now schema channel_id batch =
      if version_mismatch schema.schema_version batch.schema_version
      then err (schema_mismatch_error schema.schema_version channel_id)
      else do
        resolved ← resolve_fields schema.fields batch.field_values 8 1
        field_timestamps ←
            resolve_td_offsets (base_of now batch.timestamp) batch.td_offsets
              (map (λ r. r.0) resolved)
        ok (
            record {
              channel_id = "";
              device_id = "";
              fields = fields_of resolved [];
              field_timestamps = field_timestamps;
              tags = [];
              timestamp = batch.timestamp;
            }
            ∷ [])

  unfoldable pub deserialize_compact :
      Time
      → List ℕ
      → DeviceSchema
      → (List ℕ → Result (CompactBatch V))
      → String
      → Result (List (IngestInput V))
  deserialize_compact now body schema parse channel_id = do
    batch ← parse body
    assemble now schema channel_id batch
