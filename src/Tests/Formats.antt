-- ===== src/Tests/Formats.antt =====
-- Tests of the compact formats.
use green_lab.Prelude.{
  ℕ, suc, ◌*◌, ◌≡◌, ◌≢◌, refl, String, Option, none, some, List, [], ◌∷◌, ◌++◌, replicate,
  length-replicate, get_elem?, arith, inr,
}
use green_lab.Prelude.Maps.{lookup}
use green_lab.Ingestion.Domain.{Time, second, ok, err, crc_mismatch}
use green_lab.Ingestion.Batch.{CompactBatch}
use green_lab.Ingestion.Crc.{crc16_ccitt_false}
use green_lab.Ingestion.Crc.Detects.{crc16_detects_byte}
use green_lab.Ingestion.Binary
use green_lab.Ingestion.Binary.{
  validate_dev_id, strip_hyphens, hex_bytes, hex_val, bytes_equal, decode_values, ones_count,
}
use green_lab.Ingestion.Binary.Layout.{frame, slot_fields}
use green_lab.Ingestion.Binary.RoundTrip.{parse-frame}
use green_lab.Ingestion.Binary.Accepts.{IsFrame, parse-IsFrame}
use green_lab.Ingestion.Binary.Rejects.{parse_corrupted}
use green_lab.Ingestion.Positional
use green_lab.Ingestion.Positional.{Payload, unix_milli}
use green_lab.Ingestion.Positional.Indices.{parse-positional, parse_wraps}
use green_lab.Ingestion.Compact.{
  IngestInput, resolve_td_offsets, assemble, value_at, field_at, resolve_fields, base_of,
}
use green_lab.Ingestion.Compact.Offsets.{offset_instant, resolve_td_offsets_ok}
use green_lab.Ingestion.Compact.Pipeline.{Names-resolve_fields, assemble_ok}
use green_lab.Tests.Data.{distinct, channel_id, device_id, as_float, now, schema, slots, batch}

known : validate_dev_id (0x0A ∷ 0x1B ∷ 0x2C ∷ 0x3D ∷ []) device_id ≡ none
unfolding validate_dev_id strip_hyphens hex_bytes bytes_equal
known = refl

parse-frame_example :
    Binary.parse as_float device_id (frame 1 (0x0A ∷ 0x1B ∷ 0x2C ∷ 0x3D ∷ []) 1700000000 slots)
    ≡ ok (record {
      field_values = slot_fields as_float 0 slots;
      timestamp = some (1700000000 * second);
      td_offsets = [];
      schema_version = 0;
      device_id = device_id;
    })
parse-frame_example =
    parse-frame as_float device_id 1 0x0A 0x1B 0x2C 0x3D 1700000000 slots known (omega arith) refl
      (omega arith, (tt, (omega arith, (tt, (tt, (tt, (tt, (tt, tt))))))))

abbrev tail : List ℕ
tail = 0x0A ∷ 0x1B ∷ 0x2C ∷ 0x3D ∷ 0 ∷ 0 ∷ 0 ∷ 9 ∷ 1 ∷ 0 ∷ 215 ∷ []

abbrev decoded : CompactBatch ℕ
decoded = record {
  field_values = (1, 215) ∷ [];
  timestamp = some (9 * second);
  td_offsets = [];
  schema_version = 0;
  device_id = device_id;
}

accepted : Binary.parse as_float device_id ([] ++ 1 ∷ (tail ++ 0x97 ∷ 0x2A ∷ [])) ≡ ok decoded
unfolding Binary.parse validate_dev_id strip_hyphens hex_bytes bytes_equal crc16_ccitt_false
    decode_values ones_count
accepted = refl

parse_corrupted_example :
    Binary.parse as_float device_id ([] ++ 2 ∷ (tail ++ 0x97 ∷ 0x2A ∷ [])) ≡ err crc_mismatch
parse_corrupted_example =
    parse_corrupted as_float device_id [] tail 1 2 0x97 0x2A (omega arith) (omega arith)
      (omega arith) (omega arith) accepted

parse-IsFrame_example : IsFrame device_id ([] ++ 1 ∷ (tail ++ 0x97 ∷ 0x2A ∷ []))
parse-IsFrame_example =
    parse-IsFrame as_float device_id ([] ++ 1 ∷ (tail ++ 0x97 ∷ 0x2A ∷ [])) accepted

crc16_detects_byte_example :
    crc16_ccitt_false ((7 ∷ []) ++ 8 ∷ (9 ∷ [])) ≢ crc16_ccitt_false ((7 ∷ []) ++ 255 ∷ (9 ∷ []))
crc16_detects_byte_example =
    crc16_detects_byte (7 ∷ []) (9 ∷ []) 8 255 (omega arith) (omega arith) (omega arith)

-- A codec that knows two bodies: the empty one fails, and any other is two values at one second.
abbrev two_values : Payload ℕ
two_values = record { f = 21 ∷ 60 ∷ []; t = some 1000; td = 0 ∷ 5 ∷ []; sv = 4 }

abbrev unmarshal : List ℕ → Option (Payload ℕ)
unmarshal [] = none
unmarshal (b ∷ body) = some two_values

parse-positional_example :
    (out : CompactBatch ℕ) × (Positional.parse unmarshal (1 ∷ []) ≡ ok out)
    × ((j : ℕ) → value_at (suc j) out.field_values ≡ get_elem? two_values.f j)
    × (out.timestamp ≡ unix_milli two_values.t)
    × (out.td_offsets ≡ two_values.td)
    × (out.schema_version ≡ two_values.sv)
parse-positional_example =
    parse-positional unmarshal (1 ∷ []) two_values refl (omega arith) (omega arith)

abbrev long_values : Payload ℕ
long_values = record { f = replicate 256 1 ++ 2 ∷ []; t = none; td = []; sv = 0 }

abbrev unmarshal_long : List ℕ → Option (Payload ℕ)
unmarshal_long body = some long_values

parse_wraps_example :
    (out : CompactBatch ℕ) × (Positional.parse unmarshal_long [] ≡ ok out)
    × (value_at 1 out.field_values ≡ some 2)
parse_wraps_example =
    parse_wraps unmarshal_long [] long_values (replicate 256 1) 2 refl refl
      (length-replicate {A = ℕ} 256 1)

resolve_td_offsets_ok_example :
    (result : List (String × Option Time)) × (resolve_td_offsets now
        (0 ∷ 250 ∷ [])
        ("temperature" ∷ "humidity" ∷ [])
      ≡ ok result)
    × ((i : ℕ) (k : String)
        → get_elem? ("temperature" ∷ "humidity" ∷ []) i ≡ some k
        → lookup k result ≡ some (offset_instant now (0 ∷ 250 ∷ []) i))
resolve_td_offsets_ok_example =
    resolve_td_offsets_ok now (0 ∷ 250 ∷ []) ("temperature" ∷ "humidity" ∷ []) (inr refl)
      ((distinct, tt), (tt, tt))

abbrev resolved : List (String × ℕ)
resolved = ("temperature", 215) ∷ ("humidity", 60) ∷ []

names : resolve_fields schema.fields batch.field_values 8 1 ≡ ok resolved
unfolding resolve_fields field_at value_at
names = refl

assemble_ok_example :
    (out : IngestInput ℕ) × (assemble now schema channel_id batch ≡ ok (out ∷ []))
    × (out.timestamp ≡ batch.timestamp)
    × ((i : ℕ) (k : String) (v : ℕ)
        → get_elem? resolved i ≡ some (k, v)
        → (lookup k out.fields ≡ some v)
          × (lookup k out.field_timestamps
              ≡ some (offset_instant (base_of now batch.timestamp) batch.td_offsets i)))
assemble_ok_example =
    assemble_ok now schema channel_id batch resolved refl
      (Names-resolve_fields schema.fields batch.field_values 8 1 names) ((distinct, tt), (tt, tt))
      (inr refl)
